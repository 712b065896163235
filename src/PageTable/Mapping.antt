-- ===== src/PageTable/Mapping.antt =====
-- hypervisor/src/x64/page_table.cpp: `map_page` and `map_from` on the translation.
pub mod Range
use zpp_hypervisor.Common.{
  ℕ, Bool, true, false, ◌&&◌, ◌+◌, ◌*◌, ◌/◌, ◌%◌, ◌^◌, ◌<◌, ◌≤◌, ◌≡◌, ◌==◌, inl, inr, ◌∙◌, ap, sym,
  arith, refl, update, if◌then◌else◌, Bool-cases,
}
use zpp_hypervisor.Word.{u64, ◌<<<◌, ◌>>>◌}
use zpp_hypervisor.Pte
use zpp_hypervisor.Pte.Forms
use zpp_hypervisor.VirtualAddress
use zpp_hypervisor.VirtualAddress.Forms as AddressForms
use zpp_hypervisor.PageTable.{
  PageTable, Protection, pd_index, virtual_to_physical, map_page_from, map_page, map_leaf, link,
}
use zpp_hypervisor.PageTable.Entries.{link-lt, link-large, map_leaf-lt, map_leaf-page_number}

-- Every entry is a 64-bit word and no upper entry maps a page of its own.
pub record IsValid (t : PageTable) : Type 0 where
  pub pml4_fits : (i : ℕ) → t.pml4 i < 2 ^ 64
  pub pdpt_fits : (i : ℕ) → t.pdpt i < 2 ^ 64
  pub pdpt_tables : (i : ℕ) → Pte.large (t.pdpt i) ≡ false
  pub pds_fits : (i j : ℕ) → t.pds i j < 2 ^ 64
  pub pds_tables : (i j : ℕ) → Pte.large (t.pds i j) ≡ false
  pub pts_fits : (i j k : ℕ) → t.pts i j k < 2 ^ 64

-- Two addresses use the same last entry: bits 12 to 29 and bit 38 agree.
abbrev pub same_slot : ℕ → ℕ → Bool
same_slot a b = (a / 2 ^ 38 % 2 == b / 2 ^ 38 % 2) && (a / 2 ^ 12 % 2 ^ 18 == b / 2 ^ 12 % 2 ^ 18)

update-all {ℓ κ} :
    {A : Type ℓ} (P : A → Type κ) (f : ℕ → A) (i : ℕ) (v : A)
    → ((j : ℕ) → P (f j))
    → P v
    → (j : ℕ) → P (update f i v j)
update-all P f i v h p j = elim (Bool-cases (i == j)) [
  | inl same ↦ rw same p
  | inr other ↦ rw other (h j)
]

module _ (other : PageTable → ℕ → ℕ) (address physical : ℕ) (protection : Protection) where
  pub map_page_from-IsValid :
      (t : PageTable) → IsValid t → IsValid (map_page_from other address physical protection t)
  unfolding map_page_from
  map_page_from-IsValid t v = record {
    pml4_fits = update-all (λ e. e < 2 ^ 64) t.pml4 _ _ v.pml4_fits (link-lt _ _ (v.pml4_fits _));
    pdpt_fits = update-all (λ e. e < 2 ^ 64) t.pdpt _ _ v.pdpt_fits (link-lt _ _ (v.pdpt_fits _));
    pdpt_tables =
        update-all (λ e. Pte.large e ≡ false) t.pdpt _ _ v.pdpt_tables
          (link-large _ _ (v.pdpt_fits _) ∙ v.pdpt_tables _);
    pds_fits =
        update-all (λ f. (j : ℕ) → f j < 2 ^ 64) t.pds _ _ v.pds_fits
          (update-all (λ e. e < 2 ^ 64) (t.pds _) _ _ (v.pds_fits _)
            (link-lt _ _ (v.pds_fits _ _)));
    pds_tables =
        update-all (λ f. (j : ℕ) → Pte.large (f j) ≡ false) t.pds _ _ v.pds_tables
          (update-all (λ e. Pte.large e ≡ false) (t.pds _) _ _ (v.pds_tables _)
            (link-large _ _ (v.pds_fits _ _) ∙ v.pds_tables _ _));
    pts_fits =
        update-all (λ f. (j k : ℕ) → f j k < 2 ^ 64) t.pts _ _ v.pts_fits
          (update-all (λ f. (k : ℕ) → f k < 2 ^ 64) (t.pts _) _ _ (v.pts_fits _)
            (update-all (λ e. e < 2 ^ 64) (t.pts _ _) _ _ (v.pts_fits _ _)
              (map_leaf-lt _ protection _ (v.pts_fits _ _ _))));
  }

  -- The entry that translates `b`, after the page of `address` was mapped.
  pts-map_page_from :
      (t : PageTable) (i j k : ℕ)
      → (map_page_from other address physical protection t).pts i j k ≡ (
          if (pd_index address == i)
            && ((VirtualAddress.pde address == j) && (VirtualAddress.pte address == k))
          then map_leaf (physical >>> 12) protection (t.pts i j k)
          else t.pts i j k)
  unfolding map_page_from
  pts-map_page_from t i j k = ground arith

abbrev leaf_address : Pte.Pte → ℕ → ℕ
leaf_address entry b = Pte.page_number entry * 2 ^ 12 + b % 2 ^ 12

-- With no large entries the translation is that of the last entry.
virtual_to_physical-leaf :
    (t : PageTable) (b : ℕ)
    → IsValid t
    → virtual_to_physical t b
      ≡ leaf_address (t.pts (pd_index b) (VirtualAddress.pde b) (VirtualAddress.pte b)) b
unfolding virtual_to_physical
virtual_to_physical-leaf t b v =
    rw (v.pdpt_tables _, v.pds_tables _ _)
      (omega (
        arith,
        Forms.page_number-eq (t.pts (pd_index b) (VirtualAddress.pde b) (VirtualAddress.pte b)),
        AddressForms.offset-eq b,
      ))

same_slot-indices :
    (a b : ℕ)
    → (pd_index a == pd_index b)
        && ((VirtualAddress.pde a == VirtualAddress.pde b)
            && (VirtualAddress.pte a == VirtualAddress.pte b))
      ≡ same_slot a b
same_slot-indices a b = ground (
  arith,
  AddressForms.pdpte-eq a,
  AddressForms.pdpte-eq b,
  AddressForms.pde-eq a,
  AddressForms.pde-eq b,
  AddressForms.pte-eq a,
  AddressForms.pte-eq b,
)

-- Mapping the page of `address` makes exactly the addresses of its slot translate to the physical
-- page, and leaves every other translation alone.
pub virtual_to_physical-map_page_from :
    (other : PageTable → ℕ → ℕ) (address physical : ℕ) (protection : Protection) (t : PageTable)
    (b : ℕ)
    → IsValid t
    → virtual_to_physical (map_page_from other address physical protection t) b ≡ (
        if same_slot address b
        then physical / 2 ^ 12 % 2 ^ 40 * 2 ^ 12 + b % 2 ^ 12
        else virtual_to_physical t b)
virtual_to_physical-map_page_from other address physical protection t b v =
    let old = t.pts (pd_index b) (VirtualAddress.pde b) (VirtualAddress.pte b) in
    virtual_to_physical-leaf _ b (map_page_from-IsValid other address physical protection t v)
    ∙ ap (λ e. leaf_address e b)
        (pts-map_page_from other address physical protection t (pd_index b) (VirtualAddress.pde b)
            (VirtualAddress.pte b)
          ∙ ap (λ c. if c then map_leaf (physical >>> 12) protection old else old)
              (same_slot-indices address b))
    ∙ split old (same_slot address b) (v.pts_fits _ _ _) (sym (virtual_to_physical-leaf t b v))
  where
    split :
        (old : Pte.Pte) (c : Bool)
        → old < 2 ^ 64
        → leaf_address old b ≡ virtual_to_physical t b
        → leaf_address (if c then map_leaf (physical >>> 12) protection old else old) b ≡ (
            if c then physical / 2 ^ 12 % 2 ^ 40 * 2 ^ 12 + b % 2 ^ 12 else virtual_to_physical t b)
    split old true h same = ap (λ n. n * 2 ^ 12 + b % 2 ^ 12) (map_leaf-page_number _ _ old h)
    split old false h same = same
