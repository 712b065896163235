-- ===== src/PageTable/Walk.antt =====
-- hypervisor/src/x64/page_table.cpp: the walk of the processor through the tables.
use zpp_hypervisor.Common.{ℕ, true, not, ◌%◌, ◌^◌, ◌<◌, ◌≡◌, sym, subst, arith, update}
use zpp_hypervisor.Word.{◌>>>◌}
use zpp_hypervisor.Pte
use zpp_hypervisor.VirtualAddress
use zpp_hypervisor.PageTable.{
  PageTable, Protection, includes, write, execute, pd_index, pdpt_address, pd_address, pt_address,
  map_page_from, link, map_leaf,
}
use zpp_hypervisor.PageTable.Entries.{
  link-page_number, link-present, link-write, map_leaf-page_number, map_leaf-present,
  map_leaf-write, map_leaf-execute_disable,
}
use zpp_hypervisor.PageTable.Mapping.{IsValid}

-- The entry of an upper table is present, writable, and leads to the page at `physical`.
pub record LeadsTo (entry : Pte.Pte) (physical : ℕ) : Type 0 where
  pub present : Pte.present entry ≡ true
  pub writable : Pte.write entry ≡ true
  pub target : Pte.page_number entry ≡ (physical >>> 12) % 2 ^ 40

-- The last entry maps the page at `physical` with the protection.
pub record Maps (entry : Pte.Pte) (physical : ℕ) (protection : Protection) : Type 0 where
  pub present : Pte.present entry ≡ true
  pub writable : Pte.write entry ≡ includes protection write
  pub no_execute : Pte.execute_disable entry ≡ not (includes protection execute)
  pub target : Pte.page_number entry ≡ (physical >>> 12) % 2 ^ 40

-- All four levels for an address; `other` says where the tables are in physical memory.
pub record Walk (other : ℕ → ℕ) (t : PageTable) (address physical : ℕ) (protection : Protection)
    : Type 0 where
  pub top : LeadsTo (t.pml4 (VirtualAddress.pml4e address)) (other (pdpt_address t))
  pub directory_pointer :
      LeadsTo (t.pdpt (VirtualAddress.pdpte address)) (other (pd_address t (pd_index address)))
  pub directory :
      LeadsTo
        (t.pds (pd_index address) (VirtualAddress.pde address))
        (other (pt_address t (pd_index address) (VirtualAddress.pde address)))
  pub table :
      Maps
        (t.pts (pd_index address) (VirtualAddress.pde address) (VirtualAddress.pte address))
        physical
        protection

update_self {ℓ} : {A : Type ℓ} (f : ℕ → A) (i : ℕ) (v : A) → update f i v i ≡ v
update_self f i v = ground arith

update_two_self : (f : ℕ → ℕ → ℕ) (i j v : ℕ) → update f i (update (f i) j v) i j ≡ v
update_two_self f i j v = ground arith

update_three_self :
    (f : ℕ → ℕ → ℕ → ℕ) (i j k v : ℕ) → update f i (update (f i) j (update (f i j) k v)) i j k ≡ v
update_three_self f i j k v = ground arith

link-LeadsTo :
    (physical : ℕ) (entry : Pte.Pte)
    → entry < 2 ^ 64
    → LeadsTo (link (physical >>> 12) entry) physical
link-LeadsTo physical entry h = record {
  present = link-present _ entry h;
  writable = link-write _ entry h;
  target = link-page_number _ entry h;
}

map_leaf-Maps :
    (physical : ℕ) (protection : Protection) (entry : Pte.Pte)
    → entry < 2 ^ 64
    → Maps (map_leaf (physical >>> 12) protection entry) physical protection
map_leaf-Maps physical protection entry h = record {
  present = map_leaf-present _ protection entry h;
  writable = map_leaf-write _ protection entry h;
  no_execute = map_leaf-execute_disable _ protection entry h;
  target = map_leaf-page_number _ protection entry h;
}

-- After an address is mapped through another, fixed table, the walk from the level 4 table goes
-- through the object's own tables, each found at the physical page that the other table gives, to
-- the page of the physical address, with the protection that was asked for.
pub map_page_from-Walk :
    (other : ℕ → ℕ) (address physical : ℕ) (protection : Protection) (t : PageTable)
    → IsValid t
    → Walk other
        (map_page_from (λ _. other) address physical protection t)
        address
        physical
        protection
unfolding map_page_from
map_page_from-Walk other address physical protection t v = record {
  top = rw (update_self) (link-LeadsTo _ _ (v.pml4_fits _));
  directory_pointer = rw (update_self) (link-LeadsTo _ _ (v.pdpt_fits _));
  directory =
      subst (λ e. LeadsTo e (other (pt_address t (pd_index address) (VirtualAddress.pde address))))
        (sym (update_two_self t.pds (pd_index address) (VirtualAddress.pde address) _))
        (link-LeadsTo (other (pt_address t (pd_index address) (VirtualAddress.pde address)))
          (t.pds (pd_index address) (VirtualAddress.pde address)) (v.pds_fits _ _));
  table =
      subst (λ e. Maps e physical protection)
        (sym (
          update_three_self t.pts (pd_index address) (VirtualAddress.pde address)
            (VirtualAddress.pte address) _))
        (map_leaf-Maps physical protection
          (t.pts (pd_index address) (VirtualAddress.pde address) (VirtualAddress.pte address))
          (v.pts_fits _ _ _));
}
