-- ===== src/ExtendedPaging/Initialize/Upper.antt =====
-- hypervisor/src/hypervisor/hypervisor.cpp, `initialize_ept`: the two upper levels of the extended
-- page tables, `epml4` and `epdpt`, and the guest's view through all the levels.
use zpp_hypervisor.Common.{
  ℕ, zero, suc, ◌+◌, ◌*◌, ◌/◌, ◌%◌, ◌^◌, ◌<◌, ◌≡◌, Bool, true, false, ◌==◌, ltb, leb, ◌&&◌, not,
  refl, ap, ◌∙◌, arith, if◌then◌else◌, update, Bool-cases, ==_iff, inl, inr, Option, some, none,
  List, [], ◌∷◌,
}
use zpp_hypervisor.Word.{◌<<<◌, ◌>>>◌}
use zpp_hypervisor.Word.Fields.{flag-injective}
use zpp_hypervisor.Epte
use zpp_hypervisor.Epte.Forms as EpteForms
use zpp_hypervisor.Epte.Refine.{
  Fields, Update, set_read, set_write, set_execute, set_execute_user, set_page_number, run_fields,
  fields, epte_fields-run,
}
use zpp_hypervisor.ExtendedPaging.{Tables, Host, grant}
use zpp_hypervisor.ExtendedPaging.Entries.{Rights, all_rights, rights, rights-fields}
use zpp_hypervisor.ExtendedPaging.View.{Leaf, view}
use zpp_hypervisor.ExtendedPaging.Mtrrs.{Mtrr}
use zpp_hypervisor.ExtendedPaging.Initialize.{Levels, initialize_ept, fill_pointers}

-- The processor gives a right that every entry on its way gives.
abbrev pub both : Rights → Rights → Rights
both r s = record {
  read = r.read && s.read;
  write = r.write && s.write;
  execute = r.execute && s.execute;
  execute_user = r.execute_user && s.execute_user;
}

abbrev pub limit : Rights → Option Leaf → Option Leaf
limit r none = none
limit r (some l) = some (record l { allowed = both r l.allowed })

-- Whether an entry is a pointer to the table at a physical address.
abbrev pub points_to : Epte.Epte → ℕ → Bool
points_to e page = not (Epte.large e) && (Epte.page_number e <<< 12 == page)

-- The guest's view from the root on: the entry of `epml4` for the first 512 GB has to point to
-- `epdpt`, at `epdpt_page`, and its entry `a` to the directory `epd[a]`, at `epd_page a`.
pub guest_view : Host → ℕ → (ℕ → ℕ) → Levels → Tables → ℕ → ℕ → ℕ → Option Leaf
guest_view h epdpt_page epd_page levels t a b c =
    if points_to levels.epml4e epdpt_page && points_to (levels.epdpt a) (epd_page a)
    then limit (both (rights levels.epml4e) (rights (levels.epdpt a))) (view h t a b c)
    else none

-- A page address that an entry has room for.
abbrev pub IsPage : ℕ → Type 0
IsPage page = page / 2 ^ 12 % 2 ^ 40 * 2 ^ 12 ≡ page

-- The arrays are at page addresses, and the entry of `epml4` is a 64-bit word that is no large page,
-- as it is at the start, where it is 0.
abbrev pub IsPlaced : Levels → ℕ → (ℕ → ℕ) → Type 0
IsPlaced levels epdpt_page epd_page =
    (levels.epml4e < 2 ^ 64)
    × (Epte.large levels.epml4e ≡ false)
    × IsPage epdpt_page
    × ((a : ℕ) → a < 512 → IsPage (epd_page a))

limit-all : (o : Option Leaf) → limit (both (all_rights true) (all_rights true)) o ≡ o
limit-all none = refl
limit-all (some l) = refl

-- A pointer to a table with all rights.
abbrev pointer : ℕ → Epte.Epte → Epte.Epte
pointer page e = Epte.set_page_number (page >>> 12) (grant true e)

module _ (page : ℕ) (e : Epte.Epte) (fits : e < 2 ^ 64) (small : Epte.large e ≡ false)
    (aligned : IsPage page) where
  abbrev pointer_calls : List Update
  pointer_calls =
      set_read true
      ∷ set_write true
      ∷ set_execute true
      ∷ set_execute_user true
      ∷ set_page_number (page >>> 12)
      ∷ []

  fields-pointer : fields (pointer page e) ≡ run_fields pointer_calls (fields e)
  unfolding grant
  fields-pointer = (epte_fields-run pointer_calls e fits).1

  pointer-rights : rights (pointer page e) ≡ all_rights true
  pointer-rights =
      rights-fields (pointer page e) true
        (run_fields (set_page_number (page >>> 12) ∷ []) (fields e)) fields-pointer

  pointer-large : Epte.large (pointer page e) ≡ false
  pointer-large = flag-injective _ _ (ap (λ (r : Fields). r.large) fields-pointer) ∙ small

  pointer-page : Epte.page_number (pointer page e) <<< 12 ≡ page
  pointer-page =
      let p = pointer page e in
      omega (
        arith,
        aligned,
        EpteForms.page_number-eq p,
        EpteForms.large_page_number-eq p,
        ap (λ (r : Fields). r.low_page_number) fields-pointer,
        ap (λ (r : Fields). r.large_page_number) fields-pointer,
      )

  pointer-points_to : points_to (pointer page e) page ≡ true
  pointer-points_to =
      rw pointer-large ((==_iff (Epte.page_number (pointer page e) <<< 12) page).1 pointer-page)

module _ (page : ℕ → ℕ) where
  fill_pointers_lem :
      (left i : ℕ) (epdpt : ℕ → Epte.Epte) (a : ℕ)
      → fill_pointers page left i epdpt a
        ≡ (if leb i a && ltb a (i + left) then pointer (page a) 0 else epdpt a)
  unfolding fill_pointers
  fill_pointers_lem zero i epdpt a = ground arith
  fill_pointers_lem (suc left) i epdpt a =
      let rest = fill_pointers_lem left (i + 1) (update epdpt i (pointer (page i) 0)) a in
      elim (Bool-cases (i == a)) [
        | inr other ↦ ground (arith, rest)
        | inl here ↦
            let same : pointer (page i) 0 ≡ pointer (page a) 0 =
              ap (λ x. pointer (page x) 0) ((==_iff i a).0 here) in
            ground (arith, rest, same)
      ]

  -- After `initialize_ept` the upper levels lead to every directory and take no right away.
  pub guest_view-initialize_ept :
      (h : Host) (mtrrs : ℕ → Mtrr) (levels : Levels) (epdpt_page : ℕ) (t : Tables) (a b c : ℕ)
      → IsPlaced levels epdpt_page page
      → a < 512
      → guest_view h epdpt_page page (initialize_ept mtrrs epdpt_page page levels) t a b c
        ≡ view h t a b c
  unfolding guest_view initialize_ept
  guest_view-initialize_ept h mtrrs levels epdpt_page t a b c (fits, small, root, directories) f =
      let directory = directories a f in
      let inside : (leb 0 a && ltb a (0 + 512)) ≡ true = ground arith in
      let zero_small : Epte.large 0 ≡ false = flag-injective _ false (EpteForms.large-eq 0) in
      let filled : fill_pointers page 512 0 levels.epdpt a ≡ pointer (page a) 0 =
        fill_pointers_lem 512 0 levels.epdpt a ∙ rw inside refl in
      rw
        (
          filled,
          pointer-points_to epdpt_page levels.epml4e fits small root,
          pointer-points_to (page a) 0 (omega arith) zero_small directory,
          pointer-rights epdpt_page levels.epml4e fits small root,
          pointer-rights (page a) 0 (omega arith) zero_small directory,
        )
        (limit-all (view h t a b c))
