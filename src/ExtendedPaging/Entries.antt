-- ===== src/ExtendedPaging/Entries.antt =====
-- hypervisor/src/hypervisor/hypervisor.cpp: the entries that the extended page tables get.
use zpp_hypervisor.Common.{
  ℕ, zero, suc, Bool, true, false, List, [], ◌∷◌, ◌+◌, ◌*◌, ◌/◌, ◌%◌, ◌^◌, ◌<◌, ◌≡◌, ◌∙◌, ltb, leb,
  ◌&&◌, ap, arith, update, if◌then◌else◌,
}
use zpp_hypervisor.Word.{flag, ◌>>>◌}
use zpp_hypervisor.Word.Fields.{flag-injective}
use zpp_hypervisor.Epte
use zpp_hypervisor.Epte.Forms
use zpp_hypervisor.Epte.Refine.{
  Fields, Update, set_read, set_write, set_execute, set_execute_user, set_type, set_page_number,
  set_large, run_fields, fields, epte_fields-run,
}
use zpp_hypervisor.ExtendedPaging.{grant, small_entry, point_to, fill_table}

-- What the processor reads in an entry that maps a page.
pub record Rights : Type 0 where
  pub read : Bool
  pub write : Bool
  pub execute : Bool
  pub execute_user : Bool

abbrev pub all_rights : Bool → Rights
all_rights v = record { read = v; write = v; execute = v; execute_user = v }

pub rights : Epte.Epte → Rights
rights e = record {
  read = Epte.read e;
  write = Epte.write e;
  execute = Epte.execute e;
  execute_user = Epte.execute_user e;
}

-- The rights by the fields of the entry.
pub rights-fields :
    (e : Epte.Epte) (v : Bool) (r : Fields)
    → fields e ≡ record r { read = flag v; write = flag v; execute = flag v; execute_user = flag v }
    → rights e ≡ all_rights v
unfolding rights
rights-fields e v r h = λ i. record {
  read = flag-injective (Epte.read e) v (ap (λ (f : Fields). f.read) h) i;
  write = flag-injective (Epte.write e) v (ap (λ (f : Fields). f.write) h) i;
  execute = flag-injective (Epte.execute e) v (ap (λ (f : Fields). f.execute) h) i;
  execute_user = flag-injective (Epte.execute_user e) v (ap (λ (f : Fields). f.execute_user) h) i;
}

page_number-fields :
    (e : Epte.Epte)
    → Epte.page_number e ≡ (fields e).low_page_number + (fields e).large_page_number * 2 ^ 9
page_number-fields e = omega (arith, Forms.page_number-eq e, Forms.large_page_number-eq e)

module _ (v : Bool) (e : Epte.Epte) (h : e < 2 ^ 64) where
  abbrev grant_calls : List Update
  grant_calls = set_read v ∷ set_write v ∷ set_execute v ∷ set_execute_user v ∷ []

  fields-grant : fields (grant v e) ≡ run_fields grant_calls (fields e)
  unfolding grant
  fields-grant = (epte_fields-run grant_calls e h).1

  pub grant-lt : grant v e < 2 ^ 64
  unfolding grant
  grant-lt = (epte_fields-run grant_calls e h).0

  pub grant-rights : rights (grant v e) ≡ all_rights v
  grant-rights = rights-fields (grant v e) v (fields e) fields-grant

  pub grant-type : Epte.type (grant v e) ≡ Epte.type e
  grant-type = ap (λ (f : Fields). f.type) fields-grant

  pub grant-page_number : Epte.page_number (grant v e) ≡ Epte.page_number e
  grant-page_number = omega (
    arith,
    page_number-fields (grant v e),
    page_number-fields e,
    ap (λ (f : Fields). f.low_page_number) fields-grant,
    ap (λ (f : Fields). f.large_page_number) fields-grant,
  )

module _ (memory_type page_number : ℕ) (e : Epte.Epte) (f : memory_type < 8) (h : e < 2 ^ 64) where
  abbrev small_calls : List Update
  small_calls =
      set_read true
      ∷ set_write true
      ∷ set_execute true
      ∷ set_execute_user true
      ∷ set_page_number page_number
      ∷ set_type memory_type
      ∷ []

  fields-small_entry :
      fields (small_entry memory_type page_number e) ≡ run_fields small_calls (fields e)
  unfolding small_entry grant
  fields-small_entry = (epte_fields-run small_calls e h).1

  pub small_entry-lt : small_entry memory_type page_number e < 2 ^ 64
  unfolding small_entry grant
  small_entry-lt = (epte_fields-run small_calls e h).0

  pub small_entry-rights : rights (small_entry memory_type page_number e) ≡ all_rights true
  small_entry-rights =
      rights-fields _ true
        (run_fields (set_page_number page_number ∷ set_type memory_type ∷ []) (fields e))
        fields-small_entry

  pub small_entry-type : Epte.type (small_entry memory_type page_number e) ≡ memory_type
  small_entry-type = ap (λ (r : Fields). r.type) fields-small_entry ∙ omega arith

  pub small_entry-page_number :
      Epte.page_number (small_entry memory_type page_number e) ≡ page_number % 2 ^ 40
  small_entry-page_number = omega (
    arith,
    page_number-fields (small_entry memory_type page_number e),
    ap (λ (r : Fields). r.low_page_number) fields-small_entry,
    ap (λ (r : Fields). r.large_page_number) fields-small_entry,
  )

module _ (physical : ℕ) (e : Epte.Epte) (h : e < 2 ^ 64) where
  abbrev point_calls : List Update
  point_calls = set_large false ∷ set_type 0 ∷ set_page_number (physical >>> 12) ∷ []

  fields-point_to : fields (point_to physical e) ≡ run_fields point_calls (fields e)
  unfolding point_to
  fields-point_to = (epte_fields-run point_calls e h).1

  pub point_to-lt : point_to physical e < 2 ^ 64
  unfolding point_to
  point_to-lt = (epte_fields-run point_calls e h).0

  pub point_to-large : Epte.large (point_to physical e) ≡ false
  point_to-large = flag-injective _ _ (ap (λ (r : Fields). r.large) fields-point_to)

  pub point_to-page_number : Epte.page_number (point_to physical e) ≡ physical / 2 ^ 12 % 2 ^ 40
  point_to-page_number = omega (
    arith,
    page_number-fields (point_to physical e),
    ap (λ (r : Fields). r.low_page_number) fields-point_to,
    ap (λ (r : Fields). r.large_page_number) fields-point_to,
  )

-- The loop fills the table from `j` on and leaves the rest.
pub fill_table_lem :
    (n j memory_type page_number : ℕ) (table : ℕ → Epte.Epte) (c : ℕ)
    → fill_table n j memory_type page_number table c ≡ (
        if leb j c && ltb c (j + n)
        then small_entry memory_type (page_number + c) (table c)
        else table c)
unfolding fill_table
fill_table_lem zero j memory_type page_number table c = ground arith
fill_table_lem (suc n) j memory_type page_number table c = ground (
  arith,
  fill_table_lem n (j + 1) memory_type page_number
      (update table j (small_entry memory_type (page_number + j) (table j))) c,
)
