-- ===== src/PageTable/Entries.antt =====
-- hypervisor/src/x64/page_table.cpp: the entries that the page table writes.
use zpp_hypervisor.Common.{ℕ, true, not, List, [], ◌∷◌, ◌%◌, ◌^◌, ◌<◌, ◌≡◌, ap}
use zpp_hypervisor.Word.Fields.{flag-injective}
use zpp_hypervisor.Pte
use zpp_hypervisor.Pte.Refine.{
  Fields, Update, set_page_number, set_write, set_present, set_execute_disable, run_fields, fields,
  pte_fields-run,
}
use zpp_hypervisor.PageTable.{link, map_leaf, Protection, includes, write, execute}

module _ (page : ℕ) (entry : Pte.Pte) (h : entry < 2 ^ 64) where
  abbrev link_calls : List Update
  link_calls = set_page_number page ∷ set_write true ∷ set_present true ∷ []

  fields-link : fields (link page entry) ≡ run_fields link_calls (fields entry)
  unfolding link
  fields-link = (pte_fields-run link_calls entry h).1

  pub link-lt : link page entry < 2 ^ 64
  unfolding link
  link-lt = (pte_fields-run link_calls entry h).0

  pub link-page_number : Pte.page_number (link page entry) ≡ page % 2 ^ 40
  link-page_number = ap (λ (r : Fields). r.page_number) fields-link

  pub link-large : Pte.large (link page entry) ≡ Pte.large entry
  link-large = flag-injective _ _ (ap (λ (r : Fields). r.large) fields-link)

  pub link-present : Pte.present (link page entry) ≡ true
  link-present = flag-injective _ _ (ap (λ (r : Fields). r.present) fields-link)

  pub link-write : Pte.write (link page entry) ≡ true
  link-write = flag-injective _ _ (ap (λ (r : Fields). r.write) fields-link)

module _ (page : ℕ) (protection : Protection) (entry : Pte.Pte) (h : entry < 2 ^ 64) where
  abbrev leaf_calls : List Update
  leaf_calls =
      set_page_number page
      ∷ set_write (includes protection write)
      ∷ set_execute_disable (not (includes protection execute))
      ∷ set_present true
      ∷ []

  fields-map_leaf : fields (map_leaf page protection entry) ≡ run_fields leaf_calls (fields entry)
  unfolding map_leaf
  fields-map_leaf = (pte_fields-run leaf_calls entry h).1

  pub map_leaf-lt : map_leaf page protection entry < 2 ^ 64
  unfolding map_leaf
  map_leaf-lt = (pte_fields-run leaf_calls entry h).0

  pub map_leaf-page_number : Pte.page_number (map_leaf page protection entry) ≡ page % 2 ^ 40
  map_leaf-page_number = ap (λ (r : Fields). r.page_number) fields-map_leaf

  pub map_leaf-present : Pte.present (map_leaf page protection entry) ≡ true
  map_leaf-present = flag-injective _ _ (ap (λ (r : Fields). r.present) fields-map_leaf)

  pub map_leaf-write : Pte.write (map_leaf page protection entry) ≡ includes protection write
  map_leaf-write = flag-injective _ _ (ap (λ (r : Fields). r.write) fields-map_leaf)

  pub map_leaf-execute_disable :
      Pte.execute_disable (map_leaf page protection entry) ≡ not (includes protection execute)
  map_leaf-execute_disable =
      flag-injective _ _ (ap (λ (r : Fields). r.execute_disable) fields-map_leaf)
