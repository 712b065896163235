-- ===== src/ExtendedPaging/Initialize/Identity.antt =====
-- hypervisor/src/hypervisor/hypervisor.cpp: the guest's view of memory after `initialize_ept`,
-- before the module is protected.
use mathlib.Core.Bool.{true≢false}
use zpp_hypervisor.Common.{
  ℕ, zero, suc, ◌+◌, ◌-◌, ◌*◌, ◌%◌, ◌^◌, ◌<◌, ◌≡◌, true, ap, sym, ◌∙◌, subst, arith, Option, some,
  none, List, [], ◌∷◌, Bool-cases, inl, inr,
}
use zpp_hypervisor.Word.{◌<<<◌}
use zpp_hypervisor.Word.Fields.{flag-injective}
use zpp_hypervisor.Epte
use zpp_hypervisor.Epte.Refine.{
  Fields, Update, set_read, set_write, set_execute, set_execute_user, set_type,
  set_large_page_number, set_large, run_fields, fields, epte_fields-run,
}
use zpp_hypervisor.MemoryType.{code, code-lt, write_back}
use zpp_hypervisor.ExtendedPaging.{Tables, Host, grant}
use zpp_hypervisor.ExtendedPaging.Entries.{all_rights, rights, rights-fields}
use zpp_hypervisor.ExtendedPaging.View.{large_leaf, view, view-large}
use zpp_hypervisor.ExtendedPaging.Invariant.{Inside, IsValid}
use zpp_hypervisor.ExtendedPaging.Hiding.{start}
use zpp_hypervisor.ExtendedPaging.Mtrrs.{Mtrr}
use zpp_hypervisor.ExtendedPaging.Initialize.{
  find_mtrr, type_at, large_entry, Levels, initialize_ept, fill_directories_lem, covers_large_page,
}
use zpp_hypervisor.ExtendedPaging.Initialize.Upper.{IsPlaced, guest_view, guest_view-initialize_ept}

module _ (mtrrs : ℕ → Mtrr) (types : (i : ℕ) → (mtrrs i).type < 8) where
  -- The type of a range that was found, or write back.
  found_type : Option Mtrr → ℕ
  found_type none = code write_back
  found_type (some m) = m.type

  find_mtrr-type : (left i physical : ℕ) → found_type (find_mtrr left i mtrrs physical) < 8
  unfolding find_mtrr found_type
  find_mtrr-type zero i physical = code-lt write_back
  find_mtrr-type (suc left) i physical = elim (Bool-cases (covers_large_page physical (mtrrs i))) [
    | inl covers ↦ rw covers (types i)
    | inr other ↦ rw other (find_mtrr-type left (i + 1) physical)
  ]

  type_at-lt : (physical : ℕ) → type_at mtrrs physical < 8
  unfolding type_at found_type
  type_at-lt physical = find_mtrr-type 8 0 physical

  module _ (n : ℕ) where
    abbrev large_calls : List Update
    large_calls =
        set_read true
        ∷ set_write true
        ∷ set_execute true
        ∷ set_execute_user true
        ∷ set_large true
        ∷ set_large_page_number n
        ∷ set_type (type_at mtrrs (n <<< 21))
        ∷ []

    fields-large_entry : fields (large_entry mtrrs n) ≡ run_fields large_calls (fields 0)
    unfolding large_entry grant
    fields-large_entry = (epte_fields-run large_calls 0 (omega arith)).1

    large_entry-lt : large_entry mtrrs n < 2 ^ 64
    unfolding large_entry grant
    large_entry-lt = (epte_fields-run large_calls 0 (omega arith)).0

    large_entry-large : Epte.large (large_entry mtrrs n) ≡ true
    large_entry-large = flag-injective _ true (ap (λ (r : Fields). r.large) fields-large_entry)

    large_entry-rights : rights (large_entry mtrrs n) ≡ all_rights true
    large_entry-rights =
        rights-fields (large_entry mtrrs n) true
          (run_fields
            (set_large true ∷ set_large_page_number n ∷ set_type (type_at mtrrs (n <<< 21)) ∷ [])
            (fields 0))
          fields-large_entry

    large_entry-type : Epte.type (large_entry mtrrs n) ≡ type_at mtrrs (n <<< 21)
    large_entry-type =
        let small = type_at-lt (n <<< 21) in
        ap (λ (r : Fields). r.type) fields-large_entry ∙ omega arith

    large_entry-number : Epte.large_page_number (large_entry mtrrs n) ≡ n % 2 ^ 31
    large_entry-number = ap (λ (r : Fields). r.large_page_number) fields-large_entry

  module _ (h : Host) (levels : Levels) (ept : ℕ → ℕ → Epte.Epte) (epdpt_page : ℕ)
      (epd_page : ℕ → ℕ) where
    abbrev pub filled : Tables
    filled = start (initialize_ept mtrrs epdpt_page epd_page levels).epd ept

    filled-entry :
        (a b : ℕ) → Inside a b → filled.epd a b ≡ large_entry mtrrs (0 + (a - 0) * 512 + b)
    unfolding initialize_ept
    filled-entry a b (f, g) =
        fill_directories_lem mtrrs 512 0 0 levels.epd a b (omega arith) (omega arith) g

    filled-large : (a b : ℕ) → Inside a b → Epte.large (filled.epd a b) ≡ true
    filled-large a b inside = ap Epte.large (filled-entry a b inside) ∙ large_entry-large _

    view-filled :
        (a b c : ℕ)
        → Inside a b
        → view h filled a b c
          ≡ some (record {
            allowed = all_rights true;
            frame = (a * 512 + b) * 512 + c;
            memory_type = type_at mtrrs ((a * 512 + b) * 2 ^ 21);
          })
    view-filled a b c inside =
        let number = 0 + (a - 0) * 512 + b in
        let (f, g) = inside in
        let frame : Epte.large_page_number (large_entry mtrrs number) * 2 ^ 9 + c
            ≡ (a * 512 + b) * 512 + c =
          omega (arith, large_entry-number number) in
        let address : number <<< 21 ≡ (a * 512 + b) * 2 ^ 21 = omega arith in
        view-large h filled a b c (filled-large a b inside)
        ∙ ap (λ e. some (large_leaf e c)) (filled-entry a b inside)
        ∙ (λ i. some (record {
          allowed = large_entry-rights number i;
          frame = frame i;
          memory_type = (large_entry-type number ∙ ap (type_at mtrrs) address) i;
        }))

    -- After `initialize_ept` the tables are valid, and the guest sees, through all the levels, each of
    -- the pages of the first 512 GB at its own address, with all rights, and with the memory type of
    -- the first range that covers its large page, or write back. The ranges have types below 8, `ept`
    -- has 64-bit words, the arrays are at page addresses, and the entry of `epml4` was no large page.
    pub initialize_ept-view :
        ((k c : ℕ) → ept k c < 2 ^ 64)
        → IsPlaced levels epdpt_page epd_page
        → IsValid h filled
          × ((a b c : ℕ)
              → Inside a b
              → guest_view h epdpt_page epd_page
                  (initialize_ept mtrrs epdpt_page epd_page levels)
                  filled
                  a
                  b
                  c
                ≡ some (record {
                  allowed = all_rights true;
                  frame = (a * 512 + b) * 512 + c;
                  memory_type = type_at mtrrs ((a * 512 + b) * 2 ^ 21);
                }))
    initialize_ept-view fits placed = (
      record {
        epd_fits = λ a b inside.
            subst (λ e. e < 2 ^ 64) (sym (filled-entry a b inside)) (large_entry-lt _);
        ept_fits = fits;
        large_open = λ a b inside _. ap rights (filled-entry a b inside) ∙ large_entry-rights _;
        tables = λ a b inside small. absurd (true≢false (sym (filled-large a b inside) ∙ small));
        distinct = λ a b a' b' k inside inside' small small' e e'.
            absurd (true≢false (sym (filled-large a b inside) ∙ small));
      },
      λ a b c inside.
          guest_view-initialize_ept epd_page h mtrrs levels epdpt_page filled a b c placed inside.0
          ∙ view-filled a b c inside,
    )
