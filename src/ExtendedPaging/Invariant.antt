-- ===== src/ExtendedPaging/Invariant.antt =====
-- The invariant of the tables while the module is being protected, and the two changes of a step:
-- the conversion of a large page and the write of a page's rights.
use zpp_hypervisor.Common.{
  ℕ, ◌*◌, ◌-◌, ◌/◌, ◌%◌, ◌^◌, Bool, true, false, Option, some, ◌≡◌, ◌==◌, if◌then◌else◌, refl, ◌<◌,
  inl, inr, Bool-cases, ==_iff, sym, ap, ap₂, ◌∙◌, arith, update,
}
use zpp_hypervisor.Word.{◌<<<◌}
use zpp_hypervisor.Epte
use zpp_hypervisor.ExtendedPaging.{
  Tables, Host, page_size, resolve, found_table, table_address, ept_count, set_rights, grant,
}
use zpp_hypervisor.SmallMap.Lookup.{lookup}
use zpp_hypervisor.ExtendedPaging.Entries.{
  all_rights, rights, grant-lt, grant-rights, grant-type, grant-page_number,
}
use zpp_hypervisor.ExtendedPaging.View.{
  small_leaf, view, with_rights, same_page, view-large, view-small,
}

-- The map of the module's pages finds the first `n` tables of `ept` at the physical page that the host page
-- table gives for it.
abbrev pub Located : Host → ℕ → Type 0
Located h n =
    (k : ℕ)
    → k < n
    → resolve h (h.virtual_to_physical (table_address h k) / 2 ^ 12 % 2 ^ 40 * 2 ^ 12) ≡ some k

-- A page that the map finds at the address of a table resolves to the table.
pub resolve_lem :
    (h : Host) (physical k : ℕ)
    → lookup h.module_physical_to_virtual physical ≡ some (table_address h k)
    → k < ept_count
    → resolve h physical ≡ some k
unfolding resolve
resolve_lem h physical k e f =
    let index : (table_address h k - h.ept_address) / page_size ≡ k = omega arith in
    ap (found_table h) e
    ∙ rw index (rw ((==_iff (table_address h k) (table_address h k)).1 refl) (ground arith))

same_page-apart : (a b c a' b' c' : ℕ) → (a ≡ a' → b ≡ b' → ⊥) → same_page a b c a' b' c' ≡ false
same_page-apart a b c a' b' c' h = ground arith

true≢false' : true ≡ false → ⊥
true≢false' e = cc

-- The table that an entry points to.
abbrev pub target : Host → Tables → ℕ → ℕ → Option ℕ
target h t a b = resolve h (Epte.page_number (t.epd a b) <<< 12)

-- The indices of an entry of `epd`.
abbrev pub Inside : ℕ → ℕ → Type 0
Inside a b = (a < 512) × (b < 512)

-- Entries are 64-bit words, large pages have all rights, and every other entry of `epd` points to a
-- used table of its own.
pub record IsValid (h : Host) (t : Tables) : Type 0 where
  pub epd_fits : (a b : ℕ) → Inside a b → t.epd a b < 2 ^ 64
  pub ept_fits : (k c : ℕ) → t.ept k c < 2 ^ 64
  pub large_open :
      (a b : ℕ) → Inside a b → Epte.large (t.epd a b) ≡ true → rights (t.epd a b) ≡ all_rights true
  pub tables :
      (a b : ℕ)
      → Inside a b
      → Epte.large (t.epd a b) ≡ false
      → (k : ℕ) × (k < t.ept_index) × (target h t a b ≡ some k)
  pub distinct :
      (a b a' b' k : ℕ)
      → Inside a b
      → Inside a' b'
      → Epte.large (t.epd a b) ≡ false
      → Epte.large (t.epd a' b') ≡ false
      → target h t a b ≡ some k
      → target h t a' b' ≡ some k
      → (a ≡ a') × (b ≡ b')

module _ (h : Host) (t : Tables) (valid : IsValid h t) (v : Bool) (k c : ℕ) where
  small_leaf-grant :
      (e : Epte.Epte)
      → e < 2 ^ 64
      → some (small_leaf (grant v e)) ≡ with_rights v (some (small_leaf e))
  small_leaf-grant e fits = λ i. some (record {
    allowed = grant-rights v e fits i;
    frame = grant-page_number v e fits i;
    memory_type = grant-type v e fits i;
  })

  pub set_rights-IsValid : IsValid h (set_rights v k c t)
  unfolding set_rights
  set_rights-IsValid = record {
    epd_fits = valid.epd_fits;
    ept_fits = λ k' c'. elim (Bool-cases (k == k')) [
      | inr other ↦ rw other (valid.ept_fits k' c')
      | inl same ↦ rw same (elim (Bool-cases (c == c')) [
        | inr other ↦ rw other (valid.ept_fits k c')
        | inl here ↦ rw here (grant-lt v _ (valid.ept_fits k c))
      ])
    ];
    large_open = valid.large_open;
    tables = valid.tables;
    distinct = valid.distinct;
  }

  module _ (a b : ℕ) (small : Epte.large (t.epd a b) ≡ false) (e : target h t a b ≡ some k)
      (a' b' c' : ℕ) (inside : Inside a b) (inside' : Inside a' b') where
    -- Another large page: the view there is the same, and it is not the page written.
    view-set_rights_large :
        Epte.large (t.epd a' b') ≡ true
        → view h (set_rights v k c t) a' b' c' ≡ (
            if same_page a b c a' b' c'
            then with_rights v (view h t a' b' c')
            else view h t a' b' c')
    unfolding set_rights
    view-set_rights_large large =
        let other : same_page a b c a' b' c' ≡ false = same_page-apart a b c a' b' c' (λ p q.
          true≢false' (sym large ∙ sym (ap₂ (λ x y. Epte.large (t.epd x y)) p q) ∙ small)) in
        rw other
          (view-large h (set_rights v k c t) a' b' c' large ∙ sym (view-large h t a' b' c' large))

    k==k : (k == k) ≡ true
    k==k = (==_iff k k).1 refl

    entry_written :
        (c' : ℕ)
        → (c == c') ≡ true
        → update t.ept k (update (t.ept k) c (grant v (t.ept k c))) k c' ≡ grant v (t.ept k c')
    entry_written c' written =
        rw (k==k, written) (ap (λ x. grant v (t.ept k x)) ((==_iff c c').0 written))

    entry_kept :
        (c' : ℕ)
        → (c == c') ≡ false
        → update t.ept k (update (t.ept k) c (grant v (t.ept k c))) k c' ≡ t.ept k c'
    entry_kept c' kept = rw (k==k, kept) refl

    -- A page with an entry in the table that is written.
    view-set_rights_table :
        Epte.large (t.epd a' b') ≡ false
        → target h t a' b' ≡ some k
        → view h (set_rights v k c t) a' b' c'
          ≡ (if c == c' then with_rights v (view h t a' b' c') else view h t a' b' c')
    unfolding set_rights
    view-set_rights_table small' e₁ = elim (Bool-cases (c == c')) [
      | inl written ↦ rw written (
          view-small h (set_rights v k c t) a' b' c' k small' e₁
          ∙ ap (λ e. some (small_leaf e)) (entry_written c' written)
          ∙ small_leaf-grant (t.ept k c') (valid.ept_fits k c')
          ∙ ap (with_rights v) (sym (view-small h t a' b' c' k small' e₁)))
      | inr kept ↦ rw kept (
          view-small h (set_rights v k c t) a' b' c' k small' e₁
          ∙ ap (λ e. some (small_leaf e)) (entry_kept c' kept)
          ∙ sym (view-small h t a' b' c' k small' e₁))
    ]

    -- A page with an entry: it is in the table written exactly if the upper entries are the same.
    view-set_rights_small :
        (k' : ℕ)
        → Epte.large (t.epd a' b') ≡ false
        → target h t a' b' ≡ some k'
        → view h (set_rights v k c t) a' b' c' ≡ (
            if same_page a b c a' b' c'
            then with_rights v (view h t a' b' c')
            else view h t a' b' c')
    unfolding set_rights
    view-set_rights_small k' small' e' = elim (Bool-cases (k == k')) [
      | inr other ↦
          let elsewhere : same_page a b c a' b' c' ≡ false = same_page-apart a b c a' b' c' (λ p q.
            let one : some k ≡ some k' = sym e ∙ ap₂ (target h t) p q ∙ e' in ground arith) in
          rw elsewhere (
            view-small h (set_rights v k c t) a' b' c' k' small' e'
            ∙ rw other (sym (view-small h t a' b' c' k' small' e')))
      | inl same ↦
          let one : k ≡ k' = (==_iff k k').0 same in
          let e₁ : target h t a' b' ≡ some k = e' ∙ ap some (sym one) in
          let (p, q) = valid.distinct a b a' b' k inside inside' small small' e e₁ in
          let here : same_page a b c a' b' c' ≡ (c == c') = ground arith in
          rw here (view-set_rights_table small' e₁)
    ]

  -- The write changes the view at one page.
  pub view-set_rights :
      (a b a' b' c' : ℕ)
      → Inside a b
      → Inside a' b'
      → Epte.large (t.epd a b) ≡ false
      → target h t a b ≡ some k
      → view h (set_rights v k c t) a' b' c' ≡ (
          if same_page a b c a' b' c' then with_rights v (view h t a' b' c') else view h t a' b' c')
  view-set_rights a b a' b' c' inside inside' small e =
      elim (Bool-cases (Epte.large (t.epd a' b'))) [
        | inl large ↦ view-set_rights_large a b small e a' b' c' inside inside' large
        | inr small' ↦
            let (k', _, e') = valid.tables a' b' inside' small' in
            view-set_rights_small a b small e a' b' c' inside inside' k' small' e'
      ]
