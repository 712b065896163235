-- ===== src/ExtendedPaging/Convert.antt =====
-- hypervisor/src/hypervisor/hypervisor.cpp: the conversion of a large page into a table, with
-- regard to the invariant and to the view of the guest.
use zpp_hypervisor.Common.{
  ℕ, ◌+◌, ◌*◌, ◌-◌, ◌/◌, ◌%◌, ◌^◌, true, false, some, ◌≡◌, ◌≢◌, ◌==◌, ◌&&◌, refl, ◌<◌, ◌≤◌, inl,
  inr, Bool-cases, ==_iff, ==_ne, sym, ap, ◌∙◌, subst, arith, leb, ltb,
}
use zpp_hypervisor.Word.{◌<<<◌}
use zpp_hypervisor.Epte
use zpp_hypervisor.Epte.Forms
use zpp_hypervisor.ExtendedPaging.{
  Tables, Host, resolve, table_address, convert, point_to, small_entry,
}
use zpp_hypervisor.ExtendedPaging.Entries.{
  all_rights, rights, small_entry-lt, small_entry-rights, small_entry-type, small_entry-page_number,
  point_to-lt, point_to-large, point_to-page_number, fill_table_lem,
}
use zpp_hypervisor.ExtendedPaging.View.{large_leaf, small_leaf, view, view-large, view-small}
use zpp_hypervisor.ExtendedPaging.Invariant.{Inside, Located, IsValid, target}

-- To show a predicate of every entry, show it of one and of the others.
at_entry {ℓ} :
    (P : ℕ → ℕ → Type ℓ) (a b a' b' : ℕ) → P a b → ((a ≡ a' → b ≡ b' → ⊥) → P a' b') → P a' b'
at_entry P a b a' b' here there = elim (Bool-cases (a == a')) [
  | inr e ↦ there (λ p q. ground arith)
  | inl e ↦ elim (Bool-cases (b == b')) [
    | inr f ↦ there (λ p q. ground arith)
    | inl f ↦ subst (λ x. P x b') ((==_iff a a').0 e) (subst (P a) ((==_iff b b').0 f) here)
  ]
]

module _ (h : Host) (n : ℕ) (located : Located h n) (t : Tables) (valid : IsValid h t) (a b : ℕ)
    (within : Inside a b) (large : Epte.large (t.epd a b) ≡ true) (room : t.ept_index < n) where
  abbrev converted : Tables
  converted = convert h a b t

  abbrev physical : ℕ
  physical = h.virtual_to_physical (table_address h t.ept_index)

  epd_here : converted.epd a b ≡ point_to physical (t.epd a b)
  unfolding convert
  epd_here = rw ((==_iff a a).1 refl, (==_iff b b).1 refl) refl

  epd_there : (a' b' : ℕ) → (a ≡ a' → b ≡ b' → ⊥) → converted.epd a' b' ≡ t.epd a' b'
  unfolding convert
  epd_there a' b' other = ground arith

  target_here : target h converted a b ≡ some t.ept_index
  target_here =
      let number : Epte.page_number (converted.epd a b) ≡ physical / 2 ^ 12 % 2 ^ 40 =
        ap Epte.page_number epd_here
        ∙ point_to-page_number physical _ (valid.epd_fits a b within) in
      let shift : Epte.page_number (converted.epd a b) <<< 12
          ≡ physical / 2 ^ 12 % 2 ^ 40 * 2 ^ 12 =
        omega arith in
      ap (resolve h) shift ∙ located t.ept_index room

  small_here : Epte.large (converted.epd a b) ≡ false
  small_here = ap Epte.large epd_here ∙ point_to-large physical _ (valid.epd_fits a b within)

  target_there : (a' b' : ℕ) → (a ≡ a' → b ≡ b' → ⊥) → target h converted a' b' ≡ target h t a' b'
  target_there a' b' other = ap (λ e. resolve h (Epte.page_number e <<< 12)) (epd_there a' b' other)

  large_there :
      (a' b' : ℕ)
      → (a ≡ a' → b ≡ b' → ⊥)
      → Epte.large (converted.epd a' b') ≡ Epte.large (t.epd a' b')
  large_there a' b' other = ap Epte.large (epd_there a' b' other)

  abbrev first_page : ℕ
  first_page = Epte.large_page_number (t.epd a b) <<< (21 - 12)

  abbrev memory_type : ℕ
  memory_type = Epte.type (t.epd a b)

  -- The new table's entries, and the other tables.
  ept_here :
      (c : ℕ)
      → c < 512
      → converted.ept t.ept_index c ≡ small_entry memory_type (first_page + c) (t.ept t.ept_index c)
  unfolding convert
  ept_here c f =
      let filled = fill_table_lem 512 0 memory_type first_page (t.ept t.ept_index) c in
      let inside : (leb 0 c && ltb c (0 + 512)) ≡ true = ground arith in
      rw ((==_iff t.ept_index t.ept_index).1 refl) (filled ∙ rw inside refl)

  ept_beyond : (c : ℕ) → 512 ≤ c → converted.ept t.ept_index c ≡ t.ept t.ept_index c
  unfolding convert
  ept_beyond c f =
      let filled = fill_table_lem 512 0 memory_type first_page (t.ept t.ept_index) c in
      let outside : (leb 0 c && ltb c (0 + 512)) ≡ false = ground arith in
      rw ((==_iff t.ept_index t.ept_index).1 refl) (filled ∙ rw outside refl)

  ept_there : (k c : ℕ) → t.ept_index ≢ k → converted.ept k c ≡ t.ept k c
  unfolding convert
  ept_there k c other = rw (==_ne t.ept_index k other) refl

  memory_type-lt : memory_type < 8
  memory_type-lt = omega (arith, Forms.type-eq (t.epd a b))

  -- The tables of the upper entries after the conversion.
  tables_there :
      (a' b' : ℕ)
      → Inside a' b'
      → (a ≡ a' → b ≡ b' → ⊥)
      → Epte.large (converted.epd a' b') ≡ false
      → (k : ℕ) × (k < t.ept_index) × (target h converted a' b' ≡ some k)
  tables_there a' b' inside other small =
      let (k, f, e) = valid.tables a' b' inside (sym (large_there a' b' other) ∙ small) in
      (k, f, target_there a' b' other ∙ e)

  -- Another upper entry never points to the new table.
  target_apart :
      (a' b' : ℕ)
      → Inside a' b'
      → (a ≡ a' → b ≡ b' → ⊥)
      → Epte.large (converted.epd a' b') ≡ false
      → target h converted a' b' ≢ some t.ept_index
  target_apart a' b' inside other small e =
      let (k, f, e') = tables_there a' b' inside other small in
      let one : some k ≡ some t.ept_index = sym e' ∙ e in ground arith

  pub next_index : converted.ept_index ≡ t.ept_index + 1
  unfolding convert
  next_index = refl

  ept_fits : (k c : ℕ) → converted.ept k c < 2 ^ 64
  ept_fits k c = elim (Bool-cases (t.ept_index == k)) [
    | inr e ↦ subst (λ x. x < 2 ^ 64) (sym (ept_there k c (λ p. ground arith))) (valid.ept_fits k c)
    | inl e ↦
        subst (λ x. converted.ept x c < 2 ^ 64) ((==_iff t.ept_index k).0 e)
          (elim (Bool-cases (ltb c 512)) [
            | inl f ↦
                subst (λ x. x < 2 ^ 64) (sym (ept_here c (ground arith)))
                  (small_entry-lt memory_type (first_page + c) _ memory_type-lt
                    (valid.ept_fits t.ept_index c))
            | inr f ↦
                subst (λ x. x < 2 ^ 64) (sym (ept_beyond c (ground arith)))
                  (valid.ept_fits t.ept_index c)
          ])
  ]

  -- Two upper entries with one table, seen from the converted entry.
  distinct_here :
      (k a' b' : ℕ)
      → Inside a' b'
      → target h converted a b ≡ some k
      → Epte.large (converted.epd a' b') ≡ false
      → target h converted a' b' ≡ some k
      → (a ≡ a') × (b ≡ b')
  distinct_here k a' b' inside e small' e' =
      let points : target h converted a' b' ≡ some t.ept_index = e' ∙ sym e ∙ target_here in
      at_entry
        (λ x y.
          Epte.large (converted.epd x y) ≡ false
          → target h converted x y ≡ some t.ept_index
          → (a ≡ x) × (b ≡ y))
        a b a' b' (λ _ _. (refl, refl))
        (λ other small points. absurd (target_apart a' b' inside other small points)) small' points

  distinct :
      (k a₁ b₁ a₂ b₂ : ℕ)
      → Inside a₁ b₁
      → Inside a₂ b₂
      → Epte.large (converted.epd a₁ b₁) ≡ false
      → Epte.large (converted.epd a₂ b₂) ≡ false
      → target h converted a₁ b₁ ≡ some k
      → target h converted a₂ b₂ ≡ some k
      → (a₁ ≡ a₂) × (b₁ ≡ b₂)
  distinct k a₁ b₁ a₂ b₂ in₁ in₂ s₁ s₂ e₁ e₂ =
      at_entry
        (λ x y.
          Epte.large (converted.epd x y) ≡ false
          → target h converted x y ≡ some k
          → (x ≡ a₂) × (y ≡ b₂))
        a b a₁ b₁ (λ _ e. distinct_here k a₂ b₂ in₂ e s₂ e₂)
        (λ other₁ s₁ e₁.
          at_entry
            (λ x y.
              Epte.large (converted.epd x y) ≡ false
              → target h converted x y ≡ some k
              → (a₁ ≡ x) × (b₁ ≡ y))
            a b a₂ b₂ (λ _ e. let (p, q) = distinct_here k a₁ b₁ in₁ e s₁ e₁ in (sym p, sym q))
            (λ other₂ s₂ e₂.
              valid.distinct a₁ b₁ a₂ b₂ k in₁ in₂ (sym (large_there a₁ b₁ other₁) ∙ s₁)
                (sym (large_there a₂ b₂ other₂) ∙ s₂) (sym (target_there a₁ b₁ other₁) ∙ e₁)
                (sym (target_there a₂ b₂ other₂) ∙ e₂))
            s₂ e₂)
        s₁ e₁

  pub convert-IsValid : IsValid h converted
  convert-IsValid = record {
    epd_fits = λ a' b' inside.
        at_entry (λ x y. converted.epd x y < 2 ^ 64) a b a' b'
          (subst (λ e. e < 2 ^ 64) (sym epd_here)
            (point_to-lt physical _ (valid.epd_fits a b within)))
          (λ other.
            subst (λ e. e < 2 ^ 64) (sym (epd_there a' b' other)) (valid.epd_fits a' b' inside));
    ept_fits = ept_fits;
    large_open = λ a' b' inside.
        at_entry
          (λ x y.
            Epte.large (converted.epd x y) ≡ true → rights (converted.epd x y) ≡ all_rights true)
          a b a' b' (λ e. let both : true ≡ false = sym e ∙ small_here in cc)
          (λ other e.
            ap rights (epd_there a' b' other)
            ∙ valid.large_open a' b' inside (sym (large_there a' b' other) ∙ e));
    tables = λ a' b' inside.
        at_entry
          (λ x y.
            Epte.large (converted.epd x y) ≡ false
            → (k : ℕ) × (k < converted.ept_index) × (target h converted x y ≡ some k))
          a b a' b' (λ e. (t.ept_index, omega (arith, next_index), target_here))
          (λ other e.
            let (k, f, e') = tables_there a' b' inside other e in
            (k, omega (arith, next_index), e'));
    distinct = λ a₁ b₁ a₂ b₂ k. distinct k a₁ b₁ a₂ b₂;
  }

  -- The view at the pages of the converted entry, and elsewhere.
  view_here : (c : ℕ) → c < 512 → view h converted a b c ≡ view h t a b c
  view_here c f =
      let e = t.ept t.ept_index c in
      let fits : e < 2 ^ 64 = valid.ept_fits t.ept_index c in
      let frame : (first_page + c) % 2 ^ 40 ≡ Epte.large_page_number (t.epd a b) * 2 ^ 9 + c =
        omega (arith, Forms.large_page_number-eq (t.epd a b)) in
      let same : small_leaf (converted.ept t.ept_index c) ≡ large_leaf (t.epd a b) c =
        ap small_leaf (ept_here c f) ∙ (λ i. record {
          allowed =
              (small_entry-rights memory_type (first_page + c) e memory_type-lt fits
                  ∙ sym (valid.large_open a b within large))
                i;
          frame =
              (small_entry-page_number memory_type (first_page + c) e memory_type-lt fits ∙ frame)
                i;
          memory_type = small_entry-type memory_type (first_page + c) e memory_type-lt fits i;
        }) in
      view-small h converted a b c t.ept_index small_here target_here
      ∙ ap some same
      ∙ sym (view-large h t a b c large)

  view_there :
      (a' b' c : ℕ)
      → Inside a' b'
      → (a ≡ a' → b ≡ b' → ⊥)
      → view h converted a' b' c ≡ view h t a' b' c
  view_there a' b' c inside other = elim (Bool-cases (Epte.large (t.epd a' b'))) [
    | inl large' ↦
        view-large h converted a' b' c (large_there a' b' other ∙ large')
        ∙ ap (λ e. some (large_leaf e c)) (epd_there a' b' other)
        ∙ sym (view-large h t a' b' c large')
    | inr small' ↦
        let (k, f, e) = valid.tables a' b' inside small' in
        let apart : t.ept_index ≢ k = λ p. omega arith in
        view-small h converted a' b' c k (large_there a' b' other ∙ small')
          (target_there a' b' other ∙ e)
        ∙ ap (λ e. some (small_leaf e)) (ept_there k c apart)
        ∙ sym (view-small h t a' b' c k small' e)
  ]

  pub view-convert :
      (a' b' c : ℕ) → Inside a' b' → c < 512 → view h converted a' b' c ≡ view h t a' b' c
  view-convert a' b' c inside f =
      at_entry (λ x y. view h converted x y c ≡ view h t x y c) a b a' b' (view_here c f)
        (view_there a' b' c inside)

  pub convert-target : target h converted a b ≡ some t.ept_index
  convert-target = target_here

  pub convert-small : Epte.large (converted.epd a b) ≡ false
  convert-small = small_here

  pub convert-keeps :
      (a' b' : ℕ) → Epte.large (t.epd a' b') ≡ false → Epte.large (converted.epd a' b') ≡ false
  convert-keeps a' b' =
      at_entry (λ x y. Epte.large (t.epd x y) ≡ false → Epte.large (converted.epd x y) ≡ false) a b
        a' b' (λ _. small_here) (λ other e. large_there a' b' other ∙ e)
