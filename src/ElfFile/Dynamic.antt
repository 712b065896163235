-- ===== src/ElfFile/Dynamic.antt =====
-- hypervisor/include/zpp/elf_file.h: the search of the dynamic table in `get_relocations`.
use zpp_hypervisor.Common.{
  ℕ, zero, suc, ◌+◌, ◌*◌, ◌<◌, ◌≡◌, true, false, ◌==◌, if◌then◌else◌, refl, sym, ap, ◌∙◌, subst,
  arith, Bool-cases, inl, inr, ==_iff, Option, some, none,
}
use zpp_hypervisor.Word.{u64, truthy}
use zpp_hypervisor.ElfFile.Structures.{ElfDyn, read_dyn, dyn_size}
use zpp_hypervisor.ElfFile.{
  ElfFile, Tables, no_tables, tag, parse_dynamic, parse_from, get_relocations, choose_relocations,
  RelocationTable, of_rela, of_rel, tag_null, tag_rel, tag_rel_size, tag_rela, tag_rela_size,
}

module _ (table : ℕ) (file : ℕ → ℕ) where
  abbrev pub entry : ℕ → ElfDyn
  entry i = read_dyn (table + dyn_size * i) file

  -- The value of the last entry below `n` with a tag, or 0; an address where the value is one.
  unfoldable pub latest : ℕ → ℕ → ℕ
  latest t zero = 0
  latest t (suc n) = if tag (entry n) == t then (entry n).d_val else latest t n

module _ (table : ℕ) (file : ℕ → ℕ) (base_difference : ℕ) where
  unfoldable pub latest_address : ℕ → ℕ → ℕ
  latest_address t zero = 0
  latest_address t (suc n) =
      if tag (entry table file n) == t
      then u64 (base_difference + (entry table file n).d_val)
      else latest_address t n

  tables : ℕ → Tables
  tables n = record {
    rel = latest_address tag_rel n;
    rel_size = latest table file tag_rel_size n;
    rela = latest_address tag_rela n;
    rela_size = latest table file tag_rela_size n;
  }

  parse_dynamic-tables :
      (n : ℕ) → parse_dynamic base_difference (entry table file n) (tables n) ≡ tables (suc n)
  unfolding parse_dynamic tables latest latest_address
  parse_dynamic-tables n = elim (Bool-cases (tag (entry table file n) == tag_rel)) [
    | inl e ↦ rw ((==_iff (tag (entry table file n)) tag_rel).0 e) refl
    | inr e₁ ↦ elim (Bool-cases (tag (entry table file n) == tag_rel_size)) [
      | inl e ↦ rw ((==_iff (tag (entry table file n)) tag_rel_size).0 e) refl
      | inr e₂ ↦ elim (Bool-cases (tag (entry table file n) == tag_rela)) [
        | inl e ↦ rw ((==_iff (tag (entry table file n)) tag_rela).0 e) refl
        | inr e₃ ↦ elim (Bool-cases (tag (entry table file n) == tag_rela_size)) [
          | inl e ↦ rw ((==_iff (tag (entry table file n)) tag_rela_size).0 e) refl
          | inr e₄ ↦ rw (e₁, e₂, e₃, e₄) refl
        ]
      ]
    ]
  ]

  parse_from-tables :
      (left fuel n : ℕ)
      → ((i : ℕ) → i < n + left → (tag (entry table file i) == tag_null) ≡ false)
      → (tag (entry table file (n + left)) == tag_null) ≡ true
      → left < fuel
      → parse_from fuel (table + dyn_size * n) base_difference file (tables n)
        ≡ some (tables (n + left))
  unfolding parse_from
  parse_from-tables left zero n before end enough = absurd (omega arith)
  parse_from-tables zero (suc fuel) n before end enough =
      let same : n + 0 ≡ n = omega arith in
      rw (subst (λ x. (tag (entry table file x) == tag_null) ≡ true) same end)
        (ap (λ x. some (tables x)) (sym same))
  parse_from-tables (suc left) (suc fuel) n before end enough =
      let next : n + suc left ≡ suc n + left = omega arith in
      let address : table + dyn_size * n + dyn_size ≡ table + dyn_size * suc n = omega arith in
      rw (before n (omega arith)) (
        ap (λ t. parse_from fuel (table + dyn_size * n + dyn_size) base_difference file t)
          (parse_dynamic-tables n)
        ∙ ap (λ x. parse_from fuel x base_difference file (tables (suc n))) address
        ∙ parse_from-tables left fuel (suc n) (λ i f. before i (omega arith))
            (subst (λ x. (tag (entry table file x) == tag_null) ≡ true) next end) (omega arith)
        ∙ ap (λ x. some (tables x)) (sym next))

-- If the first null tag of the dynamic table is entry n, the search ends within n + 1 rounds with
-- the rela table and size of the last such entries before it, or with those of rel if there is no
-- rela table.
pub get_relocations_lem :
    (elf : ElfFile) (base_difference n fuel : ℕ) (file : ℕ → ℕ)
    → ((i : ℕ) → i < n → (tag (entry elf.dynamic file i) == tag_null) ≡ false)
    → (tag (entry elf.dynamic file n) == tag_null) ≡ true
    → n < fuel
    → get_relocations fuel elf base_difference file
      ≡ some (
          if truthy (latest_address elf.dynamic file base_difference tag_rela n)
          then (
            of_rela (latest_address elf.dynamic file base_difference tag_rela n),
            latest elf.dynamic file tag_rela_size n,
          )
          else (
            of_rel (latest_address elf.dynamic file base_difference tag_rel n),
            latest elf.dynamic file tag_rel_size n,
          ))
unfolding get_relocations choose_relocations latest latest_address tables
get_relocations_lem elf base_difference n fuel file before end enough =
    let at_start : elf.dynamic ≡ elf.dynamic + dyn_size * 0 = omega arith in
    let from_zero : 0 + n ≡ n = omega arith in
    let searched : parse_from fuel elf.dynamic base_difference file no_tables
        ≡ some (tables elf.dynamic file base_difference (0 + n)) =
      ap (λ x. parse_from fuel x base_difference file no_tables) at_start
      ∙ parse_from-tables elf.dynamic file base_difference n fuel 0 (λ i f. before i (omega arith))
          (subst (λ x. (tag (entry elf.dynamic file x) == tag_null) ≡ true) (sym from_zero) end)
          enough in
    ap
      (λ (o : Option Tables). elim o as (λ x. Option (RelocationTable × ℕ)) [
        | none ↦ none
        | some t ↦ some (choose_relocations t)
      ])
      (searched ∙ ap (λ x. some (tables elf.dynamic file base_difference x)) from_zero)
