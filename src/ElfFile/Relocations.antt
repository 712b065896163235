-- ===== src/ElfFile/Relocations.antt =====
-- hypervisor/include/zpp/elf_file.h: the memory behind the loop of `relocate` over a rela table.
use native.Mathlib.Nat.{pow-suc}
use mathlib.Core.Bool.{true≢false}
use zpp_hypervisor.Common.{
  ℕ, zero, suc, ◌+◌, ◌*◌, ◌/◌, ◌%◌, ◌^◌, ◌≤◌, ◌<◌, ◌≡◌, ◌⊎◌, inl, inr, true, false, ◌==◌, not,
  if◌then◌else◌, refl, sym, ap, ap₂, ◌∙◌, subst, arith, update, Bool-cases, ==_iff,
}
use zpp_hypervisor.Word.{u64}
use zpp_hypervisor.Crt.Move.{within}
use zpp_hypervisor.ElfFile.Structures.{ElfRela, read_rela, read_bytes, write_bytes, rela_size}
use zpp_hypervisor.ElfFile.{parse_relocation_type, relocate_rela, relocate, of_rela}

write_bytes-keeps :
    (n a v : ℕ) (memory : ℕ → ℕ) (b : ℕ)
    → within a n b ≡ false
    → write_bytes n a v memory b ≡ memory b
unfolding write_bytes within
write_bytes-keeps zero a v memory b e = refl
write_bytes-keeps (suc n) a v memory b e =
    write_bytes-keeps n (a + 1) (v / 256) (update memory a (v % 256)) b (ground arith)
    ∙ ground arith

pub read_bytes-cong :
    (n a : ℕ) (memory memory' : ℕ → ℕ)
    → ((b : ℕ) → within a n b ≡ true → memory b ≡ memory' b)
    → read_bytes n a memory ≡ read_bytes n a memory'
unfolding read_bytes within
read_bytes-cong zero a memory memory' same = refl
read_bytes-cong (suc n) a memory memory' same =
    ap₂ (λ x y. x % 256 + 256 * y) (same a (ground arith))
      (read_bytes-cong n (a + 1) memory memory' (λ b e. same b (ground arith)))

-- An integer that fits is read back as it was written.
pub read_bytes-write_bytes :
    (n a v : ℕ) (memory : ℕ → ℕ) → v < 256 ^ n → read_bytes n a (write_bytes n a v memory) ≡ v
unfolding read_bytes write_bytes within
read_bytes-write_bytes zero a v memory fits = omega (arith, fits)
read_bytes-write_bytes (suc n) a v memory fits =
    let first : write_bytes n (a + 1) (v / 256) (update memory a (v % 256)) a ≡ v % 256 =
      write_bytes-keeps n (a + 1) (v / 256) (update memory a (v % 256)) a (ground arith)
      ∙ ground arith in
    let rest =
      read_bytes-write_bytes n (a + 1) (v / 256) (update memory a (v % 256))
        (omega (arith, fits, pow-suc 256 n)) in
    ap₂ (λ x y. x % 256 + 256 * y) first rest ∙ omega arith

words_apart : (s t b : ℕ) → (s + 8 ≤ t) ⊎ (t + 8 ≤ s) → within s 8 b ≡ true → within t 8 b ≡ false
unfolding within
words_apart s t b order e = ground arith

module _ (table type base_difference count : ℕ) (start : ℕ → ℕ) where
  abbrev pub entry : ℕ → ElfRela
  entry i = read_rela (table + rela_size * i) start

  abbrev pub IsRelative : ℕ → Type 0
  IsRelative i = (parse_relocation_type (entry i).r_info == type) ≡ true

  abbrev pub target : ℕ → ℕ
  target i = u64 (base_difference + (entry i).r_offset)

  -- No relocated word is in the table, and no two overlap.
  pub record Separate : Type 0 where
    pub outside :
        (i : ℕ)
        → i < count
        → IsRelative i
        → (target i + 8 ≤ table) ⊎ (table + rela_size * count ≤ target i)
    pub words :
        (i j : ℕ)
        → i < j
        → j < count
        → IsRelative i
        → IsRelative j
        → (target i + 8 ≤ target j) ⊎ (target j + 8 ≤ target i)

  record Relocated (i : ℕ) (memory : ℕ → ℕ) : Type 0 where
    words :
        (j : ℕ)
        → j < i
        → IsRelative j
        → read_bytes 8 (target j) memory ≡ u64 (base_difference + (entry j).r_addend)
    kept :
        (a : ℕ)
        → ((j : ℕ) → j < i → IsRelative j → within (target j) 8 a ≡ false)
        → memory a ≡ start a

  in_table :
      (i j k b : ℕ)
      → i < count
      → k ≤ 16
      → within (table + rela_size * i + k) 8 b ≡ true
      → (target j + 8 ≤ table) ⊎ (table + rela_size * count ≤ target j)
      → within (target j) 8 b ≡ false
  unfolding within
  in_table i j k b below f e order = ground arith

  entry-Relocated :
      (i : ℕ) (memory : ℕ → ℕ)
      → Separate
      → i < count
      → Relocated i memory
      → read_rela (table + rela_size * i) memory ≡ entry i
  unfolding read_rela within
  entry-Relocated i memory separate below r =
      let field : (k : ℕ)
          → k ≤ 16
          → read_bytes 8 (table + rela_size * i + k) memory
            ≡ read_bytes 8 (table + rela_size * i + k) start =
        λ k f. read_bytes-cong 8 (table + rela_size * i + k) memory start (λ b e.
          r.kept b
            (λ j g rel. in_table i j k b below f e (separate.outside j (omega arith) rel))) in
      let first : table + rela_size * i + 0 ≡ table + rela_size * i = omega arith in
      let offset : read_bytes 8 (table + rela_size * i) memory
          ≡ read_bytes 8 (table + rela_size * i) start =
        subst (λ x. read_bytes 8 x memory ≡ read_bytes 8 x start) first (field 0 (omega arith)) in
      rw (offset, field 8 (omega arith), field 16 (omega arith)) refl

  relocated_round : ℕ → (ℕ → ℕ) → ℕ → ℕ
  relocated_round i memory =
      if not (parse_relocation_type (entry i).r_info == type)
      then memory
      else write_bytes 8 (target i) (u64 (base_difference + (entry i).r_addend)) memory

  round-Relocated :
      (i : ℕ) (memory : ℕ → ℕ)
      → Separate
      → i < count
      → Relocated i memory
      → Relocated (i + 1) (relocated_round i memory)
  unfolding relocated_round within
  round-Relocated i memory separate below r =
      elim (Bool-cases (parse_relocation_type (entry i).r_info == type)) [
        | inl relative ↦ rw (relative) (written relative)
        | inr other ↦ rw (other) record {
          words = λ j f rel. elim (Bool-cases (i == j)) [
            | inl last ↦ absurd (true≢false (clash j other rel ((==_iff i j).0 last)))
            | inr before ↦ r.words j (ground arith) rel
          ];
          kept = λ a outside. r.kept a (λ j f rel. outside j (omega arith) rel);
        }
      ]
    where
      clash :
          (j : ℕ)
          → (parse_relocation_type (entry i).r_info == type) ≡ false
          → IsRelative j
          → i ≡ j
          → true ≡ false
      clash j other rel same =
          sym rel ∙ sym (ap (λ x. parse_relocation_type (entry x).r_info == type) same) ∙ other

      written :
          IsRelative i
          → Relocated
              (i + 1)
              (write_bytes 8 (target i) (u64 (base_difference + (entry i).r_addend)) memory)
      written relative = record {
        words = λ j f rel. elim (Bool-cases (i == j)) [
          | inl last ↦
              subst
                (λ x.
                  read_bytes 8 (target x)
                    (write_bytes 8 (target i) (u64 (base_difference + (entry i).r_addend)) memory)
                  ≡ u64 (base_difference + (entry x).r_addend))
                ((==_iff i j).0 last)
                (read_bytes-write_bytes 8 (target i) (u64 (base_difference + (entry i).r_addend))
                  memory (omega arith))
          | inr before ↦
              read_bytes-cong 8 (target j)
                (write_bytes 8 (target i) (u64 (base_difference + (entry i).r_addend)) memory)
                memory
                (λ b e.
                  write_bytes-keeps 8 (target i) (u64 (base_difference + (entry i).r_addend)) memory
                    b
                    (words_apart (target j) (target i) b
                      (separate.words j i (ground arith) below rel relative) e))
              ∙ r.words j (ground arith) rel
        ];
        kept = λ a outside.
            write_bytes-keeps 8 (target i) (u64 (base_difference + (entry i).r_addend)) memory a
              (outside i (omega arith) relative)
            ∙ r.kept a (λ j f rel. outside j (omega arith) rel);
      }

  relocate_rela-Relocated :
      (left i : ℕ) (memory : ℕ → ℕ)
      → Separate
      → i + left ≡ count
      → Relocated i memory
      → Relocated count (relocate_rela left i table type base_difference memory)
  unfolding relocate_rela relocated_round
  relocate_rela-Relocated zero i memory separate e r =
      subst (λ x. Relocated x memory) (omega arith) r
  relocate_rela-Relocated (suc left) i memory separate e r =
      subst
        (λ x. Relocated count (
          relocate_rela left (i + 1) table type base_difference (
            if not (parse_relocation_type x.r_info == type)
            then memory
            else write_bytes 8 (u64 (base_difference + x.r_offset))
                (u64 (base_difference + x.r_addend)) memory)))
        (sym (entry-Relocated i memory separate (omega arith) r))
        (relocate_rela-Relocated left (i + 1) (relocated_round i memory) separate (omega arith)
          (round-Relocated i memory separate (omega arith) r))

-- For a rela table whose relative entries target words outside the table that do not overlap,
-- relocate leaves in each such word the base difference plus the entry's addend, and every other
-- byte as it was.
pub relocate_lem :
    (table count type base_difference : ℕ) (memory : ℕ → ℕ)
    → Separate table type base_difference count memory
    → (let result = relocate (of_rela table) count type base_difference memory in
        ((j : ℕ)
          → j < count
          → IsRelative table type base_difference count memory j
          → read_bytes 8 (target table type base_difference count memory j) result
            ≡ u64 (base_difference + (entry table type base_difference count memory j).r_addend))
        × ((a : ℕ)
            → ((j : ℕ)
                → j < count
                → IsRelative table type base_difference count memory j
                → within (target table type base_difference count memory j) 8 a ≡ false)
            → result a ≡ memory a))
unfolding relocate
relocate_lem table count type base_difference memory separate =
    let r =
      relocate_rela-Relocated table type base_difference count memory count 0 memory separate
        (omega arith)
        (record { words = λ j f rel. absurd (omega arith); kept = λ a outside. refl }) in
    (r.words, r.kept)
