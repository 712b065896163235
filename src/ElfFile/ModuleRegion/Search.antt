-- ===== src/ElfFile/ModuleRegion/Search.antt =====
-- hypervisor/include/zpp/elf_image_base.h: the loop that looks for the magic, page by page.
use zpp_hypervisor.Common.{
  ℕ, zero, suc, ◌+◌, ◌-◌, ◌*◌, ◌/◌, ◌^◌, ◌≤◌, ◌<◌, ◌≡◌, ◌≢◌, inl, inr, true, false, leb, refl, ap,
  ◌∙◌, arith, some, ==_ne, Bool-cases,
}
use zpp_hypervisor.Word.{sub64}
use zpp_hypervisor.Word.Fields.{bit_and_page}
use zpp_hypervisor.Crt.{memcmp, difference}
use zpp_hypervisor.Crt.Search.{memcmp_lem}
use zpp_hypervisor.ElfFile.ModuleRegion.{page_size, differs, search_from, elf_image_base}

-- The four bytes at an address are those at `magic`.
unfoldable pub Matches : (ℕ → ℕ) → ℕ → ℕ → Type 0
Matches memory a magic = (j : ℕ) → j < 4 → memory (a + j) ≡ memory (magic + j)

differs-difference : (b a : ℕ) → b ≢ a → differs (difference b a) ≡ true
unfolding difference
differs-difference b a ne = elim (Bool-cases (leb a b)) [
  | inl above ↦ rw (above, ==_ne (b - a) 0 (λ e. ground (arith, e, ne))) refl
  | inr below ↦ rw (below) refl
]

memcmp-Matches :
    (a magic : ℕ) (memory : ℕ → ℕ)
    → Matches memory a magic
    → differs (memcmp a magic 4 memory) ≡ false
unfolding Matches
memcmp-Matches a magic memory same = elim (memcmp_lem a magic 4 memory) [
  | inl (all, e) ↦ ap differs e
  | inr (j, below, before, apart, e) ↦ absurd (apart (same j below))
]

memcmp-differs :
    (a magic : ℕ) (memory : ℕ → ℕ)
    → ¬ Matches memory a magic
    → differs (memcmp a magic 4 memory) ≡ true
unfolding Matches
memcmp-differs a magic memory other = elim (memcmp_lem a magic 4 memory) [
  | inl (all, e) ↦ absurd (other all)
  | inr (j, below, before, apart, e) ↦
      ap differs e ∙ differs-difference (memory (a + j)) (memory (magic + j)) apart
]

search_from_lem :
    (n fuel base magic : ℕ) (memory : ℕ → ℕ)
    → ((i : ℕ) → 0 < i → i ≤ n → ¬ Matches memory (base + page_size * i) magic)
    → Matches memory base magic
    → base + page_size * n < 2 ^ 64
    → n < fuel
    → search_from fuel magic (base + page_size * n) memory ≡ some base
unfolding search_from
search_from_lem n zero base magic memory before found room enough = absurd (omega arith)
search_from_lem zero (suc fuel) base magic memory before found room enough =
    let here : base + page_size * 0 ≡ base = omega arith in
    rw (here, memcmp-Matches base magic memory found) refl
search_from_lem (suc n) (suc fuel) base magic memory before found room enough =
    let down : sub64 (base + page_size * suc n) page_size ≡ base + page_size * n =
      omega (arith, room) in
    rw
      (
        memcmp-differs (base + page_size * suc n) magic memory
            (before (suc n) (omega arith) (omega arith)),
        down,
      )
      (search_from_lem n fuel base magic memory (λ i f g. before i f (omega arith)) found
        (omega (arith, room)) (omega arith))

pub elf_image_base_lem :
    (n fuel base g_elf_magic : ℕ) (memory : ℕ → ℕ)
    → g_elf_magic / 2 ^ 12 * 2 ^ 12 ≡ base + page_size * n
    → g_elf_magic < 2 ^ 64
    → ((i : ℕ) → 0 < i → i ≤ n → ¬ Matches memory (base + page_size * i) (g_elf_magic + 1))
    → Matches memory base (g_elf_magic + 1)
    → n < fuel
    → elf_image_base fuel g_elf_magic memory ≡ some base
unfolding elf_image_base
elf_image_base_lem n fuel base g_elf_magic memory place room before found enough =
    ap (λ x. search_from fuel (g_elf_magic + 1) x memory) (bit_and_page g_elf_magic room ∙ place)
    ∙ search_from_lem n fuel base (g_elf_magic + 1) memory before found (omega (arith, place, room))
        enough
