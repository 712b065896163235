-- ===== src/ElfFile/ModuleRegion/Bytes.antt =====
-- hypervisor/include/zpp/elf_file.h: structures that are read in two places of memory.
use zpp_hypervisor.Common.{
  ℕ, zero, suc, ◌+◌, ◌*◌, ◌%◌, ◌≤◌, ◌<◌, ◌≡◌, refl, sym, ap, ap₂, ◌∙◌, arith,
}
use zpp_hypervisor.ElfFile.Structures.{read_phdr, read_bytes, phdr_size}

-- Two places in two memories with the same bytes for `n` addresses.
unfoldable pub Agree : ℕ → (ℕ → ℕ) → ℕ → (ℕ → ℕ) → ℕ → Type 0
Agree n m a m' b = (i : ℕ) → i < n → m (a + i) ≡ m' (b + i)

pub read_bytes-Agree :
    (k i n a b : ℕ) (m m' : ℕ → ℕ)
    → Agree n m a m' b
    → i + k ≤ n
    → read_bytes k (a + i) m ≡ read_bytes k (b + i) m'
unfolding read_bytes Agree
read_bytes-Agree zero i n a b m m' same f = refl
read_bytes-Agree (suc k) i n a b m m' same f =
    let up : a + i + 1 ≡ a + (i + 1) = omega arith in
    let up' : b + i + 1 ≡ b + (i + 1) = omega arith in
    ap₂ (λ x y. x % 256 + 256 * y) (same i (omega arith))
      (ap (λ x. read_bytes k x m) up
        ∙ read_bytes-Agree k (i + 1) n a b m m' same (omega arith)
        ∙ ap (λ x. read_bytes k x m') (sym up'))

pub read_phdr-Agree :
    (i n a b : ℕ) (m m' : ℕ → ℕ)
    → Agree n m a m' b
    → i + phdr_size ≤ n
    → read_phdr (a + i) m ≡ read_phdr (b + i) m'
unfolding read_phdr
read_phdr-Agree i n a b m m' same f =
    let field : (k o : ℕ) → o + k ≤ 56 → read_bytes k (a + i + o) m ≡ read_bytes k (b + i + o) m' =
      λ k o g.
        let at : a + i + o ≡ a + (i + o) = omega arith in
        let at' : b + i + o ≡ b + (i + o) = omega arith in
        ap (λ x. read_bytes k x m) at
        ∙ read_bytes-Agree k (i + o) n a b m m' same (omega arith)
        ∙ ap (λ x. read_bytes k x m') (sym at') in
    rw
      (
        read_bytes-Agree 4 i n a b m m' same (omega arith),
        field 4 4 (omega arith),
        field 8 8 (omega arith),
        field 8 16 (omega arith),
        field 8 24 (omega arith),
        field 8 32 (omega arith),
        field 8 40 (omega arith),
        field 8 48 (omega arith),
      )
      refl
