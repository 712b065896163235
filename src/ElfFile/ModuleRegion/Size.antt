-- ===== src/ElfFile/ModuleRegion/Size.antt =====
-- hypervisor/src/hypervisor/hypervisor.cpp, `initialize_module_region`: the size that the loaded
-- image states, and the one that the loader computes from the file.
use zpp_hypervisor.Common.{
  ℕ, zero, suc, ◌+◌, ◌*◌, ◌/◌, ◌^◌, ◌≤◌, ◌<◌, ◌≡◌, inl, inr, ◌==◌, refl, sym, ap, ap₂, ◌∙◌, subst,
  arith, Bool-cases, Option, none, some,
}
use zpp_hypervisor.Word.{u64, sub64, ◌&&&◌, ~◌}
use zpp_hypervisor.ElfFile.Structures.{ElfPhdr, read_phdr, read_header, phdr_size}
use zpp_hypervisor.ElfFile.{unloaded, loaded, elf_file, find_phdr, find_last_phdr, type_load}
use zpp_hypervisor.ElfFile.Segments.{IsLoad, phdr}
use zpp_hypervisor.ElfFile.Bounds.{other_header}
use zpp_hypervisor.ElfFile.ModuleRegion.{page_size, ModuleRegion, initialize_module_region}
use zpp_hypervisor.ElfFile.ModuleRegion.Search.{Matches, elf_image_base_lem}
use zpp_hypervisor.ElfFile.ModuleRegion.Bytes.{Agree, read_bytes-Agree, read_phdr-Agree}

-- Two arrays of program headers.
module _ (first first' count : ℕ) (m m' : ℕ → ℕ) where
  abbrev at : ℕ → ElfPhdr
  at i = read_phdr (first + phdr_size * i) m

  abbrev SamePhdrs : Type 0
  SamePhdrs = (i : ℕ) → i < count → at i ≡ read_phdr (first' + phdr_size * i) m'

  -- Two addresses are those of the same header, which is one of the array.
  record SameIndex (a a' : ℕ) : Type 0 where
    index : ℕ
    below : index < count
    here : a ≡ first + phdr_size * index
    there : a' ≡ first' + phdr_size * index

  find_phdr-SameIndex :
      (left i k : ℕ)
      → SamePhdrs
      → i + left ≤ count
      → i ≤ k
      → k < i + left
      → IsLoad (at k)
      → SameIndex
          (find_phdr left type_load (first + phdr_size * i) m)
          (find_phdr left type_load (first' + phdr_size * i) m')
  unfolding find_phdr
  find_phdr-SameIndex zero i k same room low high load = absurd (omega arith)
  find_phdr-SameIndex (suc left) i k same room low high load =
      let loads : (read_phdr (first' + phdr_size * i) m').p_type == type_load
          ≡ ((at i).p_type == type_load) =
        sym (ap (λ (p : ElfPhdr). p.p_type == type_load) (same i (omega arith))) in
      elim (Bool-cases ((at i).p_type == type_load)) [
        | inl found ↦
            rw (found, loads ∙ found)
              record { index = i; below = omega arith; here = refl; there = refl }
        | inr other ↦
            rw (other, loads ∙ other)
              (let apart = other_header first m i k other load in
                let next : first + phdr_size * (i + 1) ≡ first + phdr_size * i + phdr_size =
                  omega arith in
                let next' : first' + phdr_size * (i + 1) ≡ first' + phdr_size * i + phdr_size =
                  omega arith in
                subst
                  (λ x.
                    SameIndex (find_phdr left type_load x m)
                      (find_phdr left type_load (first' + phdr_size * i + phdr_size) m'))
                  next
                  (subst
                    (λ x.
                      SameIndex (find_phdr left type_load (first + phdr_size * (i + 1)) m)
                        (find_phdr left type_load x m'))
                    next'
                    (find_phdr-SameIndex left (i + 1) k same (omega arith) (ground arith)
                      (omega arith) load)))
      ]

  find_last_phdr-SameIndex :
      (n k : ℕ)
      → SamePhdrs
      → n ≤ count
      → k < n
      → IsLoad (at k)
      → SameIndex (find_last_phdr n type_load first m) (find_last_phdr n type_load first' m')
  unfolding find_last_phdr
  find_last_phdr-SameIndex zero k same room high load = absurd (omega arith)
  find_last_phdr-SameIndex (suc n) k same room high load =
      let loads : (read_phdr (first' + phdr_size * n) m').p_type == type_load
          ≡ ((at n).p_type == type_load) =
        sym (ap (λ (p : ElfPhdr). p.p_type == type_load) (same n (omega arith))) in
      elim (Bool-cases ((at n).p_type == type_load)) [
        | inl found ↦
            rw (found, loads ∙ found)
              record { index = n; below = omega arith; here = refl; there = refl }
        | inr other ↦
            rw (other, loads ∙ other)
              (find_last_phdr-SameIndex n k same (omega arith)
                (ground (arith, other_header first m n k other load)) load)
      ]

  -- Headers at such addresses are the same.
  SameIndex-read_phdr : (a a' : ℕ) → SamePhdrs → SameIndex a a' → read_phdr a m ≡ read_phdr a' m'
  SameIndex-read_phdr a a' same s =
      ap (λ x. read_phdr x m) s.here ∙ same s.index s.below ∙ ap (λ x. read_phdr x m') (sym s.there)

-- The size by the first and the last loadable header.
size_by : ElfPhdr → ElfPhdr → ℕ
size_by last first =
    sub64 (u64 (last.p_vaddr + last.p_memsz + 0xfff) &&& ~ 0xfff) (first.p_vaddr &&& ~ 0xfff)

size_of : ℕ → ℕ → (ℕ → ℕ) → ℕ
size_of count first m =
    size_by (read_phdr (find_last_phdr count type_load first m) m)
      (read_phdr (find_phdr count type_load first m) m)

size_of-same :
    (count p q k : ℕ) (m m' : ℕ → ℕ)
    → SamePhdrs p q count m m'
    → k < count
    → IsLoad (at p q count m m' k)
    → size_of count p m ≡ size_of count q m'
unfolding size_of
size_of-same count p q k m m' same below load =
    let at_zero : (x : ℕ) → x + phdr_size * 0 ≡ x = λ x. omega arith in
    let first =
      find_phdr-SameIndex p q count m m' count 0 k same (omega arith) (omega arith) (omega arith)
        load in
    let last = find_last_phdr-SameIndex p q count m m' count k same (omega arith) below load in
    let first_same : read_phdr (find_phdr count type_load p m) m
        ≡ read_phdr (find_phdr count type_load q m') m' =
      ap (λ x. read_phdr (find_phdr count type_load x m) m) (sym (at_zero p))
      ∙ SameIndex-read_phdr p q count m m' (find_phdr count type_load (p + phdr_size * 0) m)
          (find_phdr count type_load (q + phdr_size * 0) m') same first
      ∙ ap (λ x. read_phdr (find_phdr count type_load x m') m') (at_zero q) in
    ap₂ size_by
      (SameIndex-read_phdr p q count m m' (find_last_phdr count type_load p m)
        (find_last_phdr count type_load q m') same last)
      first_same

pub memory_size-loaded :
    (file memory : ℕ → ℕ) (file_data base n k : ℕ)
    → Agree n file file_data memory base
    → 64 ≤ n
    → (read_header file_data file).e_phoff + phdr_size * (read_header file_data file).e_phnum ≤ n
    → file_data + n < 2 ^ 64
    → base + n < 2 ^ 64
    → k < (read_header file_data file).e_phnum
    → IsLoad (phdr (elf_file file file_data unloaded) file k)
    → (elf_file memory base loaded).memory_size ≡ (elf_file file file_data unloaded).memory_size
unfolding elf_file read_header size_of size_by
memory_size-loaded file memory file_data base n k same enough table room room' below load =
    let offset = (read_header file_data file).e_phoff in
    let count = (read_header file_data file).e_phnum in
    let p = u64 (file_data + offset) in
    let q = u64 (base + offset) in
    let number : (read_header base memory).e_phnum ≡ count =
      sym (read_bytes-Agree 2 56 n file_data base file memory same (omega arith)) in
    let offsets : (read_header base memory).e_phoff ≡ offset =
      sym (read_bytes-Agree 8 32 n file_data base file memory same (omega arith)) in
    let headers : SamePhdrs p q count file memory = λ i f.
      let here : p + phdr_size * i ≡ file_data + (offset + phdr_size * i) =
        omega (arith, table, room) in
      let there : q + phdr_size * i ≡ base + (offset + phdr_size * i) =
        omega (arith, table, room') in
      ap (λ x. read_phdr x file) here
      ∙ read_phdr-Agree (offset + phdr_size * i) n file_data base file memory same
          (omega (arith, table, f))
      ∙ ap (λ x. read_phdr x memory) (sym there) in
    ap (λ c. size_of c (u64 (base + (read_header base memory).e_phoff)) memory) number
    ∙ ap (λ o. size_of count (u64 (base + o)) memory) offsets
    ∙ sym (size_of-same count p q k file memory headers below load)

-- If the memory at the image's base agrees with the file up to the end of its program headers, of
-- which one is loadable, and the base is the first page at or below the code's copy of the magic
-- that starts with the magic, some pages below it, then initialize_module_region ends within one
-- more round than those pages, with that base and the size that the loader computes from the file.
pub initialize_module_region_lem :
    (file memory : ℕ → ℕ) (file_data base n k pages fuel g_elf_magic : ℕ)
    → Agree n file file_data memory base
    → 64 ≤ n
    → (read_header file_data file).e_phoff + phdr_size * (read_header file_data file).e_phnum ≤ n
    → file_data + n < 2 ^ 64
    → base + n < 2 ^ 64
    → k < (read_header file_data file).e_phnum
    → IsLoad (phdr (elf_file file file_data unloaded) file k)
    → g_elf_magic / 2 ^ 12 * 2 ^ 12 ≡ base + page_size * pages
    → g_elf_magic < 2 ^ 64
    → ((i : ℕ) → 0 < i → i ≤ pages → ¬ Matches memory (base + page_size * i) (g_elf_magic + 1))
    → Matches memory base (g_elf_magic + 1)
    → pages < fuel
    → initialize_module_region fuel g_elf_magic memory
      ≡ some (record {
        module_base = base;
        module_size = (elf_file file file_data unloaded).memory_size;
      })
unfolding initialize_module_region
initialize_module_region_lem file memory file_data base n k pages fuel g_elf_magic same enough table
      room room' below load place magic_room before found rounds =
    ap
      (λ (o : Option ℕ). elim o as (λ x. Option ModuleRegion) [
        | none ↦ none
        | some b ↦
            some (record { module_base = b; module_size = (elf_file memory b loaded).memory_size })
      ])
      (elf_image_base_lem pages fuel base g_elf_magic memory place magic_room before found rounds)
    ∙ ap (λ x. some (record { module_base = base; module_size = x }))
        (memory_size-loaded file memory file_data base n k same enough table room room' below load)
