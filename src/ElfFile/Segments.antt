-- ===== src/ElfFile/Segments.antt =====
-- hypervisor/include/zpp/elf_file.h: the memory behind `map_segments`.
use zpp_hypervisor.Common.{
  ℕ, zero, suc, ◌+◌, ◌*◌, ◌≤◌, ◌<◌, ◌≡◌, Bool, true, false, ◌==◌, not, if◌then◌else◌, refl, sym, ap,
  ◌∙◌, subst, arith, Bool-cases, inl, inr, ==_iff,
}
use zpp_hypervisor.Crt.Move.{within}
use zpp_hypervisor.ElfFile.Structures.{ElfPhdr, read_phdr, read_header, phdr_size}
use zpp_hypervisor.ElfFile.{ElfFile, map_segment, map_from, map_segments, type_load}
use zpp_hypervisor.ElfFile.Segment.{start, Fits, loaded_byte, map_segment_lem}

-- Program header `i`.
abbrev pub phdr : ElfFile → (ℕ → ℕ) → ℕ → ElfPhdr
phdr elf file i = read_phdr (elf.program_headers + phdr_size * i) file

abbrev pub IsLoad : ElfPhdr → Type 0
IsLoad p = (p.p_type == type_load) ≡ true

abbrev pub covers : ℕ → ElfPhdr → ℕ → Bool
covers base_difference p a = within (start base_difference p) p.p_memsz a

module _ (elf : ElfFile) (base_difference : ℕ) (file : ℕ → ℕ) where
  map_header : ℕ → (ℕ → ℕ) → ℕ → ℕ
  map_header i memory =
      if not ((phdr elf file i).p_type == type_load)
      then memory
      else map_segment elf.file_data base_difference (phdr elf file i) file memory

  map_header-keeps :
      (i : ℕ) (memory : ℕ → ℕ) (a : ℕ)
      → (IsLoad (phdr elf file i) → Fits elf.file_data base_difference (phdr elf file i))
      → (IsLoad (phdr elf file i) → covers base_difference (phdr elf file i) a ≡ false)
      → map_header i memory a ≡ memory a
  unfolding map_header
  map_header-keeps i memory a fits outside =
      elim (Bool-cases ((phdr elf file i).p_type == type_load)) [
        | inl load ↦ rw (load) (
            map_segment_lem elf.file_data base_difference (phdr elf file i) file memory a
              (fits load)
            ∙ rw (outside load) refl)
        | inr other ↦ rw (other) refl
      ]

  map_header-loads :
      (i : ℕ) (memory : ℕ → ℕ) (a : ℕ)
      → (IsLoad (phdr elf file i) → Fits elf.file_data base_difference (phdr elf file i))
      → IsLoad (phdr elf file i)
      → covers base_difference (phdr elf file i) a ≡ true
      → map_header i memory a ≡ loaded_byte elf.file_data base_difference (phdr elf file i) file a
  unfolding map_header
  map_header-loads i memory a fits load inside = rw (load) (
      map_segment_lem elf.file_data base_difference (phdr elf file i) file memory a (fits load)
      ∙ rw (inside) refl)

  map_from-keeps :
      (left i : ℕ) (memory : ℕ → ℕ) (a : ℕ)
      → ((j : ℕ)
          → i ≤ j
          → j < i + left
          → IsLoad (phdr elf file j)
          → Fits elf.file_data base_difference (phdr elf file j))
      → ((j : ℕ)
          → i ≤ j
          → j < i + left
          → IsLoad (phdr elf file j)
          → covers base_difference (phdr elf file j) a ≡ false)
      → map_from left i elf base_difference file memory a ≡ memory a
  unfolding map_from map_header
  map_from-keeps zero i memory a fits outside = refl
  map_from-keeps (suc left) i memory a fits outside =
      map_from-keeps left (i + 1) (map_header i memory) a
        (λ j f g. fits j (omega arith) (omega arith))
        (λ j f g. outside j (omega arith) (omega arith))
      ∙ map_header-keeps i memory a (fits i (omega arith) (omega arith))
          (outside i (omega arith) (omega arith))

  map_from-loads :
      (left i k : ℕ) (memory : ℕ → ℕ) (a : ℕ)
      → ((j : ℕ)
          → i ≤ j
          → j < i + left
          → IsLoad (phdr elf file j)
          → Fits elf.file_data base_difference (phdr elf file j))
      → i ≤ k
      → k < i + left
      → IsLoad (phdr elf file k)
      → covers base_difference (phdr elf file k) a ≡ true
      → ((j : ℕ)
          → k < j
          → j < i + left
          → IsLoad (phdr elf file j)
          → covers base_difference (phdr elf file j) a ≡ false)
      → map_from left i elf base_difference file memory a
        ≡ loaded_byte elf.file_data base_difference (phdr elf file k) file a
  unfolding map_from map_header
  map_from-loads zero i k memory a fits low high load inside outside = absurd (omega arith)
  map_from-loads (suc left) i k memory a fits low high load inside outside =
      elim (Bool-cases (i == k)) [
        | inl now ↦
            (let same : i ≡ k = (==_iff i k).0 now in
              map_from-keeps left (i + 1) (map_header i memory) a
                (λ j f g. fits j (omega arith) (omega arith))
                (λ j f g. outside j (omega arith) (omega arith))
              ∙ map_header-loads i memory a (fits i (omega arith) (omega arith))
                  (subst (λ x. IsLoad (phdr elf file x)) (sym same) load)
                  (subst (λ x. covers base_difference (phdr elf file x) a ≡ true) (sym same) inside)
              ∙ ap (λ x. loaded_byte elf.file_data base_difference (phdr elf file x) file a) same)
        | inr later ↦
            map_from-loads left (i + 1) k (map_header i memory) a
              (λ j f g. fits j (omega arith) (omega arith)) (ground arith) (omega arith) load inside
              (λ j f g. outside j f (omega arith))
      ]

  -- Any two loadable segments are apart, in the order of their headers.
  unfoldable pub Apart : ℕ → Type 0
  Apart count =
      (i j : ℕ)
      → i < j
      → j < count
      → IsLoad (phdr elf file i)
      → IsLoad (phdr elf file j)
      → start base_difference (phdr elf file i) + (phdr elf file i).p_memsz
        ≤ start base_difference (phdr elf file j)

  unfoldable pub AllFit : ℕ → Type 0
  AllFit count =
      (j : ℕ)
      → j < count
      → IsLoad (phdr elf file j)
      → Fits elf.file_data base_difference (phdr elf file j)

  covers-Apart :
      (count i j a : ℕ)
      → Apart count
      → i < j
      → j < count
      → IsLoad (phdr elf file i)
      → IsLoad (phdr elf file j)
      → covers base_difference (phdr elf file i) a ≡ true
      → covers base_difference (phdr elf file j) a ≡ false
  unfolding Apart within
  covers-Apart count i j a apart f g li lj inside = let order = apart i j f g li lj in ground arith

  -- For loadable segments that do not overlap, in the order of their headers, whose file size is at
  -- most their memory size and that do not run past the end of memory, map_segments leaves at each
  -- address of a segment the file's byte or 0 behind the file's part, and at every other address
  -- what was there.
  pub map_segments_lem :
      (memory : ℕ → ℕ) (a : ℕ)
      → AllFit (read_header elf.header file).e_phnum
      → Apart (read_header elf.header file).e_phnum
      → ((k : ℕ)
          → k < (read_header elf.header file).e_phnum
          → IsLoad (phdr elf file k)
          → covers base_difference (phdr elf file k) a ≡ true
          → map_segments elf base_difference file memory a
            ≡ loaded_byte elf.file_data base_difference (phdr elf file k) file a)
        × (((k : ℕ)
              → k < (read_header elf.header file).e_phnum
              → IsLoad (phdr elf file k)
              → covers base_difference (phdr elf file k) a ≡ false)
            → map_segments elf base_difference file memory a ≡ memory a)
  unfolding map_segments AllFit
  map_segments_lem memory a fits apart =
      let count = (read_header elf.header file).e_phnum in
      (
        λ k f load inside.
            map_from-loads count 0 k memory a (λ j p q. fits j (omega arith)) (omega arith)
              (omega arith) load inside
              (λ j p q later. covers-Apart count k j a apart p (omega arith) load later inside),
        λ outside.
            map_from-keeps count 0 memory a (λ j p q. fits j (omega arith))
              (λ j p q. outside j (omega arith)),
      )
