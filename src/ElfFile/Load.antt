-- ===== src/ElfFile/Load.antt =====
-- hypervisor/include/zpp/elf_file.h: the result of `load`, and the number of rounds that it takes.
use zpp_hypervisor.Common.{ℕ, ◌<◌, ◌≡◌, ◌≢◌, true, false, ◌==◌, refl, some, ==_ne, []}
use zpp_hypervisor.Word.{sub64}
use zpp_hypervisor.ElfFile.Structures.{read_header}
use zpp_hypervisor.ElfFile.{
  ElfFile, Loaded, RelocationTable, load, tag, tag_null, get_relocations, relocate,
  relative_relocation_value, map_segments, protect_from,
}
use zpp_hypervisor.ElfFile.Dynamic.{entry, get_relocations_lem}

module _ (fuel : ℕ) (allocate file : ℕ → ℕ) (elf : ElfFile) (memory : ℕ → ℕ) where
  -- The image when the table of relocations is known.
  image : RelocationTable × ℕ → Loaded
  image (relocations, size) =
      let base = allocate elf.memory_size in
      let base_difference = sub64 base elf.preferred_base in
      record {
        base = base;
        memory =
            relocate relocations size
              (relative_relocation_value (read_header elf.header file).e_machine) base_difference
              (map_segments elf base_difference file memory);
        protections = protect_from (read_header elf.header file).e_phnum 0 elf base_difference file;
      }

  load-null :
      allocate elf.memory_size ≡ 0
      → load fuel allocate file elf memory
        ≡ some (record { base = 0; memory = memory; protections = [] })
  unfolding load
  load-null e = rw (load, e) refl

  load-image :
      (r : RelocationTable × ℕ)
      → allocate elf.memory_size ≢ 0
      → get_relocations fuel elf (sub64 (allocate elf.memory_size) elf.preferred_base) file ≡ some r
      → load fuel allocate file elf memory ≡ some (image r)
  unfolding load image
  load-image r ne e = rw (load, ==_ne (allocate elf.memory_size) 0 ne, e) refl

  finish :
      {r : RelocationTable × ℕ}
      → allocate elf.memory_size ≢ 0
      → get_relocations fuel elf (sub64 (allocate elf.memory_size) elf.preferred_base) file ≡ some r
      → (l : Loaded) × (load fuel allocate file elf memory ≡ some l)
        × (l.base ≡ allocate elf.memory_size)
  unfolding image
  finish {r = r} ne e = (image r, load-image r ne e, refl)

  pub load_lem :
      (n : ℕ)
      → ((i : ℕ) → i < n → (tag (entry elf.dynamic file i) == tag_null) ≡ false)
      → (tag (entry elf.dynamic file n) == tag_null) ≡ true
      → n < fuel
      → (allocate elf.memory_size ≡ 0
          → load fuel allocate file elf memory
            ≡ some (record { base = 0; memory = memory; protections = [] }))
        × (allocate elf.memory_size ≢ 0
            → (l : Loaded) × (load fuel allocate file elf memory ≡ some l)
              × (l.base ≡ allocate elf.memory_size))
  load_lem n before end enough = (
    load-null,
    λ ne. finish ne (
        get_relocations_lem elf (sub64 (allocate elf.memory_size) elf.preferred_base) n fuel file
          before end enough),
  )
