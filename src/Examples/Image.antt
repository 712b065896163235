-- ===== src/Examples/Image.antt =====
-- An ELF file with a loadable and a dynamic segment.
use mathlib.Core.Bool.{true≢false}
use zpp_hypervisor.Common.{
  ◌-◌, leb, sym, subst, ◌==◌, ◌^◌, ℕ, zero, suc, ◌+◌, ◌*◌, ◌≤◌, ◌<◌, ◌≡◌, ◌≢◌, ◌⊎◌, inr, true,
  false, refl, some, if◌then◌else◌, ℤ, pos, negsuc, arith,
}
use zpp_hypervisor.Word.{u64, sub64, truthy}
use zpp_hypervisor.ElfFile.Structures.{
  read_header, read_phdr, read_dyn, read_rela, read_bytes, write_bytes,
}
use zpp_hypervisor.ElfFile.{
  ElfFile, elf_file, unloaded, map_segments, get_relocations, of_rela, of_rel, relocate, entry,
  find_phdr, find_last_phdr, tag_rela, tag_rela_size, tag_rel, tag_rel_size, tag, tag_null,
  parse_relocation_type,
}
use zpp_hypervisor.ElfFile.Segment.{loaded_byte, Fits, start}
use zpp_hypervisor.ElfFile.Segments.{phdr, IsLoad, covers, AllFit, Apart, map_segments_lem}
use zpp_hypervisor.ElfFile.Bounds.{Ordered, start-elf_file}
use zpp_hypervisor.ElfFile.Dynamic
use zpp_hypervisor.ElfFile.Dynamic.{latest, latest_address, get_relocations_lem}
use zpp_hypervisor.ElfFile.Relocations.{Separate, IsRelative, target, relocate_lem}
use zpp_hypervisor.ElfFile.Relocations
use zpp_hypervisor.Crt.Move.{within}
use zpp_hypervisor.ElfFile.ModuleRegion.{page_size, initialize_module_region}
use zpp_hypervisor.ElfFile.ModuleRegion.Search.{Matches}
use zpp_hypervisor.ElfFile.ModuleRegion.Bytes.{Agree}
use zpp_hypervisor.ElfFile.ModuleRegion.Size.{initialize_module_region_lem}
use zpp_hypervisor.Loader.{Launch, zpp_load_elf}
use zpp_hypervisor.Loader.Order.{Launches, zpp_load_elf_lem}

abbrev zeros : ℕ → ℕ
zeros a = 0

-- The header at 0, the program headers from 64 on, and the dynamic table at 176.
abbrev bytes : ℕ → ℕ
bytes = write_bytes 2 18 62 (
    write_bytes 8 24 0x1010 (
      write_bytes 8 32 64 (
        write_bytes 2 56 2 (
          write_bytes 4 64 1 (
            write_bytes 8 72 176 (
              write_bytes 8 80 0x1000 (
                write_bytes 8 96 48 (
                  write_bytes 8 104 0x100 (
                    write_bytes 4 120 2 (
                      write_bytes 8 128 176 (
                        write_bytes 8 176 7 (
                          write_bytes 8 184 0x1040
                            (write_bytes 8 192 8 (write_bytes 8 200 1 zeros))))))))))))))

abbrev elf : ElfFile
elf = elf_file bytes 0 unloaded

-- Only the first of the two headers is loadable.
first_only :
    (j : ℕ) → j < (read_header elf.header bytes).e_phnum → IsLoad (phdr elf bytes j) → j ≡ 0
unfolding elf_file read_header read_phdr read_bytes write_bytes
first_only zero f load = refl
first_only (suc zero) f load = absurd (true≢false (sym load))
first_only (suc (suc j)) f load = absurd (omega arith)

all_fit : AllFit elf 0x8000 bytes (read_header elf.header bytes).e_phnum
unfolding AllFit elf_file read_header read_phdr read_bytes write_bytes
all_fit j f load =
    subst (λ x. Fits 0 0x8000 (phdr elf bytes x)) (sym (first_only j f load))
      record { filesz = omega arith; memory = omega arith; file = refl }

apart : Apart elf 0x8000 bytes (read_header elf.header bytes).e_phnum
unfolding Apart
apart i j f g li lj = absurd (omega (arith, first_only j g lj, f))

before : (i : ℕ) → i < 2 → (tag (Dynamic.entry elf.dynamic bytes i) == tag_null) ≡ false
unfolding elf_file read_header read_phdr read_dyn read_bytes write_bytes find_phdr
before zero f = refl
before (suc zero) f = refl
before (suc (suc i)) f = absurd (omega arith)

end : (tag (Dynamic.entry elf.dynamic bytes 2) == tag_null) ≡ true
unfolding elf_file read_header read_phdr read_dyn read_bytes write_bytes find_phdr
end = refl

map_segments_lem_example :
    ((k : ℕ)
      → k < (read_header elf.header bytes).e_phnum
      → IsLoad (phdr elf bytes k)
      → covers 0x8000 (phdr elf bytes k) 0x9008 ≡ true
      → map_segments elf 0x8000 bytes zeros 0x9008
        ≡ loaded_byte 0 0x8000 (phdr elf bytes k) bytes 0x9008)
    × (((k : ℕ)
          → k < (read_header elf.header bytes).e_phnum
          → IsLoad (phdr elf bytes k)
          → covers 0x8000 (phdr elf bytes k) 0x9008 ≡ false)
        → map_segments elf 0x8000 bytes zeros 0x9008 ≡ 0)
unfolding elf_file
map_segments_lem_example = map_segments_lem elf 0x8000 bytes zeros 0x9008 all_fit apart

start-elf_file_example :
    (0x10000 ≤ start (sub64 0x10000 elf.preferred_base) (phdr elf bytes 0))
    × (start (sub64 0x10000 elf.preferred_base) (phdr elf bytes 0) + (phdr elf bytes 0).p_memsz
        ≤ 0x10000 + elf.memory_size)
unfolding elf_file read_header read_phdr read_bytes write_bytes Ordered find_phdr find_last_phdr
start-elf_file_example =
    start-elf_file bytes 0 unloaded 0x10000 0 (omega arith) refl
      (λ i j f g li lj. absurd (omega (arith, first_only j g lj, f)))
      (λ j f load.
        subst (λ x. (phdr elf bytes x).p_vaddr + (phdr elf bytes x).p_memsz + 0xfff < 2 ^ 64)
          (sym (first_only j f load)) (omega arith))
      (omega arith)

get_relocations_lem_example :
    get_relocations 5 elf 0xf000 bytes
    ≡ some (
        if truthy (latest_address elf.dynamic bytes 0xf000 tag_rela 2)
        then (
          of_rela (latest_address elf.dynamic bytes 0xf000 tag_rela 2),
          latest elf.dynamic bytes tag_rela_size 2,
        )
        else (
          of_rel (latest_address elf.dynamic bytes 0xf000 tag_rel 2),
          latest elf.dynamic bytes tag_rel_size 2,
        ))
get_relocations_lem_example = get_relocations_lem elf 0xf000 2 5 bytes before end (omega arith)

-- The allocation, the processors, and a call of one of them, which counts.
abbrev allocated : ℕ
allocated = 0x10000

abbrev processors : ℕ
processors = 3

abbrev call : ℕ → Launch → ℕ → ℤ × ℕ
call i l s = (pos i, s + 1)

zpp_load_elf_lem_example :
    (let result = zpp_load_elf call 5 (λ size. allocated) bytes 0 zeros processors true 0 in
      ((allocated ≡ 0) ⊎ (processors ≡ 0) → result ≡ some (negsuc 0, 0))
      × (allocated ≢ 0
          → processors ≢ 0
          → Launches call true (u64 (allocated + entry bytes elf)) processors 0 result))
zpp_load_elf_lem_example =
    zpp_load_elf_lem call 5 2 (λ size. allocated) bytes 0 zeros processors true 0 before end
      (omega arith)

-- Two entries of a table at 0x100; the first is relative.
abbrev memory : ℕ → ℕ
memory = write_bytes 8 0x100 0x40 (write_bytes 8 0x108 8 (write_bytes 8 0x110 0x1234 zeros))

separate : Separate 0x100 8 0x5000 2 memory
unfolding parse_relocation_type read_rela read_bytes write_bytes
separate = record { outside = far; words = single }
  where
    far :
        (i : ℕ)
        → i < 2
        → IsRelative 0x100 8 0x5000 2 memory i
        → (target 0x100 8 0x5000 2 memory i + 8 ≤ 0x100)
          ⊎ (0x100 + 24 * 2 ≤ target 0x100 8 0x5000 2 memory i)
    far zero f rel = inr (omega arith)
    far (suc zero) f rel = absurd (true≢false (sym rel))
    far (suc (suc i)) f rel = absurd (omega arith)

    single :
        (i j : ℕ)
        → i < j
        → j < 2
        → IsRelative 0x100 8 0x5000 2 memory i
        → IsRelative 0x100 8 0x5000 2 memory j
        → (target 0x100 8 0x5000 2 memory i + 8 ≤ target 0x100 8 0x5000 2 memory j)
          ⊎ (target 0x100 8 0x5000 2 memory j + 8 ≤ target 0x100 8 0x5000 2 memory i)
    single i zero f g ri rj = absurd (omega arith)
    single i (suc zero) f g ri rj = absurd (true≢false (sym rj))
    single i (suc (suc j)) f g ri rj = absurd (omega arith)

relocate_lem_example :
    ((j : ℕ)
      → j < 2
      → IsRelative 0x100 8 0x5000 2 memory j
      → read_bytes 8 (target 0x100 8 0x5000 2 memory j) (relocate (of_rela 0x100) 2 8 0x5000 memory)
        ≡ u64 (0x5000 + (Relocations.entry 0x100 8 0x5000 2 memory j).r_addend))
    × ((a : ℕ)
        → ((j : ℕ)
            → j < 2
            → IsRelative 0x100 8 0x5000 2 memory j
            → within (target 0x100 8 0x5000 2 memory j) 8 a ≡ false)
        → relocate (of_rela 0x100) 2 8 0x5000 memory a ≡ memory a)
relocate_lem_example = relocate_lem 0x100 2 8 0x5000 memory separate

-- The file with its magic, and the image of it at 0x10000 with the code's copy of the magic.
abbrev marked : ℕ → ℕ
marked = write_bytes 4 0 0x464c457f bytes

abbrev mapped : ℕ → ℕ
mapped a = if leb 0x12001 a then marked (a - 0x12001) else marked (a - 0x10000)

mapped-Agree : Agree 176 marked 0 mapped 0x10000
unfolding Agree
mapped-Agree i f =
    let low : leb 0x12001 (0x10000 + i) ≡ false = ground arith in
    let back : 0x10000 + i - 0x10000 ≡ 0 + i = omega arith in rw (low, back) refl

initialize_module_region_lem_example :
    initialize_module_region 3 0x12000 mapped
    ≡ some
        (record { module_base = 0x10000; module_size = (elf_file marked 0 unloaded).memory_size })
unfolding elf_file read_header read_phdr read_bytes write_bytes Matches
initialize_module_region_lem_example =
    initialize_module_region_lem marked mapped 0 0x10000 176 0 2 3 0x12000 mapped-Agree
      (omega arith) (omega arith) (omega arith) (omega arith) (omega arith) refl refl (omega arith)
      no_match match (omega arith)
  where
    no_match : (i : ℕ) → 0 < i → i ≤ 2 → ¬ Matches mapped (0x10000 + page_size * i) 0x12001
    no_match zero f g m = absurd (omega arith)
    no_match (suc zero) f g m = absurd (omega (arith, m 0 (omega arith)))
    no_match (suc (suc zero)) f g m = absurd (omega (arith, m 0 (omega arith)))
    no_match (suc (suc (suc i))) f g m = absurd (omega arith)

    match : Matches mapped 0x10000 0x12001
    match zero f = refl
    match (suc zero) f = refl
    match (suc (suc zero)) f = refl
    match (suc (suc (suc zero))) f = refl
    match (suc (suc (suc (suc j)))) f = absurd (omega arith)
