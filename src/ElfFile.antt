-- ===== src/ElfFile.antt =====
-- hypervisor/include/zpp/elf_file.h: an ELF file in memory, and how it is loaded. `file` is the
-- memory of the file, which stays as it is, and `memory` the one that is allocated and written.
pub mod Structures
mod RelocationTables
pub mod Segment
pub mod Segments
pub mod Bounds
pub mod Dynamic
pub mod Relocations
pub mod Load
pub mod ModuleRegion
use zpp_hypervisor.Common.{
  ℕ, zero, suc, ◌+◌, ◌*◌, ◌%◌, ◌^◌, Bool, true, false, ◌==◌, not, if◌then◌else◌, Option, some, none,
  List, [], ◌∷◌, update,
}
use zpp_hypervisor.Word.{u64, sub64, ◌&&&◌, ~◌, truthy}
use zpp_hypervisor.Crt.{set}
use zpp_hypervisor.ElfFile.Structures.{
  ElfHeader, ElfPhdr, ElfRel, ElfRela, ElfDyn, read_header, read_phdr, read_rel, read_rela,
  read_dyn, read_bytes, write_bytes, phdr_size, rel_size, rela_size, dyn_size,
}
pub use RelocationTables.{
  tag_null, tag_rela, tag_rela_size, tag_rel, tag_rel_size, Tables, no_tables, tag, RelocationTable,
  of_rela, of_rel,
}
unfoldable pub use RelocationTables.{
  parse_dynamic, parse_from, choose_relocations, parse_relocation_type, relocate_rela, relocate_rel,
  relocate,
}

-- `enum class state`.
pub data State : Type 0 where
  unloaded loaded : State

-- `elf_phdr::type`, `elf_machine` and `elf_relocation_type`.
abbrev pub type_load : ℕ
type_load = 1

abbrev pub type_dynamic : ℕ
type_dynamic = 2

abbrev pub machine_x86_64 : ℕ
machine_x86_64 = 62

abbrev pub machine_aarch64 : ℕ
machine_aarch64 = 183

abbrev pub x86_64_relative : ℕ
x86_64_relative = 8

abbrev pub aarch64_relative : ℕ
aarch64_relative = 1027

-- The members of `elf_file`; those that point to a header hold its address.
pub record ElfFile : Type 0 where
  pub file_data : ℕ
  pub header : ℕ
  pub program_headers : ℕ
  pub preferred_base : ℕ
  pub dynamic_phdr : ℕ
  pub dynamic : ℕ
  pub last_load_phdr : ℕ
  pub memory_size : ℕ

-- `std::find_if` over the program headers for a type: the address of the first, or of the end.
unfoldable pub find_phdr : ℕ → ℕ → ℕ → (ℕ → ℕ) → ℕ
find_phdr zero type address file = address
find_phdr (suc left) type address file =
    let rest = find_phdr left type (address + phdr_size) file in
    if (read_phdr address file).p_type == type then address else rest

-- The same with reverse iterators: the address of the last, or of the header before the first.
unfoldable pub find_last_phdr : ℕ → ℕ → ℕ → (ℕ → ℕ) → ℕ
find_last_phdr zero type first file = sub64 first phdr_size
find_last_phdr (suc left) type first file =
    let rest = find_last_phdr left type first file in
    let address = first + phdr_size * left in
    if (read_phdr address file).p_type == type then address else rest

-- The constructor.
unfoldable pub elf_file : (ℕ → ℕ) → ℕ → State → ElfFile
elf_file file file_data state =
    let header = read_header file_data file in
    let program_headers = u64 (file_data + header.e_phoff) in
    let first = read_phdr (find_phdr header.e_phnum type_load program_headers file) file in
    let preferred_base = first.p_vaddr &&& ~ 0xfff in
    let dynamic_phdr = find_phdr header.e_phnum type_dynamic program_headers file in
    let dynamic_header = read_phdr dynamic_phdr file in
    let last_load_phdr = find_last_phdr header.e_phnum type_load program_headers file in
    let last = read_phdr last_load_phdr file in
    record {
      file_data = file_data;
      header = file_data;
      program_headers = program_headers;
      preferred_base = preferred_base;
      dynamic_phdr = dynamic_phdr;
      dynamic = elim state [
        | unloaded ↦ u64 (file_data + dynamic_header.p_offset)
        | loaded ↦ u64 (dynamic_header.p_vaddr + sub64 file_data preferred_base)
      ];
      last_load_phdr = last_load_phdr;
      memory_size = sub64 (u64 (last.p_vaddr + last.p_memsz + 0xfff) &&& ~ 0xfff) preferred_base;
    }

-- `entry`: the entry point from the base of the image.
unfoldable pub entry : (ℕ → ℕ) → ElfFile → ℕ
entry file elf = sub64 (read_header elf.header file).e_entry elf.preferred_base

-- `std::copy_n` of bytes.
unfoldable pub copy_n : ℕ → ℕ → ℕ → ℕ → (ℕ → ℕ) → (ℕ → ℕ) → ℕ → ℕ
copy_n zero i dest src file memory = memory
copy_n (suc left) i dest src file memory =
    copy_n left (i + 1) dest src file (update memory (dest + i) (file (src + i)))

unfoldable pub map_segment : ℕ → ℕ → ElfPhdr → (ℕ → ℕ) → (ℕ → ℕ) → ℕ → ℕ
map_segment file_data base_difference p file memory =
    let copied =
      copy_n p.p_filesz 0 (u64 (base_difference + p.p_vaddr)) (u64 (file_data + p.p_offset)) file
        memory in
    set (sub64 p.p_memsz p.p_filesz) 0 (u64 (base_difference + p.p_vaddr + p.p_filesz)) 0 copied

-- The loop of `map_segments` from program header `i`.
unfoldable pub map_from : ℕ → ℕ → ElfFile → ℕ → (ℕ → ℕ) → (ℕ → ℕ) → ℕ → ℕ
map_from zero i elf base_difference file memory = memory
map_from (suc left) i elf base_difference file memory =
    let p = read_phdr (elf.program_headers + phdr_size * i) file in
    let memory' =
      if not (p.p_type == type_load)
      then memory
      else map_segment elf.file_data base_difference p file memory in
    map_from left (i + 1) elf base_difference file memory'

unfoldable pub map_segments : ElfFile → ℕ → (ℕ → ℕ) → (ℕ → ℕ) → ℕ → ℕ
map_segments elf base_difference file memory =
    map_from (read_header elf.header file).e_phnum 0 elf base_difference file memory

unfoldable pub get_relocations : ℕ → ElfFile → ℕ → (ℕ → ℕ) → Option (RelocationTable × ℕ)
get_relocations fuel elf base_difference file =
    elim (parse_from fuel elf.dynamic base_difference file no_tables) [
      | none ↦ none
      | some t ↦ some (choose_relocations t)
    ]

unfoldable pub relative_relocation_value : ℕ → ℕ
relative_relocation_value machine =
    if machine == machine_aarch64
    then aarch64_relative
    else if machine == machine_x86_64
    then x86_64_relative
    else 0

-- A call of the protection function.
pub record Protection : Type 0 where
  pub address : ℕ
  pub size : ℕ
  pub flags : ℕ

-- The calls of `protect_segments` from program header `i`.
pub protect_from : ℕ → ℕ → ElfFile → ℕ → (ℕ → ℕ) → List Protection
protect_from zero i elf base_difference file = []
protect_from (suc left) i elf base_difference file =
    let p = read_phdr (elf.program_headers + phdr_size * i) file in
    let rest = protect_from left (i + 1) elf base_difference file in
    if not (p.p_type == type_load)
    then rest
    else record { address = u64 (base_difference + p.p_vaddr); size = p.p_memsz; flags = p.p_flags }
      ∷ rest

-- What `load` leaves: the base, 0 for a null pointer, memory, and the calls of `protect`.
pub record Loaded : Type 0 where
  pub base : ℕ
  pub memory : ℕ → ℕ
  pub protections : List Protection

-- `load`; `fuel` bounds the search of the dynamic table.
unfoldable pub load : ℕ → (ℕ → ℕ) → (ℕ → ℕ) → ElfFile → (ℕ → ℕ) → Option Loaded
load fuel allocate file elf memory =
    let base = allocate elf.memory_size in
    let base_difference = sub64 base elf.preferred_base in
    let header = read_header elf.header file in
    let mapped = map_segments elf base_difference file memory in
    if not (truthy base)
    then some (record { base = 0; memory = memory; protections = [] })
    else elim (get_relocations fuel elf base_difference file) [
      | none ↦ none
      | some (relocations, size) ↦ some (record {
        base = base;
        memory =
            relocate relocations size (relative_relocation_value header.e_machine) base_difference
              mapped;
        protections = protect_from header.e_phnum 0 elf base_difference file;
      })
    ]
