-- ===== src/ElfFile/RelocationTables.antt =====
-- hypervisor/include/zpp/elf_file.h: the dynamic table, which says where the relocations are, and the
-- loops over them.
use zpp_hypervisor.Common.{
  ℕ, zero, suc, ◌+◌, ◌*◌, ◌%◌, ◌^◌, ◌==◌, not, if◌then◌else◌, Option, some, none,
}
use zpp_hypervisor.Word.{u64, ◌&&&◌, truthy}
use zpp_hypervisor.ElfFile.Structures.{
  ElfDyn, read_rel, read_rela, read_dyn, read_bytes, write_bytes, rel_size, rela_size, dyn_size,
}

-- `elf_dyn::tag`.
abbrev pub tag_null : ℕ
tag_null = 0

abbrev pub tag_rela : ℕ
tag_rela = 7

abbrev pub tag_rela_size : ℕ
tag_rela_size = 8

abbrev pub tag_rel : ℕ
tag_rel = 17

abbrev pub tag_rel_size : ℕ
tag_rel_size = 18

-- What the loop of `get_relocations` has found.
pub record Tables : Type 0 where
  pub rel : ℕ
  pub rel_size : ℕ
  pub rela : ℕ
  pub rela_size : ℕ

abbrev pub no_tables : Tables
no_tables = record { rel = 0; rel_size = 0; rela = 0; rela_size = 0 }

-- `elf_dyn::tag`, an `int`.
abbrev pub tag : ElfDyn → ℕ
tag d = d.d_tag % 2 ^ 32

-- The `switch`.
unfoldable pub parse_dynamic : ℕ → ElfDyn → Tables → Tables
parse_dynamic base_difference d t =
    if tag d == tag_rel
    then record t { rel = u64 (base_difference + d.d_val) }
    else if tag d == tag_rel_size
    then record t { rel_size = d.d_val }
    else if tag d == tag_rela
    then record t { rela = u64 (base_difference + d.d_val) }
    else if tag d == tag_rela_size
    then record t { rela_size = d.d_val }
    else t

-- The loop, from the entry at `address`, with a bound on its rounds.
unfoldable pub parse_from : ℕ → ℕ → ℕ → (ℕ → ℕ) → Tables → Option Tables
parse_from zero address base_difference file t = none
parse_from (suc fuel) address base_difference file t =
    let d = read_dyn address file in
    let rest =
      parse_from fuel (address + dyn_size) base_difference file
        (parse_dynamic base_difference d t) in
    if tag d == tag_null then some t else rest

-- The variant of `relocations`.
pub data RelocationTable : Type 0 where
  of_rela of_rel : ℕ → RelocationTable

unfoldable pub choose_relocations : Tables → RelocationTable × ℕ
choose_relocations t =
    if truthy t.rela then (of_rela t.rela, t.rela_size) else (of_rel t.rel, t.rel_size)

unfoldable pub parse_relocation_type : ℕ → ℕ
parse_relocation_type info = info &&& 0xffffffff

-- The loop of `relocate` from entry `i`, for each kind of table.
unfoldable pub relocate_rela : ℕ → ℕ → ℕ → ℕ → ℕ → (ℕ → ℕ) → ℕ → ℕ
relocate_rela zero i table type base_difference memory = memory
relocate_rela (suc left) i table type base_difference memory =
    let r = read_rela (table + rela_size * i) memory in
    let memory' =
      if not (parse_relocation_type r.r_info == type)
      then memory
      else write_bytes 8 (u64 (base_difference + r.r_offset)) (u64 (base_difference + r.r_addend))
          memory in
    relocate_rela left (i + 1) table type base_difference memory'

unfoldable pub relocate_rel : ℕ → ℕ → ℕ → ℕ → ℕ → (ℕ → ℕ) → ℕ → ℕ
relocate_rel zero i table type base_difference memory = memory
relocate_rel (suc left) i table type base_difference memory =
    let r = read_rel (table + rel_size * i) memory in
    let target = u64 (base_difference + r.r_offset) in
    let memory' =
      if not (parse_relocation_type r.r_info == type)
      then memory
      else write_bytes 8 target (u64 (read_bytes 8 target memory + base_difference)) memory in
    relocate_rel left (i + 1) table type base_difference memory'

unfoldable pub relocate : RelocationTable → ℕ → ℕ → ℕ → (ℕ → ℕ) → ℕ → ℕ
relocate (of_rela table) size type base_difference memory =
    relocate_rela size 0 table type base_difference memory
relocate (of_rel table) size type base_difference memory =
    relocate_rel size 0 table type base_difference memory
