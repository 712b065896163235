-- ===== src/ElfFile/Structures.antt =====
-- The structures of hypervisor/include/zpp/elf_file.h, read from the bytes of memory.
use zpp_hypervisor.Common.{ℕ, zero, suc, ◌+◌, ◌*◌, ◌/◌, ◌%◌, update}

-- An integer of `n` bytes, the lowest first.
unfoldable pub read_bytes : ℕ → ℕ → (ℕ → ℕ) → ℕ
read_bytes zero address memory = 0
read_bytes (suc n) address memory = memory address % 256 + 256 * read_bytes n (address + 1) memory

unfoldable pub write_bytes : ℕ → ℕ → ℕ → (ℕ → ℕ) → ℕ → ℕ
write_bytes zero address value memory = memory
write_bytes (suc n) address value memory =
    write_bytes n (address + 1) (value / 256) (update memory address (value % 256))

-- `struct elf_header`, without the 16 bytes of `e_ident`.
pub record ElfHeader : Type 0 where
  pub e_type : ℕ
  pub e_machine : ℕ
  pub e_version : ℕ
  pub e_entry : ℕ
  pub e_phoff : ℕ
  pub e_shoff : ℕ
  pub e_flags : ℕ
  pub e_ehsize : ℕ
  pub e_phentsize : ℕ
  pub e_phnum : ℕ
  pub e_shentsize : ℕ
  pub e_shnum : ℕ
  pub e_shstrndx : ℕ

unfoldable pub read_header : ℕ → (ℕ → ℕ) → ElfHeader
read_header a memory = record {
  e_type = read_bytes 2 (a + 16) memory;
  e_machine = read_bytes 2 (a + 18) memory;
  e_version = read_bytes 4 (a + 20) memory;
  e_entry = read_bytes 8 (a + 24) memory;
  e_phoff = read_bytes 8 (a + 32) memory;
  e_shoff = read_bytes 8 (a + 40) memory;
  e_flags = read_bytes 4 (a + 48) memory;
  e_ehsize = read_bytes 2 (a + 52) memory;
  e_phentsize = read_bytes 2 (a + 54) memory;
  e_phnum = read_bytes 2 (a + 56) memory;
  e_shentsize = read_bytes 2 (a + 58) memory;
  e_shnum = read_bytes 2 (a + 60) memory;
  e_shstrndx = read_bytes 2 (a + 62) memory;
}

-- `struct elf_phdr`.
pub record ElfPhdr : Type 0 where
  pub p_type : ℕ
  pub p_flags : ℕ
  pub p_offset : ℕ
  pub p_vaddr : ℕ
  pub p_paddr : ℕ
  pub p_filesz : ℕ
  pub p_memsz : ℕ
  pub p_align : ℕ

abbrev pub phdr_size : ℕ
phdr_size = 56

unfoldable pub read_phdr : ℕ → (ℕ → ℕ) → ElfPhdr
read_phdr a memory = record {
  p_type = read_bytes 4 a memory;
  p_flags = read_bytes 4 (a + 4) memory;
  p_offset = read_bytes 8 (a + 8) memory;
  p_vaddr = read_bytes 8 (a + 16) memory;
  p_paddr = read_bytes 8 (a + 24) memory;
  p_filesz = read_bytes 8 (a + 32) memory;
  p_memsz = read_bytes 8 (a + 40) memory;
  p_align = read_bytes 8 (a + 48) memory;
}

-- `struct elf_rel`.
pub record ElfRel : Type 0 where
  pub r_offset : ℕ
  pub r_info : ℕ

abbrev pub rel_size : ℕ
rel_size = 16

unfoldable pub read_rel : ℕ → (ℕ → ℕ) → ElfRel
read_rel a memory = record {
  r_offset = read_bytes 8 a memory;
  r_info = read_bytes 8 (a + 8) memory;
}

-- `struct elf_rela`.
pub record ElfRela : Type 0 where
  pub r_offset : ℕ
  pub r_info : ℕ
  pub r_addend : ℕ

abbrev pub rela_size : ℕ
rela_size = 24

unfoldable pub read_rela : ℕ → (ℕ → ℕ) → ElfRela
read_rela a memory = record {
  r_offset = read_bytes 8 a memory;
  r_info = read_bytes 8 (a + 8) memory;
  r_addend = read_bytes 8 (a + 16) memory;
}

-- `struct elf_dyn`; the union is `d_val`.
pub record ElfDyn : Type 0 where
  pub d_tag : ℕ
  pub d_val : ℕ

abbrev pub dyn_size : ℕ
dyn_size = 16

unfoldable pub read_dyn : ℕ → (ℕ → ℕ) → ElfDyn
read_dyn a memory = record { d_tag = read_bytes 8 a memory; d_val = read_bytes 8 (a + 8) memory }
