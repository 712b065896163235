-- ===== src/ElfFile/ModuleRegion.antt =====
-- hypervisor/include/zpp/elf_image_base.h, and `initialize_module_region` of
-- hypervisor/src/hypervisor/hypervisor.cpp: the hypervisor finds its own image.
pub mod Search
pub mod Bytes
pub mod Size
use zpp_hypervisor.Common.{
  ℕ, zero, suc, ◌+◌, Option, some, none, if◌then◌else◌, not, ℤ, pos, negsuc, Bool, true, false,
  ◌==◌,
}
use zpp_hypervisor.Word.{sub64, ◌&&&◌, ~◌}
use zpp_hypervisor.Crt.{memcmp}
use zpp_hypervisor.ElfFile.{loaded, elf_file}

abbrev pub page_size : ℕ
page_size = 0x1000

-- The conversion of `int` to bool.
abbrev pub differs : ℤ → Bool
differs (pos n) = not (n == 0)
differs (negsuc n) = true

-- The loop, with a bound on its rounds; `magic` is the address of the four bytes to look for.
unfoldable pub search_from : ℕ → ℕ → ℕ → (ℕ → ℕ) → Option ℕ
search_from zero magic elf_base memory = none
search_from (suc fuel) magic elf_base memory =
    let rest = search_from fuel magic (sub64 elf_base page_size) memory in
    if differs (memcmp elf_base magic 4 memory) then rest else some elf_base

-- `g_elf_magic` is the address of the structure, which has one byte before the magic.
unfoldable pub elf_image_base : ℕ → ℕ → (ℕ → ℕ) → Option ℕ
elf_image_base fuel g_elf_magic memory =
    search_from fuel (g_elf_magic + 1) (g_elf_magic &&& ~ 0xfff) memory

pub record ModuleRegion : Type 0 where
  pub module_base : ℕ
  pub module_size : ℕ

unfoldable pub initialize_module_region : ℕ → ℕ → (ℕ → ℕ) → Option ModuleRegion
initialize_module_region fuel g_elf_magic memory = elim (elf_image_base fuel g_elf_magic memory) [
  | none ↦ none
  | some base ↦
      some (record { module_base = base; module_size = (elf_file memory base loaded).memory_size })
]
