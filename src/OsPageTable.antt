-- ===== src/OsPageTable.antt =====
-- hypervisor/include/zpp/x64/os_page_table.h and hypervisor/src/x64/os_page_table.cpp: the page
-- tables of the operating system, read through a conversion of physical addresses to virtual ones
-- that the loader passes in (a null pointer where the loader has none).
pub mod Hardware
use zpp_hypervisor.Common.{ℕ, ◌+◌, ◌*◌, Bool, not, ◌==◌, Option, none, some, if◌then◌else◌}
use zpp_hypervisor.Word.{u64, ◌<<<◌, ◌&&&◌}
use zpp_hypervisor.Pte
use zpp_hypervisor.VirtualAddress

-- `class os_page_table`.
pub record OsPageTable : Type 0 where
  pub pml4 : ℕ
  pub physical_to_virtual : Option (ℕ → ℕ)

-- The constructor.
pub create : ℕ → Option (ℕ → ℕ) → OsPageTable
create cr3 none = record { pml4 = 0; physical_to_virtual = none }
create cr3 (some convert) = record {
  pml4 = convert (cr3 &&& 0xfffffffffffff000);
  physical_to_virtual = some convert;
}

-- `operator bool`.
pub is_open : OsPageTable → Bool
is_open t = not (t.pml4 == 0)

-- `load` reads the 64-bit word at a virtual address.
module _ (load : ℕ → ℕ) where
  -- `table[index]` of a table of 64-bit words.
  abbrev pub element : ℕ → ℕ → Pte.Pte
  element table index = load (table + 8 * index)

  pub walk : (ℕ → ℕ) → ℕ → ℕ → ℕ
  walk convert pml4 value =
      let pml4e = element pml4 (VirtualAddress.pml4e value) in
      let pdpt = convert (Pte.page_number pml4e <<< 12) in
      let pdpte = element pdpt (VirtualAddress.pdpte value) in
      let pd = convert (Pte.page_number pdpte <<< 12) in
      let pde = element pd (VirtualAddress.pde value) in
      let pt = convert (Pte.page_number pde <<< 12) in
      if Pte.large pdpte
      then u64 (Pte.page_number pdpte <<< 30 + VirtualAddress.huge_offset value)
      else if Pte.large pde
      then u64 (Pte.page_number pde <<< 21 + VirtualAddress.large_offset value)
      else u64 (
          Pte.page_number (element pt (VirtualAddress.pte value)) <<< 12
          + VirtualAddress.offset value)

  pub virtual_to_physical : OsPageTable → ℕ → ℕ
  unfolding walk
  virtual_to_physical t value = elim t.physical_to_virtual [
    | none ↦ value
    | some convert ↦ walk convert t.pml4 value
  ]
