-- ===== src/OsPageTable/Hardware.antt =====
-- hypervisor/src/x64/os_page_table.cpp, against the processor's own walk as the architecture
-- defines it for the three page sizes.
use zpp_hypervisor.Common.{
  ℕ, Bool, true, false, ◌+◌, ◌*◌, ◌/◌, ◌%◌, ◌^◌, ◌<◌, ◌≡◌, ◌≢◌, ◌==◌, sym, ◌∙◌, arith, some,
  if◌then◌else◌,
}
use zpp_hypervisor.Word.{u64, ◌<<<◌, ◌&&&◌}
use zpp_hypervisor.Word.Fields.{bit_and_page, flag-injective, flag_eq_one}
use zpp_hypervisor.Pte
use zpp_hypervisor.Pte.Forms
use zpp_hypervisor.VirtualAddress
use zpp_hypervisor.VirtualAddress.Forms as AddressForms
use zpp_hypervisor.OsPageTable.{create, virtual_to_physical}

-- The processor's walk over physical memory. Bits 51 to 12 of an entry are the physical page, of
-- which a 2 MB page has the upper 31 and a 1 GB page the upper 22.
abbrev pub page_base : ℕ → ℕ
page_base entry = entry / 2 ^ 12 % 2 ^ 40 * 2 ^ 12

abbrev pub is_large : ℕ → Bool
is_large entry = entry / 2 ^ 7 % 2 == 1

module _ (memory : ℕ → ℕ) where
  abbrev pub pml4e_of : ℕ → ℕ → ℕ
  pml4e_of cr3 value = memory (cr3 / 2 ^ 12 * 2 ^ 12 + 8 * (value / 2 ^ 39 % 2 ^ 9))

  abbrev pub pdpte_of : ℕ → ℕ → ℕ
  pdpte_of cr3 value = memory (page_base (pml4e_of cr3 value) + 8 * (value / 2 ^ 30 % 2 ^ 9))

  abbrev pub pde_of : ℕ → ℕ → ℕ
  pde_of cr3 value = memory (page_base (pdpte_of cr3 value) + 8 * (value / 2 ^ 21 % 2 ^ 9))

  abbrev pub translate : ℕ → ℕ → ℕ
  translate cr3 value =
      if is_large (pdpte_of cr3 value)
      then pdpte_of cr3 value / 2 ^ 30 % 2 ^ 22 * 2 ^ 30 + value % 2 ^ 30
      else if is_large (pde_of cr3 value)
      then pde_of cr3 value / 2 ^ 21 % 2 ^ 31 * 2 ^ 21 + value % 2 ^ 21
      else page_base (memory (page_base (pde_of cr3 value) + 8 * (value / 2 ^ 12 % 2 ^ 9)))
        + value % 2 ^ 12

module _ (load memory : ℕ → ℕ) (convert : ℕ → ℕ)
    (direct : (p o : ℕ)
      → o < 2 ^ 12
      → load (convert (p * 2 ^ 12) + o) ≡ memory (p * 2 ^ 12 + o)) where
  next-entry :
      (entry i : ℕ)
      → i < 2 ^ 9
      → load (convert (Pte.page_number entry <<< 12) + 8 * i) ≡ memory (page_base entry + 8 * i)
  next-entry entry i h =
      let page : Pte.page_number entry <<< 12 ≡ entry / 2 ^ 12 % 2 ^ 40 * 2 ^ 12 =
        omega (arith, Forms.page_number-eq entry) in
      rw page (direct _ _ (omega arith))

  large-is_large : (entry : ℕ) → Pte.large entry ≡ is_large entry
  large-is_large entry =
      flag-injective _ _ (Forms.large-eq entry ∙ sym (flag_eq_one _ (omega arith)))

  module _ (cr3 value : ℕ) (small : cr3 < 2 ^ 64) where
    first-entry :
        load (convert (cr3 &&& 0xfffffffffffff000) + 8 * VirtualAddress.pml4e value)
        ≡ memory (cr3 / 2 ^ 12 * 2 ^ 12 + 8 * (value / 2 ^ 39 % 2 ^ 9))
    first-entry =
        rw (bit_and_page cr3 small, AddressForms.pml4e-eq value) (direct _ _ (omega arith))

    -- Whatever the page size, the code reads the entries that the processor reads.
    walk-result : virtual_to_physical load (create cr3 (some convert)) value ≡ (
        if is_large (pdpte_of memory cr3 value)
        then u64 (Pte.page_number (pdpte_of memory cr3 value) <<< 30 + value % 2 ^ 30)
        else if is_large (pde_of memory cr3 value)
        then u64 (Pte.page_number (pde_of memory cr3 value) <<< 21 + value % 2 ^ 21)
        else u64 (
            Pte.page_number
                (memory (page_base (pde_of memory cr3 value) + 8 * (value / 2 ^ 12 % 2 ^ 9)))
              <<< 12
            + value % 2 ^ 12))
    unfolding virtual_to_physical create
    walk-result = rw (
      first-entry,
      AddressForms.pdpte-eq value,
      next-entry (pml4e_of memory cr3 value) (value / 2 ^ 30 % 2 ^ 9) (omega arith),
      AddressForms.pde-eq value,
      next-entry (pdpte_of memory cr3 value) (value / 2 ^ 21 % 2 ^ 9) (omega arith),
      AddressForms.pte-eq value,
      next-entry (pde_of memory cr3 value) (value / 2 ^ 12 % 2 ^ 9) (omega arith),
      large-is_large (pdpte_of memory cr3 value),
      large-is_large (pde_of memory cr3 value),
      AddressForms.huge_offset-eq value,
      AddressForms.large_offset-eq value,
      AddressForms.offset-eq value,
    )

module _ (load memory convert : ℕ → ℕ)
    (direct : (p o : ℕ) → o < 2 ^ 12 → load (convert (p * 2 ^ 12) + o) ≡ memory (p * 2 ^ 12 + o))
    (cr3 value : ℕ) (small : cr3 < 2 ^ 64)
    (table : is_large (pdpte_of memory cr3 value) ≡ false) where
  -- Given a direct map (a word of a physical page reads the same through the converted address),
  -- a 64-bit cr3, and an address that the tables map by a 4 KB page: the code's translation is the
  -- processor's.
  pub virtual_to_physical-translate :
      is_large (pde_of memory cr3 value) ≡ false
      → virtual_to_physical load (create cr3 (some convert)) value ≡ translate memory cr3 value
  virtual_to_physical-translate last =
      walk-result load memory convert direct cr3 value small
      ∙ rw (table, last)
          (omega (
            arith,
            Forms.page_number-eq
                (memory (page_base (pde_of memory cr3 value) + 8 * (value / 2 ^ 12 % 2 ^ 9))),
          ))

  -- Under the same conditions, but with a 2 MB page (its bits 20 to 12 zero) anywhere above physical
  -- address 0: the code's translation is never the processor's, since it shifts the number of a 4 KB
  -- page by 21.
  pub virtual_to_physical-ne-translate :
      is_large (pde_of memory cr3 value) ≡ true
      → pde_of memory cr3 value / 2 ^ 12 % 2 ^ 9 ≡ 0
      → 0 < pde_of memory cr3 value / 2 ^ 21 % 2 ^ 31
      → virtual_to_physical load (create cr3 (some convert)) value ≢ translate memory cr3 value
  virtual_to_physical-ne-translate last aligned nonzero same =
      let code : virtual_to_physical load (create cr3 (some convert)) value
          ≡ u64 (Pte.page_number (pde_of memory cr3 value) <<< 21 + value % 2 ^ 21) =
        walk-result load memory convert direct cr3 value small ∙ rw (table, last) in
      let processor : translate memory cr3 value
          ≡ pde_of memory cr3 value / 2 ^ 21 % 2 ^ 31 * 2 ^ 21 + value % 2 ^ 21 =
        rw (table, last) in
      let equal : u64 (Pte.page_number (pde_of memory cr3 value) <<< 21 + value % 2 ^ 21)
          ≡ pde_of memory cr3 value / 2 ^ 21 % 2 ^ 31 * 2 ^ 21 + value % 2 ^ 21 =
        sym code ∙ same ∙ processor in
      omega (arith, equal, Forms.page_number-eq (pde_of memory cr3 value))
