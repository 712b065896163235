-- ===== src/Examples/Tables.antt =====
-- The page tables of the host and of the operating system.
use zpp_hypervisor.Common.{
  ℕ, ◌+◌, ◌*◌, ◌/◌, ◌%◌, ◌^◌, ◌≡◌, false, ◌==◌, some, if◌then◌else◌, arith, refl,
}
use zpp_hypervisor.Word.Fields.{flag-injective}
use zpp_hypervisor.Pte
use zpp_hypervisor.Pte.Forms
use zpp_hypervisor.PageTable.{
  PageTable, read, write, execute, join, virtual_to_physical, map_page_from, map_from,
}
use zpp_hypervisor.PageTable.Mapping.{IsValid, same_slot, virtual_to_physical-map_page_from}
use zpp_hypervisor.PageTable.Mapping.Range.{virtual_to_physical-map_from}
use zpp_hypervisor.PageTable.Walk.{Walk, map_page_from-Walk}
use zpp_hypervisor.OsPageTable as Os
use zpp_hypervisor.OsPageTable.Hardware.{translate, virtual_to_physical-translate}

-- The table before anything is mapped.
abbrev no_entries : PageTable
no_entries = record {
  address = 0x100000;
  pml4 = λ _. 0;
  pdpt = λ _. 0;
  pds = λ _ _. 0;
  pts = λ _ _ _. 0;
}

zero-large : Pte.large 0 ≡ false
zero-large = flag-injective (Pte.large 0) false (Forms.large-eq 0)

no_entries-IsValid : IsValid no_entries
no_entries-IsValid = record {
  pml4_fits = λ i. omega arith;
  pdpt_fits = λ i. omega arith;
  pdpt_tables = λ i. zero-large;
  pds_fits = λ i j. omega arith;
  pds_tables = λ i j. zero-large;
  pts_fits = λ i j k. omega arith;
}

virtual_to_physical-map_page_from_example :
    virtual_to_physical
      (map_page_from virtual_to_physical 0x40201000 0x7000 (join read write) no_entries)
      0x40201234
    ≡ (if same_slot 0x40201000 0x40201234
        then 0x7000 / 2 ^ 12 % 2 ^ 40 * 2 ^ 12 + 0x40201234 % 2 ^ 12
        else virtual_to_physical no_entries 0x40201234)
virtual_to_physical-map_page_from_example =
    virtual_to_physical-map_page_from virtual_to_physical 0x40201000 0x7000 (join read write)
      no_entries 0x40201234 no_entries-IsValid

-- The other table puts every page 1 MB higher.
abbrev other : ℕ → ℕ
other a = a + 0x100000

virtual_to_physical-map_from_example :
    virtual_to_physical (map_from other 0x40200000 0x3000 (join read execute) no_entries) 0x40201234
    ≡ other (0x40201234 / 2 ^ 12 * 2 ^ 12) / 2 ^ 12 % 2 ^ 40 * 2 ^ 12 + 0x40201234 % 2 ^ 12
virtual_to_physical-map_from_example =
    virtual_to_physical-map_from other 0x40200000 0x3000 (join read execute) no_entries 0x40201234
      no_entries-IsValid refl (omega arith) (omega arith) (omega arith) (omega arith)

map_page_from-Walk_example :
    Walk other
      (map_page_from (λ _. other) 0x40201000 0x7000 (join read write) no_entries)
      0x40201000
      0x7000
      (join read write)
map_page_from-Walk_example =
    map_page_from-Walk other 0x40201000 0x7000 (join read write) no_entries no_entries-IsValid

-- Physical memory where every word is an entry for the page at 0x3000.
abbrev small_memory : ℕ → ℕ
small_memory a = 0x3003

virtual_to_physical-translate_example :
    Os.virtual_to_physical small_memory (Os.create 0x1000 (some (λ p. p))) 0x40201234
    ≡ translate small_memory 0x1000 0x40201234
virtual_to_physical-translate_example =
    virtual_to_physical-translate small_memory small_memory (λ p. p) (λ p o f. refl) 0x1000
      0x40201234 (omega arith) refl refl

-- Physical memory with a 2 MB page at 0x400000.
abbrev large_memory : ℕ → ℕ
large_memory a = if a == 0x3008 then 0x400083 else 0x3003
