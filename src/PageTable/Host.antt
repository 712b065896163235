-- ===== src/PageTable/Host.antt =====
-- hypervisor/src/hypervisor/hypervisor.cpp: `initialize_host_page_table`, on the page table of the
-- operating system as a function from addresses to addresses.
use zpp_hypervisor.Common.{ℕ}
use zpp_hypervisor.Word.{◌&&&◌, ◌|||◌}
use zpp_hypervisor.PageTable.{
  PageTable, read, write, execute, join, pml4_address, virtual_to_physical, map_from, map_self,
}

-- The fields that `initialize_host_page_table` sets.
pub record HostPageTable : Type 0 where
  pub host_page_table : PageTable
  pub host_cr3 : ℕ

unfoldable pub initialize_host_page_table : (ℕ → ℕ) → ℕ → ℕ → ℕ → PageTable → HostPageTable
initialize_host_page_table os_page_table module_base module_size guest_cr3 t =
    let mapped =
      map_from os_page_table module_base module_size (join (join read write) execute)
        (map_self os_page_table t) in
    record {
      host_page_table = mapped;
      host_cr3 = virtual_to_physical mapped (pml4_address mapped) ||| (guest_cr3 &&& 0xfff);
    }
