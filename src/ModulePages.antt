-- ===== src/ModulePages.antt =====
-- The map from the module's physical pages back to their virtual addresses, which
-- `initialize_module_physical_to_virtual` of hypervisor/src/hypervisor/hypervisor.cpp fills.
pub mod Find
use zpp_hypervisor.Common.{ℕ, zero, suc, ◌+◌, ◌*◌, ◌/◌, leb, if◌then◌else◌}
use zpp_hypervisor.Word.{u64}
use zpp_hypervisor.SmallMap.{SmallMap, emplace}
use zpp_hypervisor.ErrorCode.{Outcome, ok, failed, fault, physical_to_virtual_capacity_error}

abbrev pub page_size : ℕ
page_size = 0x1000

-- The loop over the pages from `i` on, with `left` pages to go.
pub emplace_pages : (ℕ → ℕ) → ℕ → ℕ → ℕ → SmallMap ℕ → Outcome (SmallMap ℕ)
emplace_pages virtual_to_physical module_base zero i m = ok m
emplace_pages virtual_to_physical module_base (suc left) i m =
    let address = u64 (module_base + page_size * i) in
    elim (emplace (virtual_to_physical address) address m) [
      | ok m' ↦ emplace_pages virtual_to_physical module_base left (i + 1) m'
      | failed error ↦ failed error
      | fault ↦ fault
    ]

pub initialize_module_physical_to_virtual : (ℕ → ℕ) → ℕ → ℕ → SmallMap ℕ → Outcome (SmallMap ℕ)
initialize_module_physical_to_virtual virtual_to_physical module_base module_size m =
    let number_of_pages = module_size / page_size in
    if leb m.capacity number_of_pages
    then failed physical_to_virtual_capacity_error
    else emplace_pages virtual_to_physical module_base number_of_pages 0 m
