-- ===== src/Examples/Memory.antt =====
-- The extended page tables.
use zpp_hypervisor.Common.{ℕ, ◌+◌, ◌-◌, ◌*◌, ◌^◌, ◌<◌, ◌≤◌, ◌≡◌, true, false, some, refl, arith}
use zpp_hypervisor.Word.{◌<<<◌}
use zpp_hypervisor.Word.Fields.{flag-injective}
use zpp_hypervisor.Epte
use zpp_hypervisor.Epte.Forms as EpteForms
use zpp_hypervisor.SmallMap.{Entry, SmallMap}
use zpp_hypervisor.SmallMap.Search.{IsSorted}
use zpp_hypervisor.ModulePages.Find.{
  Apart, initialize_module_physical_to_virtual-lookup, lookup-Located,
}
use zpp_hypervisor.MtrrVariableBase
use zpp_hypervisor.MtrrVariableMask
use zpp_hypervisor.MtrrVariableMask.Forms as MaskForms
use zpp_hypervisor.ExtendedPaging.{Tables, Host, page_size, ept_count}
use zpp_hypervisor.ExtendedPaging.Entries.{all_rights}
use zpp_hypervisor.ExtendedPaging.Invariant.{Inside, Located, IsValid}
use zpp_hypervisor.ExtendedPaging.Hiding.{Below, large_pages, start, protect_module-SetsAll}
use zpp_hypervisor.ExtendedPaging.Hiding.LargePages.{large_pages_lem}
use zpp_hypervisor.ExtendedPaging.Mtrrs.{Mtrr, read_mtrr, size-read_mtrr}
use zpp_hypervisor.ExtendedPaging.Initialize.{Levels, initialize_ept, type_at}
use zpp_hypervisor.ExtendedPaging.Initialize.Identity.{filled, initialize_ept-view}
use zpp_hypervisor.ExtendedPaging.Initialize.Upper.{IsPlaced, guest_view}

abbrev unset : ℕ → Entry ℕ
unset i = record { key = 0; value = 0 }

-- The map of the module's pages at the start, with room for 50 MB of them.
abbrev no_pages : SmallMap ℕ
no_pages = record { capacity = 12800; storage = unset; size = 0 }

no_pages-IsSorted : IsSorted no_pages
no_pages-IsSorted i j p q = absurd (omega arith)

-- A module of 4000 pages: the 1024 tables of `ept` from page 64 on, 513 pages for `epdpt` and `epd`
-- behind them, 2048 pages of stacks, and the rest. It stands at a high address, and in physical
-- memory from 256 MB on.
abbrev base : ℕ
base = 0xffff900000000000

abbrev module_size : ℕ
module_size = 4000 * 0x1000

abbrev to_physical : ℕ → ℕ
to_physical a = a - base + 0x10000000

to_physical-Apart : Apart to_physical base 4000
to_physical-Apart i j p q e = omega (arith, e)

abbrev module_pages : SmallMap ℕ
module_pages =
    (initialize_module_physical_to_virtual-lookup to_physical base module_size no_pages
      no_pages-IsSorted (omega arith) (omega arith) to_physical-Apart).0

abbrev host : Host
host = record {
  virtual_to_physical = to_physical;
  module_physical_to_virtual = module_pages;
  ept_address = base + 0x1000 * 64;
}

host-follows : (j : ℕ) → to_physical (base + j * page_size) ≡ 0x10000000 + j * page_size
host-follows j = omega arith

-- The module lies in no more than eight large pages.
few_large_pages : large_pages host base 4000 0 ≤ 8
few_large_pages = omega (arith, large_pages_lem host base 0x10000000 host-follows 3999)

host-Located : Located host (large_pages host base 4000 0)
host-Located =
    lookup-Located host base 64 4000 (large_pages host base 4000 0) (omega arith)
      (omega (arith, few_large_pages)) (omega (arith, few_large_pages)) (omega arith)
      (initialize_module_physical_to_virtual-lookup to_physical base module_size no_pages
        no_pages-IsSorted (omega arith) (omega arith) to_physical-Apart).3
      (λ k p. omega arith)

host-Below : Below host base 4000 0
host-Below j p q = omega arith

-- One range of 4 MB that is write through.
abbrev ranges : ℕ → Mtrr
ranges i = record { type = 4; valid = true; physical_base = 0; size = 0x400000 }

ranges-types : (i : ℕ) → (ranges i).type < 8
ranges-types i = omega arith

abbrev no_levels : Levels
no_levels = record { epml4e = 0; epdpt = λ _. 0; epd = λ _ _. 0 }

abbrev no_tables : ℕ → ℕ → Epte.Epte
no_tables k c = 0

no_tables-fits : (k c : ℕ) → no_tables k c < 2 ^ 64
no_tables-fits k c = omega arith

-- Where the module has `epdpt` and the directories.
abbrev epdpt_page : ℕ
epdpt_page = 0x10000000 + 0x1000 * 1088

abbrev epd_page : ℕ → ℕ
epd_page i = 0x10000000 + 0x1000 * (1089 + i)

zero_small : Epte.large 0 ≡ false
zero_small = flag-injective _ false (EpteForms.large-eq 0)

no_levels-IsPlaced : IsPlaced no_levels epdpt_page epd_page
no_levels-IsPlaced = (omega arith, zero_small, refl, λ a f. omega arith)

abbrev levels : Levels
levels = initialize_ept ranges epdpt_page epd_page no_levels

abbrev filled_tables : Tables
filled_tables = filled ranges ranges-types host no_levels no_tables epdpt_page epd_page

initialize_ept-view_example :
    IsValid host filled_tables
    × ((a b c : ℕ)
        → Inside a b
        → guest_view host epdpt_page epd_page levels filled_tables a b c
          ≡ some (record {
            allowed = all_rights true;
            frame = (a * 512 + b) * 512 + c;
            memory_type = type_at ranges ((a * 512 + b) * 2 ^ 21);
          }))
initialize_ept-view_example =
    initialize_ept-view ranges ranges-types host no_levels no_tables epdpt_page epd_page
      no_tables-fits no_levels-IsPlaced

directories-IsValid : IsValid host (start levels.epd no_tables)
directories-IsValid =
    (initialize_ept-view ranges ranges-types host no_levels no_tables epdpt_page epd_page
      no_tables-fits no_levels-IsPlaced).0

enough : large_pages host base 4000 0 < ept_count
enough = omega (arith, few_large_pages)

-- The tables once the module is protected.
abbrev protected : Tables
protected =
    (protect_module-SetsAll host base module_size levels.epd no_tables host-Located
      directories-IsValid enough host-Below).0

size-read_mtrr_example :
    read_mtrr 0x6 0xffc00800
    ≡ some (record {
      type = MtrrVariableBase.memory_type 0x6;
      valid = MtrrVariableMask.valid 0xffc00800;
      physical_base = MtrrVariableBase.page_number 0x6 <<< 12;
      size = 2 ^ 12 * 2 ^ 10;
    })
size-read_mtrr_example =
    size-read_mtrr 0x6 0xffc00800 10 511 (MaskForms.physical_mask-eq 0xffc00800) (omega arith)
