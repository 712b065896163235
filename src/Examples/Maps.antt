-- ===== src/Examples/Maps.antt =====
-- The small map, and the map of the module's pages.
use zpp_hypervisor.Common.{ℕ, List, [], ◌∷◌, ◌+◌, ◌*◌, ◌<◌, ◌≡◌, ltb, some, if◌then◌else◌, arith}
use zpp_hypervisor.Word.{u64}
use zpp_hypervisor.SmallMap.{Entry, SmallMap, emplace, find_index}
use zpp_hypervisor.SmallMap.Ranges.{
  construct_range, construct_range_lem, last_value, erase_range, erase_range_lem,
}
use zpp_hypervisor.SmallMap.Search.{IsSorted, Locates, find_index-Locates}
use zpp_hypervisor.SmallMap.Lookup.{lookup, Emplaces, lookup-emplace}
use zpp_hypervisor.ErrorCode.{ok}
use zpp_hypervisor.ModulePages.{page_size, initialize_module_physical_to_virtual}
use zpp_hypervisor.ModulePages.Find.{Apart, initialize_module_physical_to_virtual-lookup}

-- A map of the keys 2, 4 and 6.
abbrev evens : SmallMap ℕ
evens = record { capacity = 4; storage = λ i. record { key = 2 * i + 2; value = i }; size = 3 }

evens-IsSorted : IsSorted evens
evens-IsSorted i j p q = omega arith

find_index-Locates_example : Locates evens 5 (find_index evens 5)
find_index-Locates_example = find_index-Locates evens 5 evens-IsSorted

lookup-emplace_example : Emplaces evens 5 7 (emplace 5 7 evens)
lookup-emplace_example = lookup-emplace evens 5 7 evens-IsSorted (omega arith)

abbrev no_pages : SmallMap ℕ
no_pages = record { capacity = 16; storage = λ _. record { key = 0; value = 0 }; size = 0 }

no_pages-IsSorted : IsSorted no_pages
no_pages-IsSorted i j p q = absurd (omega arith)

-- The physical addresses are 1 MB above the virtual ones.
abbrev above : ℕ → ℕ
above a = a + 0x100000

above-Apart : Apart above 0x200000 2
above-Apart i j p q e = omega (arith, e)

initialize_module_physical_to_virtual-lookup_example :
    (m : SmallMap ℕ) × (initialize_module_physical_to_virtual above 0x200000 0x2000 no_pages ≡ ok m)
    × IsSorted m
    × ((k : ℕ)
        → k < 2
        → lookup m (above (u64 (0x200000 + page_size * k))) ≡ some (u64 (0x200000 + page_size * k)))
initialize_module_physical_to_virtual-lookup_example =
    initialize_module_physical_to_virtual-lookup above 0x200000 0x2000 no_pages no_pages-IsSorted
      (omega arith) (omega arith) above-Apart

-- Two values of one key among others, out of order.
abbrev pairs : List (Entry ℕ)
pairs =
    record { key = 7; value = 70 }
    ∷ record { key = 3; value = 30 }
    ∷ record { key = 7; value = 71 }
    ∷ []

abbrev unset : ℕ → Entry ℕ
unset i = record { key = 0; value = 0 }

construct_range_lem_example :
    (m : SmallMap ℕ) × (construct_range 3 unset pairs ≡ ok m)
    × IsSorted m
    × ((key : ℕ) → lookup m key ≡ last_value pairs key)
construct_range_lem_example = construct_range_lem 3 unset pairs (omega arith)

erase_range_lem_example :
    ((erase_range 2 1 evens).size + 2 ≡ evens.size)
    × IsSorted (erase_range 2 1 evens)
    × ((i : ℕ)
        → i < (erase_range 2 1 evens).size
        → (erase_range 2 1 evens).storage i
          ≡ (if ltb i 1 then evens.storage i else evens.storage (i + 2)))
erase_range_lem_example = erase_range_lem 2 1 evens evens-IsSorted (omega arith)
