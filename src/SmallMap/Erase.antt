-- ===== src/SmallMap/Erase.antt =====
-- hypervisor/include/zpp/small_map.h: `erase` on the map as a function.
use zpp_hypervisor.Common.{ℕ, zero, suc, ◌+◌, ◌-◌, ◌<◌, ◌≡◌, ltb, refl, arith, if◌then◌else◌, none}
use zpp_hypervisor.SmallMap.{Entry, SmallMap, erase, copy_construct, copy_rounds, find, find_index}
use zpp_hypervisor.SmallMap.Search.{IsSorted}
use zpp_hypervisor.SmallMap.Shift.{shift_left_lem}

module _ {V : Type 0} where
  -- Erasing a position of a non-empty sorted map shrinks it by one and keeps it sorted; the elements
  -- before the position stay, those after it move down by one, in their order.
  pub erase_lem :
      (m : SmallMap V) (position : ℕ)
      → IsSorted m
      → position < m.size
      → ((erase position m).size + 1 ≡ m.size)
        × IsSorted (erase position m)
        × ((i : ℕ)
            → i < (erase position m).size
            → (erase position m).storage i
              ≡ (if ltb i position then m.storage i else m.storage (i + 1)))
  unfolding erase
  erase_lem m position sorted inside = (
    omega arith,
    λ i j p q. ground (
      arith,
      shift_left_lem (m.size - 1 - position) position m.storage i,
      shift_left_lem (m.size - 1 - position) position m.storage j,
      sorted i j,
      sorted i (j + 1),
      sorted (i + 1) (j + 1),
    ),
    λ i p. ground (arith, shift_left_lem (m.size - 1 - position) position m.storage i),
  )

  -- The copy constructor copies nothing: whatever the other map holds, and however long its loop may
  -- run, the new map is empty and finds no key.
  pub copy_construct-empty :
      (fuel : ℕ) (uninitialized : ℕ → Entry V) (other : SmallMap V) (key : ℕ)
      → ((copy_construct fuel uninitialized other).size ≡ 0)
        × (find (copy_construct fuel uninitialized other) key ≡ none)
  unfolding copy_construct copy_rounds find find_index
  copy_construct-empty zero uninitialized other key = (refl, refl)
  copy_construct-empty (suc fuel) uninitialized other key = (refl, refl)
