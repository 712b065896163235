-- ===== src/SmallMap/Shift.antt =====
-- hypervisor/include/zpp/small_map.h: the loops of `emplace` and `erase` that move elements by one
-- place.
use zpp_hypervisor.Common.{
  ℕ, zero, suc, ◌+◌, ◌-◌, ◌≡◌, ◌&&◌, ltb, leb, arith, if◌then◌else◌, update,
}
use zpp_hypervisor.SmallMap.{Entry, shift_right, shift_left}

module _ {V : Type 0} where
  -- Above the slot, up to `slot + n`, every element is the one that was below it.
  pub shift_right_lem :
      (n slot : ℕ) (s : ℕ → Entry V) (i : ℕ)
      → shift_right n slot s i ≡ (if ltb slot i && leb i (slot + n) then s (i - 1) else s i)
  unfolding shift_right
  shift_right_lem zero slot s i = ground arith
  shift_right_lem (suc n) slot s i =
      ground (arith, shift_right_lem n slot (update s (slot + suc n) (s (slot + suc n - 1))) i)

  -- From the position, up to `position + n`, every element is the one that was above it.
  pub shift_left_lem :
      (n position : ℕ) (s : ℕ → Entry V) (i : ℕ)
      → shift_left n position s i
        ≡ (if leb position i && ltb i (position + n) then s (i + 1) else s i)
  unfolding shift_left
  shift_left_lem zero position s i = ground arith
  shift_left_lem (suc n) position s i =
      ground (arith, shift_left_lem n (position + 1) (update s position (s (position + 1))) i)
