-- ===== src/EptPointer/Forms.antt =====
-- hypervisor/include/zpp/x64/intel/ept_pointer.h: the accessors of `ept_pointer` as arithmetic on
-- the word.
use zpp_hypervisor.Common.{
  ℕ, Bool, true, false, not, ◌+◌, ◌*◌, ◌/◌, ◌%◌, ◌^◌, ◌<◌, ◌≡◌, refl, ap, ◌∙◌, arith,
}
use zpp_hypervisor.Word.{flag, sub64}
use zpp_hypervisor.Word.Fields.{put_lem, put_low_lem, flag_test_bit, bit_and_mask}
use zpp_hypervisor.EptPointer

pub memory_type-eq : (m : ℕ) → EptPointer.memory_type m ≡ m % 2 ^ 3
unfolding EptPointer.memory_type
memory_type-eq m = bit_and_mask 3 (m / 1) ∙ omega arith

pub set_memory_type-eq :
    (v m : ℕ) → m < 2 ^ 64 → EptPointer.set_memory_type v m ≡ m / 2 ^ 3 * 2 ^ 3 + v % 2 ^ 3
unfolding EptPointer.set_memory_type
set_memory_type-eq v m h =
    let whole : v % 2 ^ 3 * 2 ^ 0 % 2 ^ 64 ≡ v % 2 ^ 3 = omega arith in
    rw (bit_and_mask 3 v, whole) (put_low_lem 61 3 m refl h (v % 2 ^ 3) (omega arith))

pub page_walk_length-eq : (m : ℕ) → EptPointer.page_walk_length m ≡ m / 2 ^ 3 % 2 ^ 3 + 1
unfolding EptPointer.page_walk_length
page_walk_length-eq m = ap (λ t. t + 1) (bit_and_mask 3 (m / 2 ^ 3))

pub set_page_walk_length-eq :
    (v m : ℕ)
    → m < 2 ^ 64
    → EptPointer.set_page_walk_length v m ≡ m / 2 ^ 6 * 2 ^ 6 + (v + 7) % 2 ^ 3 * 2 ^ 3 + m % 2 ^ 3
unfolding EptPointer.set_page_walk_length
set_page_walk_length-eq v m h =
    let low : sub64 v 1 % 2 ^ 3 ≡ (v + 7) % 2 ^ 3 = omega arith in
    rw (bit_and_mask 3 (sub64 v 1), low)
      (omega (arith, put_lem 58 3 3 m refl h ((v + 7) % 2 ^ 3) (omega arith)))

pub access_and_dirty-eq : (m : ℕ) → flag (EptPointer.access_and_dirty m) ≡ m / 2 ^ 8 % 2
unfolding EptPointer.access_and_dirty
access_and_dirty-eq m = flag_test_bit 8 m

-- The setter computes `value - 1` of a bool, so `false` sets three bits and `true` clears them.
pub set_access_and_dirty-eq :
    (b : Bool) (m : ℕ)
    → m < 2 ^ 64
    → EptPointer.set_access_and_dirty b m
      ≡ m / 2 ^ 11 * 2 ^ 11 + 7 * flag (not b) * 2 ^ 8 + m % 2 ^ 8
unfolding EptPointer.set_access_and_dirty
set_access_and_dirty-eq true m h = omega (arith, put_lem 53 3 8 m refl h 0 (omega arith))
set_access_and_dirty-eq false m h = omega (arith, put_lem 53 3 8 m refl h 7 (omega arith))

pub page_number-eq : (m : ℕ) → EptPointer.page_number m ≡ m / 2 ^ 12 % 2 ^ 40
unfolding EptPointer.page_number
page_number-eq m = bit_and_mask 40 (m / 2 ^ 12)

pub set_page_number-eq :
    (v m : ℕ)
    → m < 2 ^ 64
    → EptPointer.set_page_number v m ≡ m / 2 ^ 52 * 2 ^ 52 + v % 2 ^ 40 * 2 ^ 12 + m % 2 ^ 12
unfolding EptPointer.set_page_number
set_page_number-eq v m h =
    rw (bit_and_mask 40 v) (omega (arith, put_lem 12 40 12 m refl h (v % 2 ^ 40) (omega arith)))
