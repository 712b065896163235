-- ===== src/SegmentEntry/Forms.antt =====
-- hypervisor/include/zpp/x64/segment_descriptor.h: the accessors of `segment_descriptor` as
-- arithmetic on the word.
use zpp_hypervisor.Common.{
  ℕ, Bool, not, ◌+◌, ◌-◌, ◌*◌, ◌/◌, ◌%◌, ◌^◌, ◌<◌, ◌≡◌, refl, ap, ◌∙◌, arith,
}
use zpp_hypervisor.Word.{flag, truthy, ◌&&&◌}
use zpp_hypervisor.Word.Fields.{
  flag-lt, put_lem, put_low_lem, flag_shift_bit, flag-not, bit_and_mask,
}
use zpp_hypervisor.SegmentEntry

pub limit_low-eq : (m : ℕ) → SegmentEntry.limit_low m ≡ m % 2 ^ 16
unfolding SegmentEntry.limit_low
limit_low-eq m = bit_and_mask 16 m

pub set_limit_low-eq :
    (v m : ℕ) → m < 2 ^ 64 → SegmentEntry.set_limit_low v m ≡ m / 2 ^ 16 * 2 ^ 16 + v % 2 ^ 16
unfolding SegmentEntry.set_limit_low
set_limit_low-eq v m h =
    rw (bit_and_mask 16 v) (put_low_lem 48 16 m refl h (v % 2 ^ 16) (omega arith))

pub base_low-eq : (m : ℕ) → SegmentEntry.base_low m ≡ m / 2 ^ 16 % 2 ^ 16
unfolding SegmentEntry.base_low
base_low-eq m = bit_and_mask 16 (m / 2 ^ 16)

pub set_base_low-eq :
    (v m : ℕ)
    → m < 2 ^ 64
    → SegmentEntry.set_base_low v m ≡ m / 2 ^ 32 * 2 ^ 32 + v % 2 ^ 16 * 2 ^ 16 + m % 2 ^ 16
unfolding SegmentEntry.set_base_low
set_base_low-eq v m h =
    rw (bit_and_mask 16 v) (omega (arith, put_lem 32 16 16 m refl h (v % 2 ^ 16) (omega arith)))

pub base_middle-eq : (m : ℕ) → SegmentEntry.base_middle m ≡ m / 2 ^ 32 % 2 ^ 8
unfolding SegmentEntry.base_middle
base_middle-eq m = bit_and_mask 8 (m / 2 ^ 32)

pub set_base_middle-eq :
    (v m : ℕ)
    → m < 2 ^ 64
    → SegmentEntry.set_base_middle v m ≡ m / 2 ^ 40 * 2 ^ 40 + v % 2 ^ 8 * 2 ^ 32 + m % 2 ^ 32
unfolding SegmentEntry.set_base_middle
set_base_middle-eq v m h =
    rw (bit_and_mask 8 v) (omega (arith, put_lem 24 8 32 m refl h (v % 2 ^ 8) (omega arith)))

pub type-eq : (m : ℕ) → SegmentEntry.type m ≡ m / 2 ^ 40 % 2 ^ 4
unfolding SegmentEntry.type
type-eq m = bit_and_mask 4 (m / 2 ^ 40)

pub set_type-eq :
    (v m : ℕ)
    → m < 2 ^ 64
    → SegmentEntry.set_type v m ≡ m / 2 ^ 44 * 2 ^ 44 + v % 2 ^ 4 * 2 ^ 40 + m % 2 ^ 40
unfolding SegmentEntry.set_type
set_type-eq v m h =
    rw (bit_and_mask 4 v) (omega (arith, put_lem 20 4 40 m refl h (v % 2 ^ 4) (omega arith)))

pub system-eq : (m : ℕ) → flag (SegmentEntry.system m) ≡ 1 - m / 2 ^ 44 % 2
unfolding SegmentEntry.system
system-eq m = flag-not (truthy (m / 2 ^ 44 &&& 1)) ∙ ap (λ t. 1 - t) (flag_shift_bit 44 m)

pub set_system-eq :
    (b : Bool) (m : ℕ)
    → m < 2 ^ 64
    → SegmentEntry.set_system b m ≡ m / 2 ^ 45 * 2 ^ 45 + flag (not b) * 2 ^ 44 + m % 2 ^ 44
unfolding SegmentEntry.set_system
set_system-eq b m h = omega (arith, put_lem 19 1 44 m refl h (flag (not b)) (flag-lt (not b)))

pub privilege_level-eq : (m : ℕ) → SegmentEntry.privilege_level m ≡ m / 2 ^ 45 % 2 ^ 2
unfolding SegmentEntry.privilege_level
privilege_level-eq m = bit_and_mask 2 (m / 2 ^ 45)

pub set_privilege_level-eq :
    (v m : ℕ)
    → m < 2 ^ 64
    → SegmentEntry.set_privilege_level v m ≡ m / 2 ^ 47 * 2 ^ 47 + v % 2 ^ 2 * 2 ^ 45 + m % 2 ^ 45
unfolding SegmentEntry.set_privilege_level
set_privilege_level-eq v m h =
    rw (bit_and_mask 2 v) (omega (arith, put_lem 17 2 45 m refl h (v % 2 ^ 2) (omega arith)))

pub present-eq : (m : ℕ) → flag (SegmentEntry.present m) ≡ m / 2 ^ 47 % 2
unfolding SegmentEntry.present
present-eq m = flag_shift_bit 47 m

pub set_present-eq :
    (b : Bool) (m : ℕ)
    → m < 2 ^ 64
    → SegmentEntry.set_present b m ≡ m / 2 ^ 48 * 2 ^ 48 + flag b * 2 ^ 47 + m % 2 ^ 47
unfolding SegmentEntry.set_present
set_present-eq b m h = omega (arith, put_lem 16 1 47 m refl h (flag b) (flag-lt b))

pub limit_high-eq : (m : ℕ) → SegmentEntry.limit_high m ≡ m / 2 ^ 48 % 2 ^ 4
unfolding SegmentEntry.limit_high
limit_high-eq m = bit_and_mask 4 (m / 2 ^ 48)

pub set_limit_high-eq :
    (v m : ℕ)
    → m < 2 ^ 64
    → SegmentEntry.set_limit_high v m ≡ m / 2 ^ 52 * 2 ^ 52 + v % 2 ^ 4 * 2 ^ 48 + m % 2 ^ 48
unfolding SegmentEntry.set_limit_high
set_limit_high-eq v m h =
    rw (bit_and_mask 4 v) (omega (arith, put_lem 12 4 48 m refl h (v % 2 ^ 4) (omega arith)))

pub available_for_system_use-eq :
    (m : ℕ) → flag (SegmentEntry.available_for_system_use m) ≡ m / 2 ^ 52 % 2
unfolding SegmentEntry.available_for_system_use
available_for_system_use-eq m = flag_shift_bit 52 m

pub set_available_for_system_use-eq :
    (b : Bool) (m : ℕ)
    → m < 2 ^ 64
    → SegmentEntry.set_available_for_system_use b m
      ≡ m / 2 ^ 53 * 2 ^ 53 + flag b * 2 ^ 52 + m % 2 ^ 52
unfolding SegmentEntry.set_available_for_system_use
set_available_for_system_use-eq b m h = omega (arith, put_lem 11 1 52 m refl h (flag b) (flag-lt b))

pub code_64_bit-eq : (m : ℕ) → flag (SegmentEntry.code_64_bit m) ≡ m / 2 ^ 53 % 2
unfolding SegmentEntry.code_64_bit
code_64_bit-eq m = flag_shift_bit 53 m

pub set_code_64_bit-eq :
    (b : Bool) (m : ℕ)
    → m < 2 ^ 64
    → SegmentEntry.set_code_64_bit b m ≡ m / 2 ^ 54 * 2 ^ 54 + flag b * 2 ^ 53 + m % 2 ^ 53
unfolding SegmentEntry.set_code_64_bit
set_code_64_bit-eq b m h = omega (arith, put_lem 10 1 53 m refl h (flag b) (flag-lt b))

pub default_operation_size-eq :
    (m : ℕ) → flag (SegmentEntry.default_operation_size m) ≡ m / 2 ^ 54 % 2
unfolding SegmentEntry.default_operation_size
default_operation_size-eq m = flag_shift_bit 54 m

pub set_default_operation_size-eq :
    (b : Bool) (m : ℕ)
    → m < 2 ^ 64
    → SegmentEntry.set_default_operation_size b m
      ≡ m / 2 ^ 55 * 2 ^ 55 + flag b * 2 ^ 54 + m % 2 ^ 54
unfolding SegmentEntry.set_default_operation_size
set_default_operation_size-eq b m h = omega (arith, put_lem 9 1 54 m refl h (flag b) (flag-lt b))

pub granularity-eq : (m : ℕ) → flag (SegmentEntry.granularity m) ≡ m / 2 ^ 55 % 2
unfolding SegmentEntry.granularity
granularity-eq m = flag_shift_bit 55 m

pub set_granularity-eq :
    (b : Bool) (m : ℕ)
    → m < 2 ^ 64
    → SegmentEntry.set_granularity b m ≡ m / 2 ^ 56 * 2 ^ 56 + flag b * 2 ^ 55 + m % 2 ^ 55
unfolding SegmentEntry.set_granularity
set_granularity-eq b m h = omega (arith, put_lem 8 1 55 m refl h (flag b) (flag-lt b))

pub base_high-eq : (m : ℕ) → SegmentEntry.base_high m ≡ m / 2 ^ 56 % 2 ^ 8
unfolding SegmentEntry.base_high
base_high-eq m = bit_and_mask 8 (m / 2 ^ 56)

pub set_base_high-eq :
    (v m : ℕ) → m < 2 ^ 64 → SegmentEntry.set_base_high v m ≡ v % 2 ^ 8 * 2 ^ 56 + m % 2 ^ 56
unfolding SegmentEntry.set_base_high
set_base_high-eq v m h =
    rw (bit_and_mask 8 v) (omega (arith, put_lem 0 8 56 m refl h (v % 2 ^ 8) (omega arith)))
