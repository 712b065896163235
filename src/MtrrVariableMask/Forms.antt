-- ===== src/MtrrVariableMask/Forms.antt =====
-- hypervisor/include/zpp/x64/intel/mtrr.h: the accessors of `mtrr_variable_mask` as arithmetic on
-- the word.
use zpp_hypervisor.Common.{ℕ, Bool, ◌+◌, ◌*◌, ◌/◌, ◌%◌, ◌^◌, ◌<◌, ◌≡◌, refl, arith}
use zpp_hypervisor.Word.{flag}
use zpp_hypervisor.Word.Fields.{flag-lt, put_lem, flag_test_bit, bit_and_mask}
use zpp_hypervisor.MtrrVariableMask

pub valid-eq : (m : ℕ) → flag (MtrrVariableMask.valid m) ≡ m / 2 ^ 11 % 2
unfolding MtrrVariableMask.valid
valid-eq m = flag_test_bit 11 m

pub set_valid-eq :
    (b : Bool) (m : ℕ)
    → m < 2 ^ 64
    → MtrrVariableMask.set_valid b m ≡ m / 2 ^ 12 * 2 ^ 12 + flag b * 2 ^ 11 + m % 2 ^ 11
unfolding MtrrVariableMask.set_valid
set_valid-eq b m h = omega (arith, put_lem 52 1 11 m refl h (flag b) (flag-lt b))

pub physical_mask-eq : (m : ℕ) → MtrrVariableMask.physical_mask m ≡ m / 2 ^ 12 % 2 ^ 40
unfolding MtrrVariableMask.physical_mask
physical_mask-eq m = bit_and_mask 40 (m / 2 ^ 12)

pub set_physical_mask-eq :
    (v m : ℕ)
    → m < 2 ^ 64
    → MtrrVariableMask.set_physical_mask v m
      ≡ m / 2 ^ 52 * 2 ^ 52 + v % 2 ^ 40 * 2 ^ 12 + m % 2 ^ 12
unfolding MtrrVariableMask.set_physical_mask
set_physical_mask-eq v m h =
    rw (bit_and_mask 40 v) (omega (arith, put_lem 12 40 12 m refl h (v % 2 ^ 40) (omega arith)))
