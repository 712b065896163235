-- ===== src/MtrrCapabilities/Forms.antt =====
-- hypervisor/include/zpp/x64/intel/mtrr.h: the accessors of `mtrr_capabilities` as arithmetic on
-- the word.
use zpp_hypervisor.Common.{ℕ, Bool, ◌+◌, ◌*◌, ◌/◌, ◌%◌, ◌^◌, ◌<◌, ◌≡◌, refl, arith}
use zpp_hypervisor.Word.{flag}
use zpp_hypervisor.Word.Fields.{flag-lt, put_lem, put_low_lem, flag_test_bit, bit_and_mask}
use zpp_hypervisor.MtrrCapabilities

pub variable_range_register_count-eq :
    (m : ℕ) → MtrrCapabilities.variable_range_register_count m ≡ m % 2 ^ 8
unfolding MtrrCapabilities.variable_range_register_count
variable_range_register_count-eq m = bit_and_mask 8 m

pub set_variable_range_register_count-eq :
    (v m : ℕ)
    → m < 2 ^ 64
    → MtrrCapabilities.set_variable_range_register_count v m ≡ m / 2 ^ 8 * 2 ^ 8 + v % 2 ^ 8
unfolding MtrrCapabilities.set_variable_range_register_count
set_variable_range_register_count-eq v m h =
    rw (bit_and_mask 8 v) (put_low_lem 56 8 m refl h (v % 2 ^ 8) (omega arith))

pub fixed_range_registers_supported-eq :
    (m : ℕ) → flag (MtrrCapabilities.fixed_range_registers_supported m) ≡ m / 2 ^ 8 % 2
unfolding MtrrCapabilities.fixed_range_registers_supported
fixed_range_registers_supported-eq m = flag_test_bit 8 m

pub set_fixed_range_registers_supported-eq :
    (b : Bool) (m : ℕ)
    → m < 2 ^ 64
    → MtrrCapabilities.set_fixed_range_registers_supported b m
      ≡ m / 2 ^ 9 * 2 ^ 9 + flag b * 2 ^ 8 + m % 2 ^ 8
unfolding MtrrCapabilities.set_fixed_range_registers_supported
set_fixed_range_registers_supported-eq b m h =
    omega (arith, put_lem 55 1 8 m refl h (flag b) (flag-lt b))

pub write_combining-eq : (m : ℕ) → flag (MtrrCapabilities.write_combining m) ≡ m / 2 ^ 10 % 2
unfolding MtrrCapabilities.write_combining
write_combining-eq m = flag_test_bit 10 m

pub set_write_combining-eq :
    (b : Bool) (m : ℕ)
    → m < 2 ^ 64
    → MtrrCapabilities.set_write_combining b m ≡ m / 2 ^ 11 * 2 ^ 11 + flag b * 2 ^ 10 + m % 2 ^ 10
unfolding MtrrCapabilities.set_write_combining
set_write_combining-eq b m h = omega (arith, put_lem 53 1 10 m refl h (flag b) (flag-lt b))

pub system_management_range_register-eq :
    (m : ℕ) → flag (MtrrCapabilities.system_management_range_register m) ≡ m / 2 ^ 11 % 2
unfolding MtrrCapabilities.system_management_range_register
system_management_range_register-eq m = flag_test_bit 11 m

pub set_system_management_range_register-eq :
    (b : Bool) (m : ℕ)
    → m < 2 ^ 64
    → MtrrCapabilities.set_system_management_range_register b m
      ≡ m / 2 ^ 12 * 2 ^ 12 + flag b * 2 ^ 11 + m % 2 ^ 11
unfolding MtrrCapabilities.set_system_management_range_register
set_system_management_range_register-eq b m h =
    omega (arith, put_lem 52 1 11 m refl h (flag b) (flag-lt b))
