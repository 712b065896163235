-- ===== src/MtrrVariableBase/Forms.antt =====
-- hypervisor/include/zpp/x64/intel/mtrr.h: the accessors of `mtrr_variable_base` as arithmetic on
-- the word.
use zpp_hypervisor.Common.{ℕ, ◌+◌, ◌*◌, ◌/◌, ◌%◌, ◌^◌, ◌<◌, ◌≡◌, refl, arith}
use zpp_hypervisor.Word.Fields.{put_lem, put_low_lem, bit_and_mask}
use zpp_hypervisor.MtrrVariableBase

pub memory_type-eq : (m : ℕ) → MtrrVariableBase.memory_type m ≡ m % 2 ^ 8
unfolding MtrrVariableBase.memory_type
memory_type-eq m = bit_and_mask 8 m

pub set_memory_type-eq :
    (v m : ℕ) → m < 2 ^ 64 → MtrrVariableBase.set_memory_type v m ≡ m / 2 ^ 8 * 2 ^ 8 + v % 2 ^ 8
unfolding MtrrVariableBase.set_memory_type
set_memory_type-eq v m h =
    rw (bit_and_mask 8 v) (put_low_lem 56 8 m refl h (v % 2 ^ 8) (omega arith))

pub page_number-eq : (m : ℕ) → MtrrVariableBase.page_number m ≡ m / 2 ^ 12 % 2 ^ 40
unfolding MtrrVariableBase.page_number
page_number-eq m = bit_and_mask 40 (m / 2 ^ 12)

pub set_page_number-eq :
    (v m : ℕ)
    → m < 2 ^ 64
    → MtrrVariableBase.set_page_number v m ≡ m / 2 ^ 52 * 2 ^ 52 + v % 2 ^ 40 * 2 ^ 12 + m % 2 ^ 12
unfolding MtrrVariableBase.set_page_number
set_page_number-eq v m h =
    rw (bit_and_mask 40 v) (omega (arith, put_lem 12 40 12 m refl h (v % 2 ^ 40) (omega arith)))
