-- ===== src/MtrrVariableMask.antt =====
-- hypervisor/include/zpp/x64/intel/mtrr.h: the mask register of a variable range.
pub mod Forms
pub mod Refine
use zpp_hypervisor.Common.{ℕ, Bool}
use zpp_hypervisor.Word.{◌<<<◌, ◌>>>◌, ◌&&&◌, ◌|||◌, ~◌, flag, truthy}

-- `class mtrr_variable_mask`; the number is `m_value`.
abbrev pub MtrrVariableMask : Type 0
MtrrVariableMask = ℕ

pub valid : MtrrVariableMask → Bool
valid m = truthy (m &&& 1 <<< 11)

pub set_valid : Bool → MtrrVariableMask → MtrrVariableMask
set_valid value m = (m &&& ~ (1 <<< 11)) ||| flag value <<< 11

pub physical_mask : MtrrVariableMask → ℕ
physical_mask m = (m >>> 12) &&& 0xffffffffff

pub set_physical_mask : ℕ → MtrrVariableMask → MtrrVariableMask
set_physical_mask value m = (m &&& ~ 0xffffffffff000) ||| (value &&& 0xffffffffff) <<< 12
