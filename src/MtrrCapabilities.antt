-- ===== src/MtrrCapabilities.antt =====
-- hypervisor/include/zpp/x64/intel/mtrr.h: the MTRR capabilities of the processor.
pub mod Forms
pub mod Refine
use zpp_hypervisor.Common.{ℕ, Bool}
use zpp_hypervisor.Word.{◌<<<◌, ◌&&&◌, ◌|||◌, ~◌, flag, truthy}

-- `class mtrr_capabilities`; the number is `m_value`.
abbrev pub MtrrCapabilities : Type 0
MtrrCapabilities = ℕ

pub variable_range_register_count : MtrrCapabilities → ℕ
variable_range_register_count m = m &&& 0xff

pub set_variable_range_register_count : ℕ → MtrrCapabilities → MtrrCapabilities
set_variable_range_register_count value m = (m &&& ~ 0xff) ||| (value &&& 0xff)

pub fixed_range_registers_supported : MtrrCapabilities → Bool
fixed_range_registers_supported m = truthy (m &&& 1 <<< 8)

pub set_fixed_range_registers_supported : Bool → MtrrCapabilities → MtrrCapabilities
set_fixed_range_registers_supported value m = (m &&& ~ (1 <<< 8)) ||| flag value <<< 8

pub write_combining : MtrrCapabilities → Bool
write_combining m = truthy (m &&& 1 <<< 10)

pub set_write_combining : Bool → MtrrCapabilities → MtrrCapabilities
set_write_combining value m = (m &&& ~ (1 <<< 10)) ||| flag value <<< 10

pub system_management_range_register : MtrrCapabilities → Bool
system_management_range_register m = truthy (m &&& 1 <<< 11)

pub set_system_management_range_register : Bool → MtrrCapabilities → MtrrCapabilities
set_system_management_range_register value m = (m &&& ~ (1 <<< 11)) ||| flag value <<< 11
