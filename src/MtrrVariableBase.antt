-- ===== src/MtrrVariableBase.antt =====
-- hypervisor/include/zpp/x64/intel/mtrr.h: the base register of a variable range.
pub mod Forms
pub mod Refine
use zpp_hypervisor.Common.{ℕ}
use zpp_hypervisor.Word.{◌<<<◌, ◌>>>◌, ◌&&&◌, ◌|||◌, ~◌}

-- `class mtrr_variable_base`; the number is `m_value`.
abbrev pub MtrrVariableBase : Type 0
MtrrVariableBase = ℕ

pub memory_type : MtrrVariableBase → ℕ
memory_type m = m &&& 0xff

pub set_memory_type : ℕ → MtrrVariableBase → MtrrVariableBase
set_memory_type value m = (m &&& ~ 0xff) ||| (value &&& 0xff)

pub page_number : MtrrVariableBase → ℕ
page_number m = (m >>> 12) &&& 0xffffffffff

pub set_page_number : ℕ → MtrrVariableBase → MtrrVariableBase
set_page_number value m = (m &&& ~ 0xffffffffff000) ||| (value &&& 0xffffffffff) <<< 12
