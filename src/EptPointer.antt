-- ===== src/EptPointer.antt =====
-- hypervisor/include/zpp/x64/intel/ept_pointer.h: the pointer to the extended page tables.
pub mod Forms
pub mod Refine
use zpp_hypervisor.Common.{ℕ, Bool, ◌+◌}
use zpp_hypervisor.Word.{◌<<<◌, ◌>>>◌, ◌&&&◌, ◌|||◌, ~◌, flag, truthy, sub64}

-- `class ept_pointer`; the number is `m_value`.
abbrev pub EptPointer : Type 0
EptPointer = ℕ

pub memory_type : EptPointer → ℕ
memory_type m = (m >>> 0) &&& 0x7

pub set_memory_type : ℕ → EptPointer → EptPointer
set_memory_type value m = (m &&& ~ 0x7) ||| (value &&& 0x7) <<< 0

pub page_walk_length : EptPointer → ℕ
page_walk_length m = ((m >>> 3) &&& 0x7) + 1

pub set_page_walk_length : ℕ → EptPointer → EptPointer
set_page_walk_length value m = (m &&& ~ (0x7 <<< 3)) ||| (sub64 value 1 &&& 0x7) <<< 3

pub access_and_dirty : EptPointer → Bool
access_and_dirty m = truthy (m &&& 1 <<< 8)

pub set_access_and_dirty : Bool → EptPointer → EptPointer
set_access_and_dirty value m = (m &&& ~ (0x7 <<< 8)) ||| (sub64 (flag value) 1 &&& 0x7) <<< 8

pub page_number : EptPointer → ℕ
page_number m = (m >>> 12) &&& 0xffffffffff

pub set_page_number : ℕ → EptPointer → EptPointer
set_page_number value m = (m &&& ~ 0xffffffffff000) ||| (value &&& 0xffffffffff) <<< 12
