-- ===== src/SegmentEntry.antt =====
-- hypervisor/include/zpp/x64/segment_descriptor.h: the fields in the 64-bit entry of a segment descriptor.
pub mod Forms
pub mod Refine
use zpp_hypervisor.Common.{ℕ, Bool, not, ◌+◌}
use zpp_hypervisor.Word.{◌<<<◌, ◌>>>◌, ◌&&&◌, ◌|||◌, ~◌, flag, truthy}

-- `class segment_descriptor`; the number is `m_value`.
abbrev pub SegmentEntry : Type 0
SegmentEntry = ℕ

pub limit_low : SegmentEntry → ℕ
limit_low m = m &&& 0xffff

pub set_limit_low : ℕ → SegmentEntry → SegmentEntry
set_limit_low value m = (m &&& ~ 0xffff) ||| (value &&& 0xffff)

pub base_low : SegmentEntry → ℕ
base_low m = (m >>> 16) &&& 0xffff

pub set_base_low : ℕ → SegmentEntry → SegmentEntry
set_base_low value m = (m &&& ~ (0xffff <<< 16)) ||| (value &&& 0xffff) <<< 16

pub base_middle : SegmentEntry → ℕ
base_middle m = (m >>> 32) &&& 0xff

pub set_base_middle : ℕ → SegmentEntry → SegmentEntry
set_base_middle value m = (m &&& ~ (0xff <<< 32)) ||| (value &&& 0xff) <<< 32

pub type : SegmentEntry → ℕ
type m = (m >>> (32 + 8)) &&& 0xf

pub set_type : ℕ → SegmentEntry → SegmentEntry
set_type value m = (m &&& ~ (0xf <<< (32 + 8))) ||| (value &&& 0xf) <<< (32 + 8)

pub system : SegmentEntry → Bool
system m = not (truthy ((m >>> (32 + 12)) &&& 0x1))

pub set_system : Bool → SegmentEntry → SegmentEntry
set_system value m = (m &&& ~ (0x1 <<< (32 + 12))) ||| flag (not value) <<< (32 + 12)

pub privilege_level : SegmentEntry → ℕ
privilege_level m = (m >>> (32 + 13)) &&& 0x3

pub set_privilege_level : ℕ → SegmentEntry → SegmentEntry
set_privilege_level value m = (m &&& ~ (0x3 <<< (32 + 13))) ||| (value &&& 0x3) <<< (32 + 13)

pub present : SegmentEntry → Bool
present m = truthy ((m >>> (32 + 15)) &&& 0x1)

pub set_present : Bool → SegmentEntry → SegmentEntry
set_present value m = (m &&& ~ (0x1 <<< (32 + 15))) ||| flag value <<< (32 + 15)

pub limit_high : SegmentEntry → ℕ
limit_high m = (m >>> (32 + 16)) &&& 0xf

pub set_limit_high : ℕ → SegmentEntry → SegmentEntry
set_limit_high value m = (m &&& ~ (0xf <<< (32 + 16))) ||| (value &&& 0xf) <<< (32 + 16)

pub available_for_system_use : SegmentEntry → Bool
available_for_system_use m = truthy ((m >>> (32 + 20)) &&& 0x1)

pub set_available_for_system_use : Bool → SegmentEntry → SegmentEntry
set_available_for_system_use value m = (m &&& ~ (0x1 <<< (32 + 20))) ||| flag value <<< (32 + 20)

pub code_64_bit : SegmentEntry → Bool
code_64_bit m = truthy ((m >>> (32 + 21)) &&& 0x1)

pub set_code_64_bit : Bool → SegmentEntry → SegmentEntry
set_code_64_bit value m = (m &&& ~ (0x1 <<< (32 + 21))) ||| flag value <<< (32 + 21)

pub default_operation_size : SegmentEntry → Bool
default_operation_size m = truthy ((m >>> (32 + 22)) &&& 0x1)

pub set_default_operation_size : Bool → SegmentEntry → SegmentEntry
set_default_operation_size value m = (m &&& ~ (0x1 <<< (32 + 22))) ||| flag value <<< (32 + 22)

pub granularity : SegmentEntry → Bool
granularity m = truthy ((m >>> (32 + 23)) &&& 0x1)

pub set_granularity : Bool → SegmentEntry → SegmentEntry
set_granularity value m = (m &&& ~ (0x1 <<< (32 + 23))) ||| flag value <<< (32 + 23)

pub base_high : SegmentEntry → ℕ
base_high m = (m >>> (32 + 24)) &&& 0xff

pub set_base_high : ℕ → SegmentEntry → SegmentEntry
set_base_high value m = (m &&& ~ (0xff <<< (32 + 24))) ||| (value &&& 0xff) <<< (32 + 24)
