-- ===== src/Epte.antt =====
-- hypervisor/include/zpp/x64/intel/ept.h: an entry of the extended page tables.
pub mod Forms
pub mod Refine
use zpp_hypervisor.Common.{ℕ, Bool}
use zpp_hypervisor.Word.{◌<<<◌, ◌>>>◌, ◌&&&◌, ◌|||◌, ~◌, flag, truthy}

-- `class epte`; the number is `m_value`.
abbrev pub Epte : Type 0
Epte = ℕ

pub read : Epte → Bool
read m = truthy (m &&& 1)

pub set_read : Bool → Epte → Epte
set_read value m = (m &&& ~ 1) ||| flag value

pub write : Epte → Bool
write m = truthy (m &&& 1 <<< 1)

pub set_write : Bool → Epte → Epte
set_write value m = (m &&& ~ (1 <<< 1)) ||| flag value <<< 1

pub execute : Epte → Bool
execute m = truthy (m &&& 1 <<< 2)

pub set_execute : Bool → Epte → Epte
set_execute value m = (m &&& ~ (1 <<< 2)) ||| flag value <<< 2

pub type : Epte → ℕ
type m = (m >>> 3) &&& 0x7

pub set_type : ℕ → Epte → Epte
set_type value m = (m &&& ~ (0x7 <<< 3)) ||| (value &&& 0xf) <<< 3

pub large : Epte → Bool
large m = truthy (m &&& 1 <<< 7)

pub set_large : Bool → Epte → Epte
set_large value m = (m &&& ~ (1 <<< 7)) ||| flag value <<< 7

pub accessed : Epte → Bool
accessed m = truthy (m &&& 1 <<< 8)

pub set_accessed : Bool → Epte → Epte
set_accessed value m = (m &&& ~ (1 <<< 8)) ||| flag value <<< 8

pub execute_user : Epte → Bool
execute_user m = truthy (m &&& 1 <<< 10)

pub set_execute_user : Bool → Epte → Epte
set_execute_user value m = (m &&& ~ (1 <<< 10)) ||| flag value <<< 10

pub page_number : Epte → ℕ
page_number m = (m >>> 12) &&& 0xffffffffff

pub set_page_number : ℕ → Epte → Epte
set_page_number value m = (m &&& ~ 0xffffffffff000) ||| (value &&& 0xffffffffff) <<< 12

pub large_page_number : Epte → ℕ
large_page_number m = (m >>> 21) &&& 0x7fffffff

pub set_large_page_number : ℕ → Epte → Epte
set_large_page_number value m = (m &&& ~ 0xfffffffe00000) ||| (value &&& 0x7fffffff) <<< 21

pub suppress_ve : Epte → Bool
suppress_ve m = truthy (m &&& 1 <<< 63)

pub set_suppress_ve : Bool → Epte → Epte
set_suppress_ve value m = (m &&& ~ (1 <<< 63)) ||| flag value <<< 63
