-- ===== src/Pte.antt =====
-- hypervisor/include/zpp/x64/pte.h: an entry of the x64 page tables.
pub mod Forms
pub mod Refine
use zpp_hypervisor.Common.{ℕ, Bool}
use zpp_hypervisor.Word.{◌<<<◌, ◌>>>◌, ◌&&&◌, ◌|||◌, ~◌, flag, truthy}

-- `class pte`; the number is `m_value`.
abbrev pub Pte : Type 0
Pte = ℕ

pub present : Pte → Bool
present m = truthy (m &&& 1)

pub set_present : Bool → Pte → Pte
set_present value m = (m &&& ~ 1) ||| flag value

pub write : Pte → Bool
write m = truthy (m &&& 1 <<< 1)

pub set_write : Bool → Pte → Pte
set_write value m = (m &&& ~ (1 <<< 1)) ||| flag value <<< 1

pub user : Pte → Bool
user m = truthy (m &&& 1 <<< 2)

pub set_user : Bool → Pte → Pte
set_user value m = (m &&& ~ (1 <<< 2)) ||| flag value <<< 2

pub write_through : Pte → Bool
write_through m = truthy (m &&& 1 <<< 3)

pub set_write_through : Bool → Pte → Pte
set_write_through value m = (m &&& ~ (1 <<< 3)) ||| flag value <<< 3

pub page_level_cache_disable : Pte → Bool
page_level_cache_disable m = truthy (m &&& 1 <<< 4)

pub set_page_level_cache_disable : Bool → Pte → Pte
set_page_level_cache_disable value m = (m &&& ~ (1 <<< 4)) ||| flag value <<< 4

pub access : Pte → Bool
access m = truthy (m &&& 1 <<< 5)

pub set_access : Bool → Pte → Pte
set_access value m = (m &&& ~ (1 <<< 5)) ||| flag value <<< 5

pub dirty : Pte → Bool
dirty m = truthy (m &&& 1 <<< 6)

pub set_dirty : Bool → Pte → Pte
set_dirty value m = (m &&& ~ (1 <<< 6)) ||| flag value <<< 6

pub pat : Pte → Bool
pat m = truthy (m &&& 1 <<< 7)

pub set_pat : Bool → Pte → Pte
set_pat value m = (m &&& ~ (1 <<< 7)) ||| flag value <<< 7

pub large : Pte → Bool
large m = truthy (m &&& 1 <<< 7)

pub set_large : Bool → Pte → Pte
set_large value m = (m &&& ~ (1 <<< 7)) ||| flag value <<< 7

pub global : Pte → Bool
global m = truthy (m &&& 1 <<< 8)

pub set_global : Bool → Pte → Pte
set_global value m = (m &&& ~ (1 <<< 8)) ||| flag value <<< 8

pub page_number : Pte → ℕ
page_number m = (m >>> 12) &&& 0xffffffffff

pub set_page_number : ℕ → Pte → Pte
set_page_number value m = (m &&& ~ 0xffffffffff000) ||| (value &&& 0xffffffffff) <<< 12

pub protection_key : Pte → ℕ
protection_key m = (m >>> 58) &&& 0xf

pub set_protection_key : ℕ → Pte → Pte
set_protection_key value m = (m &&& ~ 0x3c00000000000000) ||| (value &&& 0xf) <<< 58

pub execute_disable : Pte → Bool
execute_disable m = truthy (m &&& 1 <<< 63)

pub set_execute_disable : Bool → Pte → Pte
set_execute_disable value m = (m &&& ~ (1 <<< 63)) ||| flag value <<< 63
