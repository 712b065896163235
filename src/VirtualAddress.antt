-- ===== src/VirtualAddress.antt =====
-- hypervisor/include/zpp/x64/virtual_address.h: the parts of a virtual address.
pub mod Forms
pub mod Refine
use zpp_hypervisor.Common.{ℕ, ◌+◌, ◌*◌}
use zpp_hypervisor.Word.{◌<<<◌, ◌>>>◌, ◌&&&◌, ◌|||◌}

-- `class virtual_address`; the number is `m_value`.
abbrev pub VirtualAddress : Type 0
VirtualAddress = ℕ

pub offset : VirtualAddress → ℕ
offset m = m &&& 0xfff

pub set_offset : ℕ → VirtualAddress → VirtualAddress
set_offset value m = (m &&& 0xfffffffffffff000) ||| (value &&& 0xfff)

pub large_offset : VirtualAddress → ℕ
large_offset m = m &&& 0x1fffff

pub set_large_offset : ℕ → VirtualAddress → VirtualAddress
set_large_offset value m = (m &&& 0xffffffffffe00000) ||| (value &&& 0x1fffff)

pub huge_offset : VirtualAddress → ℕ
huge_offset m = m &&& 0x3fffffff

pub set_huge_offset : ℕ → VirtualAddress → VirtualAddress
set_huge_offset value m = (m &&& 0xffffffffc0000000) ||| (value &&& 0x3fffffff)

pub pte : VirtualAddress → ℕ
pte m = (m >>> 12) &&& 0x1ff

pub set_pte : ℕ → VirtualAddress → VirtualAddress
set_pte value m = (m &&& 0xffffffffffe00fff) ||| (value &&& 0x1ff) <<< 12

pub pde : VirtualAddress → ℕ
pde m = (m >>> (12 + 9)) &&& 0x1ff

pub set_pde : ℕ → VirtualAddress → VirtualAddress
set_pde value m = (m &&& 0xffffffffc01fffff) ||| (value &&& 0x1ff) <<< (12 + 9)

pub pdpte : VirtualAddress → ℕ
pdpte m = (m >>> (12 + 9 * 2)) &&& 0x1ff

pub set_pdpte : ℕ → VirtualAddress → VirtualAddress
set_pdpte value m = (m &&& 0xffffff803fffffff) ||| (value &&& 0x1ff) <<< (12 + 9 * 2)

pub pml4e : VirtualAddress → ℕ
pml4e m = (m >>> (12 + 9 * 3)) &&& 0x1ff

pub set_pml4e : ℕ → VirtualAddress → VirtualAddress
set_pml4e value m = (m &&& 0xffff007fffffffff) ||| (value &&& 0x1ff) <<< (12 + 9 * 3)
