-- ===== src/MemoryType.antt =====
-- hypervisor/include/zpp/x64/memory_type.h: the memory types and their underlying values.
use zpp_hypervisor.Common.{ℕ, ◌<◌, arith}

-- `enum class memory_type`.
pub data MemoryType : Type 0 where
  uncachable write_combining write_through write_protected write_back : MemoryType

-- The underlying value.
abbrev pub code : MemoryType → ℕ
code uncachable = 0
code write_combining = 1
code write_through = 4
code write_protected = 5
code write_back = 6

pub code-lt : (t : MemoryType) → code t < 8
code-lt uncachable = omega arith
code-lt write_combining = omega arith
code-lt write_through = omega arith
code-lt write_protected = omega arith
code-lt write_back = omega arith
