-- ===== src/Crt.antt =====
-- hypervisor/src/crt/crt.cpp: the functions of the C library that the compiler calls. Memory is a
-- function from the address to the byte.
pub mod Move
pub mod Search
use zpp_hypervisor.Common.{
  ℕ, zero, suc, ◌+◌, ◌-◌, ◌%◌, Bool, ◌==◌, Option, some, none, if◌then◌else◌, leb, update, not, ℤ,
  pos, negsuc,
}

-- `b - a` of two bytes as `int`.
unfoldable pub difference : ℕ → ℕ → ℤ
difference b a = if leb a b then pos (b - a) else negsuc (a - b - 1)

-- The loop of `memcpy` and `memmove` from index `i`.
unfoldable pub copy : ℕ → ℕ → ℕ → ℕ → (ℕ → ℕ) → ℕ → ℕ
copy zero i dest src memory = memory
copy (suc left) i dest src memory =
    copy left (i + 1) dest src (update memory (dest + i) (memory (src + i)))

pub memcpy : ℕ → ℕ → ℕ → (ℕ → ℕ) → ℕ × (ℕ → ℕ)
memcpy dest src count memory = (dest, copy count 0 dest src memory)

pub memmove : ℕ → ℕ → ℕ → (ℕ → ℕ) → ℕ × (ℕ → ℕ)
memmove dest src count memory = (dest, copy count 0 dest src memory)

unfoldable pub set : ℕ → ℕ → ℕ → ℕ → (ℕ → ℕ) → ℕ → ℕ
set zero i dest value memory = memory
set (suc left) i dest value memory =
    set left (i + 1) dest value (update memory (dest + i) (value % 256))

pub memset : ℕ → ℕ → ℕ → (ℕ → ℕ) → ℕ × (ℕ → ℕ)
memset dest value count memory = (dest, set count 0 dest value memory)

-- The loop of `memcmp` from index `i`.
pub compare_bytes : ℕ → ℕ → ℕ → ℕ → (ℕ → ℕ) → ℤ
compare_bytes zero i dest src memory = pos 0
compare_bytes (suc left) i dest src memory =
    let rest = compare_bytes left (i + 1) dest src memory in
    if memory (dest + i) == memory (src + i)
    then rest
    else difference (memory (dest + i)) (memory (src + i))

pub memcmp : ℕ → ℕ → ℕ → (ℕ → ℕ) → ℤ
memcmp dest src count memory = compare_bytes count 0 dest src memory

-- `strlen` from index `i`, with a bound on the rounds of its loop, which has none.
pub strlen_from : ℕ → ℕ → ℕ → (ℕ → ℕ) → Option ℕ
strlen_from zero i string memory = none
strlen_from (suc fuel) i string memory =
    let rest = strlen_from fuel (i + 1) string memory in
    if memory (string + i) == 0 then some i else rest

pub strlen : ℕ → ℕ → (ℕ → ℕ) → Option ℕ
strlen fuel string memory = strlen_from fuel 0 string memory
