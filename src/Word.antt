-- ===== src/Word.antt =====
-- The 64-bit unsigned arithmetic of the source, on native numbers: `&`, `|`, `~`, `<<`, `>>`, and
-- the conversions between `bool` and `std::uint64_t`.
mod Digits
pub mod Fields
pub mod Bits
use Prim.Native.Nat.{bit_and, bit_or}
use zpp_hypervisor.Common.{ℕ, ◌+◌, ◌-◌, ◌*◌, ◌/◌, ◌%◌, ◌^◌, Bool, true, false, not, ◌==◌}

abbrev pub u64 : ℕ → ℕ
u64 n = n % 2 ^ 64

infixl 75 ◌<<<◌ ◌>>>◌
infixl 60 ◌&&&◌
infixl 55 ◌|||◌
infix 80 ~◌
abbrev pub ◌<<<◌ : ℕ → ℕ → ℕ
x <<< k = u64 (x * 2 ^ k)

abbrev pub ◌>>>◌ : ℕ → ℕ → ℕ
x >>> k = x / 2 ^ k

abbrev pub ◌&&&◌ : ℕ → ℕ → ℕ
x &&& y = bit_and x y

abbrev pub ◌|||◌ : ℕ → ℕ → ℕ
x ||| y = bit_or x y

-- `~x` of a 64-bit x.
abbrev pub ~◌ : ℕ → ℕ
~ x = 2 ^ 64 - 1 - x

-- `a - b` of 64-bit values; `-` on ℕ stops at 0.
abbrev pub sub64 : ℕ → ℕ → ℕ
sub64 a b = u64 (a + 2 ^ 64 - b)

-- `std::uint64_t{value}` of a bool.
abbrev pub flag : Bool → ℕ
flag true = 1
flag false = 0

-- The conversion of an integer to bool.
abbrev pub truthy : ℕ → Bool
truthy n = not (n == 0)

-- Bit `k` of a word.
abbrev pub bit : ℕ → ℕ → Bool
bit k x = x / 2 ^ k % 2 == 1
