-- ===== src/Word/Bits.antt =====
-- `&` and `|` on the bits of words.
use Prim.Native.Nat.{min, max, bit_and, bit_or}
use native.Mathlib.Nat.{pow-suc, div-div-eq-div-mul}
use zpp_hypervisor.Common.{
  ℕ, zero, suc, ◌/◌, ◌%◌, ◌^◌, ◌≡◌, ◌&&◌, ◌||◌, ap, sym, ◌∙◌, arith, ◌+◌, ◌*◌, ◌<◌,
}
use zpp_hypervisor.Word.{◌&&&◌, ◌|||◌, bit}
use zpp_hypervisor.Word.Fields.{bit_or-zero}
use zpp_hypervisor.Word.Digits.{bit_and_step, bit_or_step}

div_suc : (x k : ℕ) → x / 2 ^ suc k ≡ x / 2 / 2 ^ k
div_suc x k = ap (λ t. x / t) (pow-suc 2 k ∙ omega arith) ∙ sym (div-div-eq-div-mul x 2 (2 ^ k))

digit_and : (k a b : ℕ) → bit_and a b / 2 ^ k % 2 ≡ min (a / 2 ^ k % 2) (b / 2 ^ k % 2)
digit_and zero a b = ground (arith, bit_and_step a b)
digit_and (suc k) a b =
    let half : bit_and a b / 2 ≡ bit_and (a / 2) (b / 2) = ground (arith, bit_and_step a b) in
    rw (div_suc (bit_and a b) k, div_suc a k, div_suc b k, half) (digit_and k (a / 2) (b / 2))

digit_or : (k a b : ℕ) → bit_or a b / 2 ^ k % 2 ≡ max (a / 2 ^ k % 2) (b / 2 ^ k % 2)
digit_or zero a b = ground (arith, bit_or_step a b)
digit_or (suc k) a b =
    let half : bit_or a b / 2 ≡ bit_or (a / 2) (b / 2) = ground (arith, bit_or_step a b) in
    rw (div_suc (bit_or a b) k, div_suc a k, div_suc b k, half) (digit_or k (a / 2) (b / 2))

pub bit-and : (k a b : ℕ) → bit k (a &&& b) ≡ (bit k a && bit k b)
bit-and k a b = ground (arith, digit_and k a b)

pub bit-or : (k a b : ℕ) → bit k (a ||| b) ≡ (bit k a || bit k b)
bit-or k a b = ground (arith, digit_or k a b)

bit_or-one : (q b : ℕ) → b < 2 → q ||| b ≡ q / 2 * 2 + max (q % 2) b
bit_or-one q b f =
    let none : b / 2 ≡ 0 = omega arith in
    let low : b % 2 ≡ b = omega arith in
    bit_or_step q b ∙ rw (none, low) (ap (λ t. t * 2 + max (q % 2) b) (bit_or-zero (q / 2)))

-- `|` with four bits, of which the highest is on the lowest of the other word's.
pub bit_or-spill :
    (q w : ℕ)
    → w < 2 ^ 4
    → q * 2 ^ 3 ||| w ≡ q / 2 * 2 ^ 4 + max (q % 2) (w / 2 ^ 3) * 2 ^ 3 + w % 2 ^ 3
bit_or-spill q w f = ground (
  arith,
  bit_or_step (q * 2 ^ 3) w,
  bit_or_step (q * 2 ^ 2) (w / 2),
  bit_or_step (q * 2) (w / 2 / 2),
  bit_or-one q (w / 2 ^ 3) (omega arith),
)
