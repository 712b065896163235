-- ===== src/Word/Digits.antt =====
-- Masks and unions of words, one binary place at a time.
use Prim.Native.Nat.{min, max, bit_and, bit_or, digits, bitwise, bit_and-bitwise, bit_or-bitwise}
use zpp_hypervisor.Common.{
  ℕ, zero, suc, ◌+◌, ◌-◌, ◌*◌, ◌/◌, ◌%◌, ◌≤◌, ◌≡◌, refl, ap, sym, ◌∙◌, arith,
}

module _ (rest : ℕ → ℕ) (place : ℕ → ℕ → ℕ) where
  -- A round to spare changes nothing once the first number has run out.
  one_more :
      (rounds x y : ℕ)
      → x ≤ rounds
      → digits rest place (suc rounds) x y ≡ digits rest place rounds x y
  one_more zero zero y h = refl
  one_more zero (suc x) y h = absurd (omega arith)
  one_more (suc rounds) zero y h = refl
  one_more (suc rounds) (suc x) y h =
      ap (λ t. t * 2 + place (suc x % 2) (y % 2))
        (one_more rounds (suc x / 2) (y / 2) (omega arith))

  spare : (extra x y : ℕ) → digits rest place (extra + x) x y ≡ bitwise rest place x y
  spare zero x y = let none : 0 + x ≡ x = omega arith in ap (λ t. digits rest place t x y) none
  spare (suc extra) x y =
      let next : suc extra + x ≡ suc (extra + x) = omega arith in
      ap (λ t. digits rest place t x y) next
      ∙ one_more (extra + x) x y (omega arith)
      ∙ spare extra x y

  lowest_place :
      (x y : ℕ)
      → rest y ≡ rest (y / 2) * 2 + place 0 (y % 2)
      → bitwise rest place x y ≡ bitwise rest place (x / 2) (y / 2) * 2 + place (x % 2) (y % 2)
  lowest_place zero y first = first
  lowest_place (suc x) y first =
      let half = suc x / 2 in
      let enough : x - half + half ≡ x = omega arith in
      ap (λ t. t * 2 + place (suc x % 2) (y % 2))
        (ap (λ t. digits rest place t half (y / 2)) (sym enough) ∙ spare (x - half) half (y / 2))

pub bit_or_step : (a b : ℕ) → bit_or a b ≡ bit_or (a / 2) (b / 2) * 2 + max (a % 2) (b % 2)
bit_or_step a b =
    bit_or-bitwise a b
    ∙ lowest_place (λ y. y) max a b (omega arith)
    ∙ ap (λ t. t * 2 + max (a % 2) (b % 2)) (sym (bit_or-bitwise (a / 2) (b / 2)))

pub bit_and_step : (a b : ℕ) → bit_and a b ≡ bit_and (a / 2) (b / 2) * 2 + min (a % 2) (b % 2)
bit_and_step a b =
    bit_and-bitwise a b
    ∙ lowest_place (λ y. 0) min a b (omega arith)
    ∙ ap (λ t. t * 2 + min (a % 2) (b % 2)) (sym (bit_and-bitwise (a / 2) (b / 2)))
