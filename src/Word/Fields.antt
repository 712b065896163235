-- ===== src/Word/Fields.antt =====
-- Bit fields as arithmetic: what the source's masks and shifts do to a word, at every width.
use Prim.Native.Nat.{bit_and, bit_or, bit_or-bitwise}
use mathlib.Core.WellFounded
use native.Mathlib.Nat.{
  pow-suc, one-le-pow, mod-eq_of_lt, mod-lt, div-add-mod, div-add-mod', div-lt_iff_lt-mul,
}
use zpp_hypervisor.Common.{
  ℕ, zero, suc, ◌+◌, ◌-◌, ◌*◌, ◌/◌, ◌%◌, ◌^◌, ◌≤◌, ◌<◌, ◌≡◌, refl, sym, ◌∙◌, ap, ap₂, ◌≡⟨◌⟩◌, ◌∎,
  arith, lt_wf, ◌==◌, Bool, true, false, not,
}
use zpp_hypervisor.Word.{◌&&&◌, ◌|||◌, ~◌, ◌<<<◌, ◌>>>◌, truthy, flag, bit}
use zpp_hypervisor.Word.Digits.{bit_or_step, bit_and_step}

-- To show something of every number, show it of 0 and pass from the half to the whole.
halving {ℓ} : (P : ℕ → Type ℓ) → P 0 → ((x : ℕ) → P (suc x / 2) → P (suc x)) → (x : ℕ) → P x
halving P first next x = WellFounded.induction lt_wf x by
  where
    by : (x : ℕ) → ((y : ℕ) → y < x → P y) → P x
    by zero below = first
    by (suc x) below = next x (below (suc x / 2) (omega arith))

pub bit_or-zero : (a : ℕ) → bit_or a 0 ≡ a
bit_or-zero =
    halving (λ a. bit_or a 0 ≡ a) refl (λ a half. omega (arith, half, bit_or_step (suc a) 0))

zero-bit_or : (a : ℕ) → bit_or 0 a ≡ a
zero-bit_or a = bit_or-bitwise 0 a

bit_and-zero : (a : ℕ) → bit_and a 0 ≡ 0
bit_and-zero =
    halving (λ a. bit_and a 0 ≡ 0) refl (λ a half. omega (arith, half, bit_and_step (suc a) 0))

-- The weight of a number doubles with the power that it is multiplied by.
mul-pow-suc : (weight k : ℕ) → weight * 2 ^ suc k ≡ 2 * (weight * 2 ^ k)
mul-pow-suc weight k = omega (ap (λ (power : ℕ). weight * power) (pow-suc 2 k), arith)

-- `|` of two fields, the upper one above the lower one's width.
pub bit_or_fields :
    (width high low : ℕ) → low < 2 ^ width → bit_or (high * 2 ^ width) low ≡ high * 2 ^ width + low
bit_or_fields zero high low fits = ground (bit_or-zero high, arith)
bit_or_fields (suc width) high low fits =
    let upper = bit_or_fields width high (low / 2) (omega arith) in
    ground (mul-pow-suc high width, bit_or_step (high * 2 ^ suc width) low, upper, arith)

bit_and_fields :
    (width high low : ℕ) → low < 2 ^ width → bit_and (high * 2 ^ width + low) (2 ^ width - 1) ≡ low
bit_and_fields zero high low fits = rw bit_and-zero (omega arith)
bit_and_fields (suc width) high low fits =
    let upper = bit_and_fields width high (low / 2) (omega arith) in
    ground (
      upper,
      pow-suc 2 width,
      mul-pow-suc high width,
      bit_and_step (high * 2 ^ suc width + low) (2 ^ suc width - 1),
      arith,
    )

-- The remainder by a power of 2, as the source writes it.
pub bit_and_mask : (k a : ℕ) → bit_and a (2 ^ k - 1) ≡ a % 2 ^ k
bit_and_mask k a =
    let split = bit_and_fields k (a / 2 ^ k) (a % 2 ^ k) in ground (split, one-le-pow k 2, arith)

-- `&` with a mask that is 0 below `k` works above `k`.
bit_and_above :
    (k a m r : ℕ) → r < 2 ^ k → bit_and (a * 2 ^ k + r) (m * 2 ^ k) ≡ bit_and a m * 2 ^ k
bit_and_above zero a m r fits = ground arith
bit_and_above (suc k) a m r fits = ground (
  arith,
  bit_and_step (a * 2 ^ suc k + r) (m * 2 ^ suc k),
  mul-pow-suc a k,
  mul-pow-suc m k,
  mul-pow-suc (bit_and a m) k,
  pow-suc 2 k,
  bit_and_above k a m (r / 2) (omega arith),
)

-- `&` with a mask that is all ones below `k` keeps what is below `k`.
bit_and_keep :
    (k a m r : ℕ)
    → r < 2 ^ k
    → bit_and (a * 2 ^ k + r) (m * 2 ^ k + (2 ^ k - 1)) ≡ bit_and a m * 2 ^ k + r
bit_and_keep zero a m r fits = ground arith
bit_and_keep (suc k) a m r fits = ground (
  arith,
  bit_and_step (a * 2 ^ suc k + r) (m * 2 ^ suc k + (2 ^ suc k - 1)),
  mul-pow-suc a k,
  mul-pow-suc m k,
  mul-pow-suc (bit_and a m) k,
  pow-suc 2 k,
  one-le-pow k 2,
  bit_and_keep k a m (r / 2) (omega arith),
)

-- `|` with a word that is 0 below `k` keeps what is below `k`.
pub bit_or_keep :
    (k a b r : ℕ) → r < 2 ^ k → bit_or (a * 2 ^ k + r) (b * 2 ^ k) ≡ bit_or a b * 2 ^ k + r
bit_or_keep zero a b r fits = ground arith
bit_or_keep (suc k) a b r fits = ground (
  arith,
  bit_or_step (a * 2 ^ suc k + r) (b * 2 ^ suc k),
  mul-pow-suc a k,
  mul-pow-suc b k,
  mul-pow-suc (bit_or a b) k,
  pow-suc 2 k,
  bit_or_keep k a b (r / 2) (omega arith),
)

mask_out_sum :
    (p q r : ℕ)
    → suc p * suc q * suc r ≡ 2 ^ 64
    → 2 ^ 64 - 1 - q * suc r % 2 ^ 64 ≡ p * suc q * suc r + r
mask_out_sum p q r e =
    let small : q * suc r < 2 ^ 64 = omega arith in omega (arith, mod-eq_of_lt small)

-- The complement of a mask of `w` ones at `s`, with `n` bits above it.
mask_out :
    (n w s : ℕ)
    → 2 ^ n * 2 ^ w * 2 ^ s ≡ 2 ^ 64
    → ~ ((2 ^ w - 1) <<< s) ≡ (2 ^ n - 1) * 2 ^ w * 2 ^ s + (2 ^ s - 1)
mask_out n w s e =
    go (2 ^ n) (2 ^ w) (2 ^ s) (one-le-pow n 2 (omega arith)) (one-le-pow w 2 (omega arith))
      (one-le-pow s 2 (omega arith)) e
  where
    go :
        (P Q R : ℕ)
        → 1 ≤ P
        → 1 ≤ Q
        → 1 ≤ R
        → P * Q * R ≡ 2 ^ 64
        → 2 ^ 64 - 1 - (Q - 1) * R % 2 ^ 64 ≡ (P - 1) * Q * R + (R - 1)
    go zero Q R a b c e = absurd (omega arith)
    go (suc p) zero R a b c e = absurd (omega arith)
    go (suc p) (suc q) zero a b c e = absurd (omega arith)
    go (suc p) (suc q) (suc r) a b c e = ground (arith, mask_out_sum p q r)

split_word : (x Q R : ℕ) → x ≡ (x / R / Q * Q + x / R % Q) * R + x % R
split_word x Q R = omega (arith, div-add-mod x R, ap (λ (t : ℕ). t * R) (div-add-mod (x / R) Q))

top_fits : (x P Q R : ℕ) → 0 < Q → 0 < R → x < P * Q * R → x / R / Q < P
top_fits x P Q R a b h = (div-lt_iff_lt-mul a).1 ((div-lt_iff_lt-mul b).1 h)

value_fits : (P Q R v : ℕ) → 1 ≤ P → 1 ≤ R → v < Q → P * Q * R ≡ 2 ^ 64 → v * R < 2 ^ 64
value_fits zero Q R v hp hr hv e = absurd (omega arith)
value_fits (suc p) Q R v hp hr hv e =
    let d : ℕ = Q - suc v in
    let q : Q ≡ suc v + d = omega arith in
    let e' : suc p * (suc v + d) * R ≡ 2 ^ 64 = rw (← q) e in omega arith

module _ (n w s x : ℕ) (e : 2 ^ n * 2 ^ w * 2 ^ s ≡ 2 ^ 64) (hx : x < 2 ^ 64) where
  abbrev above : ℕ
  above = x / 2 ^ s / 2 ^ w

  pub cleared : x &&& ~ ((2 ^ w - 1) <<< s) ≡ above * 2 ^ w * 2 ^ s + x % 2 ^ s
  cleared =
      x &&& ~ ((2 ^ w - 1) <<< s)
      ≡⟨ ap₂ ◌&&&◌ (split_word x (2 ^ w) (2 ^ s)) (mask_out n w s e) ⟩
        (above * 2 ^ w + x / 2 ^ s % 2 ^ w) * 2 ^ s + x % 2 ^ s
        &&& (2 ^ n - 1) * 2 ^ w * 2 ^ s + (2 ^ s - 1)
      ≡⟨ bit_and_keep s _ ((2 ^ n - 1) * 2 ^ w) (x % 2 ^ s)
          (mod-lt x (one-le-pow s 2 (omega arith))) ⟩
        ((above * 2 ^ w + x / 2 ^ s % 2 ^ w) &&& (2 ^ n - 1) * 2 ^ w) * 2 ^ s + x % 2 ^ s
      ≡⟨ ap (λ t. t * 2 ^ s + x % 2 ^ s)
          (bit_and_above w above (2 ^ n - 1) _ (mod-lt _ (one-le-pow w 2 (omega arith)))) ⟩
        (above &&& (2 ^ n - 1)) * 2 ^ w * 2 ^ s + x % 2 ^ s
      ≡⟨ ap (λ t. t * 2 ^ w * 2 ^ s + x % 2 ^ s)
          (bit_and_mask n above
            ∙ mod-eq_of_lt (
                top_fits x (2 ^ n) (2 ^ w) (2 ^ s) (one-le-pow w 2 (omega arith))
                  (one-le-pow s 2 (omega arith)) (rw e hx))) ⟩
        above * 2 ^ w * 2 ^ s + x % 2 ^ s ∎

  -- A setter of the source: clear `w` bits at `s`, then put `v` there. All other bits stay.
  pub put_lem :
      (v : ℕ)
      → v < 2 ^ w
      → (x &&& ~ ((2 ^ w - 1) <<< s)) ||| (v <<< s)
        ≡ x / 2 ^ s / 2 ^ w * 2 ^ w * 2 ^ s + v * 2 ^ s + x % 2 ^ s
  put_lem v hv =
      x &&& ~ ((2 ^ w - 1) <<< s) ||| v <<< s
      ≡⟨ ap₂ ◌|||◌ cleared (
          mod-eq_of_lt (
            value_fits (2 ^ n) (2 ^ w) (2 ^ s) v (one-le-pow n 2 (omega arith))
              (one-le-pow s 2 (omega arith)) hv e)) ⟩
        above * 2 ^ w * 2 ^ s + x % 2 ^ s ||| v * 2 ^ s
      ≡⟨ bit_or_keep s (above * 2 ^ w) v (x % 2 ^ s) (mod-lt x (one-le-pow s 2 (omega arith))) ⟩
        (above * 2 ^ w ||| v) * 2 ^ s + x % 2 ^ s
      ≡⟨ ap (λ t. t * 2 ^ s + x % 2 ^ s) (bit_or_fields w above v hv) ⟩
        (above * 2 ^ w + v) * 2 ^ s + x % 2 ^ s
      ≡⟨ omega arith ⟩ above * 2 ^ w * 2 ^ s + v * 2 ^ s + x % 2 ^ s ∎

pred-lt-pow : (w : ℕ) → 2 ^ w - 1 < 2 ^ w
pred-lt-pow w = omega (arith, one-le-pow w 2)

-- The same for the lowest field, which is not shifted.
pub put_low_lem :
    (n w x : ℕ)
    → 2 ^ n * 2 ^ w * 1 ≡ 2 ^ 64
    → x < 2 ^ 64
    → (v : ℕ) → v < 2 ^ w
    → (x &&& ~ (2 ^ w - 1)) ||| v ≡ x / 2 ^ w * 2 ^ w + v
put_low_lem n w x e hx v hv =
    let small : (2 ^ w - 1) * 1 < 2 ^ 64 =
      value_fits (2 ^ n) (2 ^ w) 1 (2 ^ w - 1) (one-le-pow n 2 (omega arith)) (omega arith)
        (pred-lt-pow w) e in
    let fits : v * 1 < 2 ^ 64 =
      value_fits (2 ^ n) (2 ^ w) 1 v (one-le-pow n 2 (omega arith)) (omega arith) hv e in
    let unshifted : ~ (2 ^ w - 1) ≡ ~ ((2 ^ w - 1) <<< 0) = omega arith in
    let same : v ≡ v <<< 0 = omega arith in
    let whole : x / 2 ^ 0 ≡ x = omega arith in
    ap₂ (λ a b. (x &&& a) ||| b) unshifted same
    ∙ put_lem n w 0 x e hx v hv
    ∙ ap (λ t. t / 2 ^ w * 2 ^ w * 2 ^ 0 + v * 2 ^ 0 + x % 2 ^ 0) whole
    ∙ omega arith

pub flag-lt : (b : Bool) → flag b < 2
flag-lt true = omega arith
flag-lt false = omega arith

pub flag_test : (b : Bool) → (flag b == 1) ≡ b
flag_test true = refl
flag_test false = refl

pub bit_of_flag : (b : Bool) (k x : ℕ) → x / 2 ^ k % 2 ≡ flag b → bit k x ≡ b
bit_of_flag b k x e = ap (λ t. t == 1) e ∙ flag_test b

pub flag-not : (b : Bool) → flag (not b) ≡ 1 - flag b
flag-not true = refl
flag-not false = refl

bit_and-one : (a : ℕ) → bit_and a 1 ≡ a % 2
bit_and-one a = bit_and_mask 1 a

bit_and-pow : (k x : ℕ) → bit_and x (2 ^ k) ≡ x / 2 ^ k % 2 * 2 ^ k
bit_and-pow k x =
    bit_and x (2 ^ k)
    ≡⟨ ap₂ bit_and (sym (div-add-mod' x (2 ^ k))) (omega arith) ⟩
      bit_and (x / 2 ^ k * 2 ^ k + x % 2 ^ k) (1 * 2 ^ k)
    ≡⟨ bit_and_above k (x / 2 ^ k) 1 (x % 2 ^ k) (mod-lt x (one-le-pow k 2 (omega arith))) ⟩
      bit_and (x / 2 ^ k) 1 * 2 ^ k
    ≡⟨ ap (λ t. t * 2 ^ k) (bit_and-one (x / 2 ^ k)) ⟩ x / 2 ^ k % 2 * 2 ^ k ∎

truthy-mul : (b p : ℕ) → b < 2 → 1 ≤ p → truthy (b * p) ≡ (b == 1)
truthy-mul zero p hb hp = ground arith
truthy-mul (suc zero) p hb hp = ground arith
truthy-mul (suc (suc b)) p hb hp = absurd (omega arith)

truthy-eq-one : (b : ℕ) → b < 2 → truthy b ≡ (b == 1)
truthy-eq-one zero h = refl
truthy-eq-one (suc zero) h = refl
truthy-eq-one (suc (suc b)) h = absurd (omega arith)

-- A test of one bit.
pub test_bit_lem : (k x : ℕ) → truthy (x &&& (2 ^ k)) ≡ bit k x
test_bit_lem k x =
    ap truthy (bit_and-pow k x)
    ∙ truthy-mul (x / 2 ^ k % 2) (2 ^ k) (omega arith) (one-le-pow k 2 (omega arith))

pub flag_eq_one : (b : ℕ) → b < 2 → flag (b == 1) ≡ b
flag_eq_one zero h = refl
flag_eq_one (suc zero) h = refl
flag_eq_one (suc (suc b)) h = absurd (omega arith)

-- The same as a number.
pub flag_test_bit : (k x : ℕ) → flag (truthy (x &&& (2 ^ k))) ≡ x / 2 ^ k % 2
flag_test_bit k x = ap flag (test_bit_lem k x) ∙ flag_eq_one (x / 2 ^ k % 2) (omega arith)

-- The same test after a shift.
pub flag_shift_bit : (k x : ℕ) → flag (truthy (x >>> k &&& 1)) ≡ x / 2 ^ k % 2
flag_shift_bit k x =
    ap (λ t. flag (truthy t)) (bit_and-one (x / 2 ^ k))
    ∙ ap flag (truthy-eq-one (x / 2 ^ k % 2) (omega arith))
    ∙ flag_eq_one (x / 2 ^ k % 2) (omega arith)

-- `|` of two fields, the lower one first.
pub bit_or_low_first : (k q r : ℕ) → r < 2 ^ k → r ||| q * 2 ^ k ≡ q * 2 ^ k + r
bit_or_low_first k q r fits =
    ap (λ t. t ||| q * 2 ^ k) (omega arith)
    ∙ bit_or_keep k 0 q r fits
    ∙ ap (λ t. t * 2 ^ k + r) (zero-bit_or q)

pub flag-injective : (a b : Bool) → flag a ≡ flag b → a ≡ b
flag-injective a b e = sym (flag_test a) ∙ ap (λ t. t == 1) e ∙ flag_test b

-- `cr3 & 0xfffffffffffff000`: the page that an address is in.
pub bit_and_page : (x : ℕ) → x < 2 ^ 64 → x &&& 0xfffffffffffff000 ≡ x / 2 ^ 12 * 2 ^ 12
bit_and_page x h =
    let whole : x / 2 ^ 0 ≡ x = omega arith in
    cleared 52 12 0 x refl h ∙ ap (λ t. t / 2 ^ 12 * 2 ^ 12 * 2 ^ 0 + x % 2 ^ 0) whole ∙ omega arith
