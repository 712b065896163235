-- ===== src/ExtendedPaging/Mtrrs.antt =====
-- hypervisor/src/hypervisor/hypervisor.cpp, `initialize_mtrrs`: the memory type ranges of the
-- processor, read into the array `mtrrs` of 8 elements.
use native.Mathlib.Nat.{pow-suc, mul-le-mul_left, mul-le-mul_right, pow-le-pow_right, one-le-pow}
use zpp_hypervisor.Common.{
  ℕ, zero, suc, ◌+◌, ◌*◌, ◌%◌, ◌^◌, ◌<◌, ◌≤◌, ◌≡◌, Bool, false, ◌==◌, ltb, refl, ap, sym, ◌∙◌,
  arith, if◌then◌else◌, update, Option, none, some, ==_ne,
}
use zpp_hypervisor.Word.{◌<<<◌, ◌>>>◌}
use zpp_hypervisor.MtrrCapabilities
use zpp_hypervisor.MtrrVariableBase
use zpp_hypervisor.MtrrVariableMask
use zpp_hypervisor.ErrorCode.{Outcome, ok, fault}

-- An element of `mtrrs`.
pub record Mtrr : Type 0 where
  pub type : ℕ
  pub valid : Bool
  pub physical_base : ℕ
  pub size : ℕ

-- The loop that doubles the size for each zero bit at the low end of the mask; `none` is a loop that
-- has not ended. A mask has 40 bits, and is not 0 here, so that 40 rounds are enough.
pub grow_size : ℕ → ℕ → ℕ → Option ℕ
grow_size zero mask size = none
grow_size (suc fuel) mask size =
    let rest = grow_size fuel (mask >>> 1) (size <<< 1) in if mask % 2 == 1 then some size else rest

-- The body of the loop over the registers: `base` and `mask` are what `rdmsr` gives.
pub read_mtrr : ℕ → ℕ → Option Mtrr
read_mtrr base mask =
    let mtrr : ℕ → Mtrr = λ size. record {
      type = MtrrVariableBase.memory_type base;
      valid = MtrrVariableMask.valid mask;
      physical_base = MtrrVariableBase.page_number base <<< 12;
      size = size;
    } in
    if MtrrVariableMask.physical_mask mask == 0
    then some (mtrr 0)
    else elim (grow_size 40 (MtrrVariableMask.physical_mask mask) 0x1000) [
      | none ↦ none
      | some size ↦ some (mtrr size)
    ]

-- The loop from register pair `i` on; an element past the array's end is undefined behaviour, and so
-- is a loop that does not end.
pub read_mtrrs : (ℕ → ℕ) → ℕ → ℕ → (ℕ → Mtrr) → Outcome (ℕ → Mtrr)
read_mtrrs rdmsr zero i mtrrs = ok mtrrs
read_mtrrs rdmsr (suc left) i mtrrs =
    elim (read_mtrr (rdmsr (0x200 + i * 2)) (rdmsr (0x201 + i * 2))) [
      | none ↦ fault
      | some mtrr ↦
          let rest = read_mtrrs rdmsr left (i + 1) (update mtrrs i mtrr) in
          if ltb i 8 then rest else fault
    ]

pub initialize_mtrrs : (ℕ → ℕ) → (ℕ → Mtrr) → Outcome (ℕ → Mtrr)
initialize_mtrrs rdmsr mtrrs =
    read_mtrrs rdmsr (MtrrCapabilities.variable_range_register_count (rdmsr 0xfe)) 0 mtrrs

-- A mask with its lowest bit at `z`: the size doubles `z` times.
grow_size_lem :
    (z q fuel size : ℕ)
    → z < fuel
    → size * 2 ^ z < 2 ^ 64
    → grow_size fuel ((2 * q + 1) * 2 ^ z) size ≡ some (size * 2 ^ z)
unfolding grow_size
grow_size_lem zero q (suc fuel) size f g = ground arith
grow_size_lem (suc z) q (suc fuel) size f g =
    let double : (2 * q + 1) * 2 ^ suc z ≡ (2 * q + 1) * 2 ^ z * 2 =
      omega (arith, ap (λ (t : ℕ). (2 * q + 1) * t) (pow-suc 2 z)) in
    let grown : size * 2 ^ suc z ≡ size * 2 * 2 ^ z =
      omega (arith, ap (λ (t : ℕ). size * t) (pow-suc 2 z)) in
    let even : ((2 * q + 1) * 2 ^ suc z % 2 == 1) ≡ false = ground (arith, double) in
    let half : ((2 * q + 1) * 2 ^ suc z) >>> 1 ≡ (2 * q + 1) * 2 ^ z = omega (arith, double) in
    let larger : size * 2 ≤ size * 2 * 2 ^ z =
      omega (arith, mul-le-mul_left (size * 2) (one-le-pow z 2 (omega arith))) in
    let doubled : size <<< 1 ≡ size * 2 = omega (arith, grown) in
    rw (even, half, doubled)
      (grow_size_lem z q fuel (size * 2) (omega arith) (omega (arith, grown)) ∙ ap some (sym grown))
grow_size_lem z q zero size f g = absurd (omega arith)

-- For a range whose mask has its lowest 1 at bit `z`, of 40, the loop ends, and the range is read with
-- a size of 2 ^ z pages and the type and base of its registers: the processor compares the bits of
-- the mask only.
pub size-read_mtrr :
    (base mask z q : ℕ)
    → MtrrVariableMask.physical_mask mask ≡ (2 * q + 1) * 2 ^ z
    → z < 40
    → read_mtrr base mask
      ≡ some (record {
        type = MtrrVariableBase.memory_type base;
        valid = MtrrVariableMask.valid mask;
        physical_base = MtrrVariableBase.page_number base <<< 12;
        size = 2 ^ 12 * 2 ^ z;
      })
unfolding read_mtrr
size-read_mtrr base mask z q e f =
    let bound : 2 ^ z ≤ 2 ^ 39 =
      pow-le-pow_right {n = 2} (omega arith) {i = z} {j = 39} (omega arith) in
    let positive : 1 ≤ 2 ^ z = one-le-pow z 2 (omega arith) in
    let odd : 2 ^ z ≤ (2 * q + 1) * 2 ^ z =
      omega (arith, mul-le-mul_right {m = 1} {n = 2 * q + 1} (2 ^ z) (omega arith)) in
    let some_bit : ((2 * q + 1) * 2 ^ z == 0) ≡ false =
      ==_ne _ 0 (λ none_. omega (arith, none_, odd)) in
    let grown = grow_size_lem z q 40 0x1000 f (omega arith) in rw e (rw some_bit (rw grown refl))
