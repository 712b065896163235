-- ===== src/SegmentDescriptor/Parts.antt =====
-- hypervisor/include/zpp/x64/segment_descriptor.h: the limit and the base of a descriptor, which
-- are kept in parts.
use zpp_hypervisor.Common.{
  ℕ, ◌+◌, ◌*◌, ◌/◌, ◌%◌, ◌^◌, ◌<◌, ◌≡◌, List, [], ◌∷◌, refl, ap, ◌∙◌, arith,
}
use zpp_hypervisor.Word.{◌<<<◌, ◌>>>◌, ◌&&&◌, ◌|||◌, ~◌}
use zpp_hypervisor.Word.Fields.{bit_and_mask, bit_or_low_first, put_low_lem}
use zpp_hypervisor.SegmentEntry
use zpp_hypervisor.SegmentEntry.Forms
use zpp_hypervisor.SegmentEntry.Refine.{
  Fields, Update, set_limit_low, set_limit_high, set_base_low, set_base_middle, set_base_high,
  fields, run_fields, segment_fields-run,
}
use zpp_hypervisor.SegmentDescriptor.{
  SegmentDescriptor, limit, set_limit, base, set_base, base_upper, set_base_upper, base_extended,
  set_base_extended,
}

-- Parts put together by shifts.
two_parts : (a b : ℕ) → a < 2 ^ 16 → b < 2 ^ 16 → a ||| b <<< 16 ≡ b * 2 ^ 16 + a
two_parts a b p q =
    let whole : b <<< 16 ≡ b * 2 ^ 16 = omega arith in rw whole (bit_or_low_first 16 b a p)

pub limit-parts :
    (d : SegmentDescriptor)
    → limit d ≡ (fields d.entry).limit_high * 2 ^ 16 + (fields d.entry).limit_low
unfolding limit
limit-parts d =
    two_parts (SegmentEntry.limit_low d.entry) (SegmentEntry.limit_high d.entry)
      (omega (arith, Forms.limit_low-eq d.entry)) (omega (arith, Forms.limit_high-eq d.entry))

pub base-parts :
    (d : SegmentDescriptor)
    → base d
      ≡ (fields d.entry).base_high * 2 ^ 24
        + (fields d.entry).base_middle * 2 ^ 16
        + (fields d.entry).base_low
unfolding base
base-parts d =
    let low = SegmentEntry.base_low d.entry in
    let middle = SegmentEntry.base_middle d.entry in
    let high = SegmentEntry.base_high d.entry in
    let low_fits : low < 2 ^ 16 = omega (arith, Forms.base_low-eq d.entry) in
    let middle_fits : middle < 2 ^ 8 = omega (arith, Forms.base_middle-eq d.entry) in
    let high_fits : high < 2 ^ 8 = omega (arith, Forms.base_high-eq d.entry) in
    let whole : high <<< 24 ≡ high * 2 ^ 24 = omega arith in
    let both : (middle * 2 ^ 16 + low) ||| high <<< 24 ≡ high * 2 ^ 24 + (middle * 2 ^ 16 + low) =
      rw whole (bit_or_low_first 24 high (middle * 2 ^ 16 + low) (omega arith)) in
    ap (λ x. x ||| high <<< 24) (two_parts low middle low_fits (omega arith)) ∙ both ∙ omega arith

base-lt : (d : SegmentDescriptor) → base d < 2 ^ 32
base-lt d = omega (
  arith,
  base-parts d,
  Forms.base_low-eq d.entry,
  Forms.base_middle-eq d.entry,
  Forms.base_high-eq d.entry,
)

pub base_extended-parts :
    (d : SegmentDescriptor) → base_extended d ≡ d.extended % 2 ^ 32 * 2 ^ 32 + base d
unfolding base_extended base_upper
base_extended-parts d =
    let masked : d.extended &&& 0xffffffff ≡ d.extended % 2 ^ 32 = bit_and_mask 32 d.extended in
    let whole : (d.extended % 2 ^ 32) <<< 32 ≡ d.extended % 2 ^ 32 * 2 ^ 32 = omega arith in
    rw (masked, whole) (bit_or_low_first 32 (d.extended % 2 ^ 32) (base d) (base-lt d))

-- The setters by the fields of the entry.
module _ (v : ℕ) (d : SegmentDescriptor) (h : d.entry < 2 ^ 64) where
  abbrev pub limit_calls : List Update
  limit_calls = set_limit_low (v &&& 0xffff) ∷ set_limit_high ((v >>> 16) &&& 0xf) ∷ []

  pub set_limit-fields :
      (set_limit v d).entry < 2 ^ 64
      × (fields (set_limit v d).entry ≡ run_fields limit_calls (fields d.entry))
  unfolding set_limit
  set_limit-fields = segment_fields-run limit_calls d.entry h

  abbrev pub base_calls : List Update
  base_calls =
      set_base_low (v &&& 0xffff)
      ∷ set_base_middle ((v >>> 16) &&& 0xff)
      ∷ set_base_high ((v >>> 24) &&& 0xff)
      ∷ []

  pub set_base-fields :
      (set_base v d).entry < 2 ^ 64
      × (fields (set_base v d).entry ≡ run_fields base_calls (fields d.entry))
  unfolding set_base
  set_base-fields = segment_fields-run base_calls d.entry h

  -- A limit of 20 bits is read back, and the base and its upper half stay.
  pub limit-set_limit :
      (limit (set_limit v d) ≡ v % 2 ^ 20)
      × (base (set_limit v d) ≡ base d)
      × ((set_limit v d).extended ≡ d.extended)
  unfolding set_limit
  limit-set_limit =
      let e = set_limit-fields.1 in
      (
        omega (
          arith,
          limit-parts (set_limit v d),
          ap (λ (f : Fields). f.limit_low) e,
          ap (λ (f : Fields). f.limit_high) e,
          bit_and_mask 16 v,
          bit_and_mask 4 (v / 2 ^ 16),
        ),
        omega (
          arith,
          base-parts (set_limit v d),
          base-parts d,
          ap (λ (f : Fields). f.base_low) e,
          ap (λ (f : Fields). f.base_middle) e,
          ap (λ (f : Fields). f.base_high) e,
        ),
        refl,
      )

  base-set_base : (base (set_base v d) ≡ v % 2 ^ 32) × (limit (set_base v d) ≡ limit d)
  base-set_base =
      let e = set_base-fields.1 in
      (
        omega (
          arith,
          base-parts (set_base v d),
          ap (λ (f : Fields). f.base_low) e,
          ap (λ (f : Fields). f.base_middle) e,
          ap (λ (f : Fields). f.base_high) e,
          bit_and_mask 16 v,
          bit_and_mask 8 (v / 2 ^ 16),
          bit_and_mask 8 (v / 2 ^ 24),
        ),
        omega (
          arith,
          limit-parts (set_base v d),
          limit-parts d,
          ap (λ (f : Fields). f.limit_low) e,
          ap (λ (f : Fields). f.limit_high) e,
        ),
      )

pub extended-set_base_upper :
    (w : ℕ) (d : SegmentDescriptor)
    → d.extended < 2 ^ 64
    → (set_base_upper w d).extended % 2 ^ 32 ≡ w % 2 ^ 32
unfolding set_base_upper
extended-set_base_upper w d h =
    let part : w &&& 0xffffffff ≡ w % 2 ^ 32 = bit_and_mask 32 w in
    let put : (d.extended &&& ~ 0xffffffff) ||| (w % 2 ^ 32)
        ≡ d.extended / 2 ^ 32 * 2 ^ 32 + w % 2 ^ 32 =
      put_low_lem 32 32 d.extended refl h (w % 2 ^ 32) (omega arith) in
    ap (λ x. ((d.extended &&& ~ 0xffffffff) ||| x) % 2 ^ 32) part
    ∙ ap (λ x. x % 2 ^ 32) put
    ∙ omega arith

extended-kept :
    (v : ℕ) (d : SegmentDescriptor) → d.extended < 2 ^ 64 → (set_base v d).extended < 2 ^ 64
unfolding set_base
extended-kept v d g = g

base-set_base_upper : (w : ℕ) (d : SegmentDescriptor) → base (set_base_upper w d) ≡ base d
unfolding base set_base_upper
base-set_base_upper w d = refl

-- A 64-bit base that is set in a descriptor of two 64-bit words is read back whole.
pub base_extended-set_base_extended :
    (v : ℕ) (d : SegmentDescriptor)
    → v < 2 ^ 64
    → d.entry < 2 ^ 64
    → d.extended < 2 ^ 64
    → base_extended (set_base_extended v d) ≡ v
unfolding set_base_extended
base_extended-set_base_extended v d f h g =
    let low : v &&& 0xffffffff ≡ v % 2 ^ 32 = bit_and_mask 32 v in
    let high : (v >>> 32) &&& 0xffffffff ≡ v / 2 ^ 32 % 2 ^ 32 = bit_and_mask 32 (v / 2 ^ 32) in
    let d₁ = set_base (v &&& 0xffffffff) d in
    let upper = extended-set_base_upper ((v >>> 32) &&& 0xffffffff) d₁ (extended-kept _ d g) in
    let lower : base (set_base_upper ((v >>> 32) &&& 0xffffffff) d₁) ≡ (v &&& 0xffffffff) % 2 ^ 32 =
      base-set_base_upper ((v >>> 32) &&& 0xffffffff) d₁
      ∙ (base-set_base (v &&& 0xffffffff) d h).0 in
    base_extended-parts (set_base_upper ((v >>> 32) &&& 0xffffffff) d₁)
    ∙ omega (arith, upper, lower, low, high)
