-- ===== src/SegmentEntry/Refine.antt =====
-- hypervisor/include/zpp/x64/segment_descriptor.h: `segment_descriptor` against the record of its
-- fields.
use zpp_hypervisor.Common.{
  ℕ, Bool, not, List, [], ◌∷◌, ◌-◌, ◌/◌, ◌%◌, ◌^◌, ◌<◌, ◌≡◌, refl, arith, ap, sym, ◌∙◌,
}
use zpp_hypervisor.Word.{flag}
use zpp_hypervisor.Word.Fields.{flag-lt}
use zpp_hypervisor.SegmentEntry
use zpp_hypervisor.SegmentEntry.Forms

-- The fields, a flag as 0 or 1.
pub record Fields : Type 0 where
  pub limit_low : ℕ
  pub base_low : ℕ
  pub base_middle : ℕ
  pub type : ℕ
  pub system : ℕ
  pub privilege_level : ℕ
  pub present : ℕ
  pub limit_high : ℕ
  pub available_for_system_use : ℕ
  pub code_64_bit : ℕ
  pub default_operation_size : ℕ
  pub granularity : ℕ
  pub base_high : ℕ

-- What the getters return.
abbrev pub fields : ℕ → Fields
fields m = record {
  limit_low = SegmentEntry.limit_low m;
  base_low = SegmentEntry.base_low m;
  base_middle = SegmentEntry.base_middle m;
  type = SegmentEntry.type m;
  system = flag (SegmentEntry.system m);
  privilege_level = SegmentEntry.privilege_level m;
  present = flag (SegmentEntry.present m);
  limit_high = SegmentEntry.limit_high m;
  available_for_system_use = flag (SegmentEntry.available_for_system_use m);
  code_64_bit = flag (SegmentEntry.code_64_bit m);
  default_operation_size = flag (SegmentEntry.default_operation_size m);
  granularity = flag (SegmentEntry.granularity m);
  base_high = SegmentEntry.base_high m;
}

-- A call of a setter.
pub data Update : Type 0 where
  set_limit_low : ℕ → Update
  set_base_low : ℕ → Update
  set_base_middle : ℕ → Update
  set_type : ℕ → Update
  set_system : Bool → Update
  set_privilege_level : ℕ → Update
  set_present : Bool → Update
  set_limit_high : ℕ → Update
  set_available_for_system_use : Bool → Update
  set_code_64_bit : Bool → Update
  set_default_operation_size : Bool → Update
  set_granularity : Bool → Update
  set_base_high : ℕ → Update

-- What the call does to the word.
abbrev pub apply : Update → ℕ → ℕ
apply (set_limit_low v) m = SegmentEntry.set_limit_low v m
apply (set_base_low v) m = SegmentEntry.set_base_low v m
apply (set_base_middle v) m = SegmentEntry.set_base_middle v m
apply (set_type v) m = SegmentEntry.set_type v m
apply (set_system v) m = SegmentEntry.set_system v m
apply (set_privilege_level v) m = SegmentEntry.set_privilege_level v m
apply (set_present v) m = SegmentEntry.set_present v m
apply (set_limit_high v) m = SegmentEntry.set_limit_high v m
apply (set_available_for_system_use v) m = SegmentEntry.set_available_for_system_use v m
apply (set_code_64_bit v) m = SegmentEntry.set_code_64_bit v m
apply (set_default_operation_size v) m = SegmentEntry.set_default_operation_size v m
apply (set_granularity v) m = SegmentEntry.set_granularity v m
apply (set_base_high v) m = SegmentEntry.set_base_high v m

-- What it means for the fields.
abbrev pub update : Update → Fields → Fields
update (set_limit_low v) r = record r { limit_low = v % 2 ^ 16 }
update (set_base_low v) r = record r { base_low = v % 2 ^ 16 }
update (set_base_middle v) r = record r { base_middle = v % 2 ^ 8 }
update (set_type v) r = record r { type = v % 2 ^ 4 }
update (set_system v) r = record r { system = 1 - flag (not v) }
update (set_privilege_level v) r = record r { privilege_level = v % 2 ^ 2 }
update (set_present v) r = record r { present = flag v }
update (set_limit_high v) r = record r { limit_high = v % 2 ^ 4 }
update (set_available_for_system_use v) r = record r { available_for_system_use = flag v }
update (set_code_64_bit v) r = record r { code_64_bit = flag v }
update (set_default_operation_size v) r = record r { default_operation_size = flag v }
update (set_granularity v) r = record r { granularity = flag v }
update (set_base_high v) r = record r { base_high = v % 2 ^ 8 }

abbrev pub run : List Update → ℕ → ℕ
run [] m = m
run (u ∷ us) m = run us (apply u m)

abbrev pub run_fields : List Update → Fields → Fields
run_fields [] r = r
run_fields (u ∷ us) r = run_fields us (update u r)

record Agree (a b : Fields) : Type 0 where
  limit_low : a.limit_low ≡ b.limit_low
  base_low : a.base_low ≡ b.base_low
  base_middle : a.base_middle ≡ b.base_middle
  type : a.type ≡ b.type
  system : a.system ≡ b.system
  privilege_level : a.privilege_level ≡ b.privilege_level
  present : a.present ≡ b.present
  limit_high : a.limit_high ≡ b.limit_high
  available_for_system_use : a.available_for_system_use ≡ b.available_for_system_use
  code_64_bit : a.code_64_bit ≡ b.code_64_bit
  default_operation_size : a.default_operation_size ≡ b.default_operation_size
  granularity : a.granularity ≡ b.granularity
  base_high : a.base_high ≡ b.base_high

fields_ext : {a b : Fields} → Agree a b → a ≡ b
fields_ext e = λ i. record {
  limit_low = e.limit_low i;
  base_low = e.base_low i;
  base_middle = e.base_middle i;
  type = e.type i;
  system = e.system i;
  privilege_level = e.privilege_level i;
  present = e.present i;
  limit_high = e.limit_high i;
  available_for_system_use = e.available_for_system_use i;
  code_64_bit = e.code_64_bit i;
  default_operation_size = e.default_operation_size i;
  granularity = e.granularity i;
  base_high = e.base_high i;
}

-- The fields by division and remainder.
abbrev numbers : ℕ → Fields
numbers m = record {
  limit_low = m % 2 ^ 16;
  base_low = m / 2 ^ 16 % 2 ^ 16;
  base_middle = m / 2 ^ 32 % 2 ^ 8;
  type = m / 2 ^ 40 % 2 ^ 4;
  system = 1 - m / 2 ^ 44 % 2;
  privilege_level = m / 2 ^ 45 % 2 ^ 2;
  present = m / 2 ^ 47 % 2 ^ 1;
  limit_high = m / 2 ^ 48 % 2 ^ 4;
  available_for_system_use = m / 2 ^ 52 % 2 ^ 1;
  code_64_bit = m / 2 ^ 53 % 2 ^ 1;
  default_operation_size = m / 2 ^ 54 % 2 ^ 1;
  granularity = m / 2 ^ 55 % 2 ^ 1;
  base_high = m / 2 ^ 56 % 2 ^ 8;
}

fields-numbers : (m : ℕ) → fields m ≡ numbers m
fields-numbers m = λ i. record {
  limit_low = Forms.limit_low-eq m i;
  base_low = Forms.base_low-eq m i;
  base_middle = Forms.base_middle-eq m i;
  type = Forms.type-eq m i;
  system = Forms.system-eq m i;
  privilege_level = Forms.privilege_level-eq m i;
  present = Forms.present-eq m i;
  limit_high = Forms.limit_high-eq m i;
  available_for_system_use = Forms.available_for_system_use-eq m i;
  code_64_bit = Forms.code_64_bit-eq m i;
  default_operation_size = Forms.default_operation_size-eq m i;
  granularity = Forms.granularity-eq m i;
  base_high = Forms.base_high-eq m i;
}

agree : (u : Update) (m : ℕ) → m < 2 ^ 64 → Agree (numbers (apply u m)) (update u (numbers m))
agree (set_limit_low v) m h = omega (arith, Forms.set_limit_low-eq v m h)
agree (set_base_low v) m h = omega (arith, Forms.set_base_low-eq v m h)
agree (set_base_middle v) m h = omega (arith, Forms.set_base_middle-eq v m h)
agree (set_type v) m h = omega (arith, Forms.set_type-eq v m h)
agree (set_system v) m h = omega (arith, Forms.set_system-eq v m h, flag-lt (not v))
agree (set_privilege_level v) m h = omega (arith, Forms.set_privilege_level-eq v m h)
agree (set_present v) m h = omega (arith, Forms.set_present-eq v m h, flag-lt v)
agree (set_limit_high v) m h = omega (arith, Forms.set_limit_high-eq v m h)
agree (set_available_for_system_use v) m h =
    omega (arith, Forms.set_available_for_system_use-eq v m h, flag-lt v)
agree (set_code_64_bit v) m h = omega (arith, Forms.set_code_64_bit-eq v m h, flag-lt v)
agree (set_default_operation_size v) m h =
    omega (arith, Forms.set_default_operation_size-eq v m h, flag-lt v)
agree (set_granularity v) m h = omega (arith, Forms.set_granularity-eq v m h, flag-lt v)
agree (set_base_high v) m h = omega (arith, Forms.set_base_high-eq v m h)

pub apply-lt : (u : Update) (m : ℕ) → m < 2 ^ 64 → apply u m < 2 ^ 64
apply-lt (set_limit_low v) m h = omega (arith, Forms.set_limit_low-eq v m h)
apply-lt (set_base_low v) m h = omega (arith, Forms.set_base_low-eq v m h)
apply-lt (set_base_middle v) m h = omega (arith, Forms.set_base_middle-eq v m h)
apply-lt (set_type v) m h = omega (arith, Forms.set_type-eq v m h)
apply-lt (set_system v) m h = omega (arith, Forms.set_system-eq v m h, flag-lt (not v))
apply-lt (set_privilege_level v) m h = omega (arith, Forms.set_privilege_level-eq v m h)
apply-lt (set_present v) m h = omega (arith, Forms.set_present-eq v m h, flag-lt v)
apply-lt (set_limit_high v) m h = omega (arith, Forms.set_limit_high-eq v m h)
apply-lt (set_available_for_system_use v) m h =
    omega (arith, Forms.set_available_for_system_use-eq v m h, flag-lt v)
apply-lt (set_code_64_bit v) m h = omega (arith, Forms.set_code_64_bit-eq v m h, flag-lt v)
apply-lt (set_default_operation_size v) m h =
    omega (arith, Forms.set_default_operation_size-eq v m h, flag-lt v)
apply-lt (set_granularity v) m h = omega (arith, Forms.set_granularity-eq v m h, flag-lt v)
apply-lt (set_base_high v) m h = omega (arith, Forms.set_base_high-eq v m h)

pub fields-apply : (u : Update) (m : ℕ) → m < 2 ^ 64 → fields (apply u m) ≡ update u (fields m)
fields-apply u m h =
    fields-numbers (apply u m) ∙ fields_ext (agree u m h) ∙ ap (update u) (sym (fields-numbers m))

-- Any sequence of setter calls on a 64-bit word keeps it a 64-bit word, and what the getters then
-- return is the record of the fields before with the same updates made one by one.
pub segment_fields-run :
    (us : List Update) (m : ℕ)
    → m < 2 ^ 64
    → (run us m < 2 ^ 64) × (fields (run us m) ≡ run_fields us (fields m))
segment_fields-run [] m h = (h, refl)
segment_fields-run (u ∷ us) m h =
    let (small, e) = segment_fields-run us (apply u m) (apply-lt u m h) in
    (small, e ∙ ap (run_fields us) (fields-apply u m h))
