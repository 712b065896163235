-- ===== src/MtrrVariableMask/Refine.antt =====
-- hypervisor/include/zpp/x64/intel/mtrr.h: `mtrr_variable_mask` against the record of its fields.
use zpp_hypervisor.Common.{
  ℕ, Bool, List, [], ◌∷◌, ◌/◌, ◌%◌, ◌^◌, ◌<◌, ◌≡◌, refl, arith, ap, sym, ◌∙◌,
}
use zpp_hypervisor.Word.{flag}
use zpp_hypervisor.Word.Fields.{flag-lt}
use zpp_hypervisor.MtrrVariableMask
use zpp_hypervisor.MtrrVariableMask.Forms

-- The fields, a flag as 0 or 1.
pub record Fields : Type 0 where
  pub valid : ℕ
  pub physical_mask : ℕ

-- What the getters return.
abbrev pub fields : ℕ → Fields
fields m = record {
  valid = flag (MtrrVariableMask.valid m);
  physical_mask = MtrrVariableMask.physical_mask m;
}

-- A call of a setter.
pub data Update : Type 0 where
  set_valid : Bool → Update
  set_physical_mask : ℕ → Update

-- What the call does to the word.
abbrev pub apply : Update → ℕ → ℕ
apply (set_valid v) m = MtrrVariableMask.set_valid v m
apply (set_physical_mask v) m = MtrrVariableMask.set_physical_mask v m

-- What it means for the fields.
abbrev pub update : Update → Fields → Fields
update (set_valid v) r = record r { valid = flag v }
update (set_physical_mask v) r = record r { physical_mask = v % 2 ^ 40 }

abbrev pub run : List Update → ℕ → ℕ
run [] m = m
run (u ∷ us) m = run us (apply u m)

abbrev pub run_fields : List Update → Fields → Fields
run_fields [] r = r
run_fields (u ∷ us) r = run_fields us (update u r)

record Agree (a b : Fields) : Type 0 where
  valid : a.valid ≡ b.valid
  physical_mask : a.physical_mask ≡ b.physical_mask

fields_ext : {a b : Fields} → Agree a b → a ≡ b
fields_ext e = λ i. record { valid = e.valid i; physical_mask = e.physical_mask i }

-- The fields by division and remainder.
abbrev numbers : ℕ → Fields
numbers m = record { valid = m / 2 ^ 11 % 2 ^ 1; physical_mask = m / 2 ^ 12 % 2 ^ 40 }

fields-numbers : (m : ℕ) → fields m ≡ numbers m
fields-numbers m =
    λ i. record { valid = Forms.valid-eq m i; physical_mask = Forms.physical_mask-eq m i }

agree : (u : Update) (m : ℕ) → m < 2 ^ 64 → Agree (numbers (apply u m)) (update u (numbers m))
agree (set_valid v) m h = omega (arith, Forms.set_valid-eq v m h, flag-lt v)
agree (set_physical_mask v) m h = omega (arith, Forms.set_physical_mask-eq v m h)

pub apply-lt : (u : Update) (m : ℕ) → m < 2 ^ 64 → apply u m < 2 ^ 64
apply-lt (set_valid v) m h = omega (arith, Forms.set_valid-eq v m h, flag-lt v)
apply-lt (set_physical_mask v) m h = omega (arith, Forms.set_physical_mask-eq v m h)

pub fields-apply : (u : Update) (m : ℕ) → m < 2 ^ 64 → fields (apply u m) ≡ update u (fields m)
fields-apply u m h =
    fields-numbers (apply u m) ∙ fields_ext (agree u m h) ∙ ap (update u) (sym (fields-numbers m))

-- Any sequence of setter calls on a 64-bit word keeps it a 64-bit word, and what the getters then
-- return is the record of the fields before with the same updates made one by one.
pub mtrr_variable_mask_fields-run :
    (us : List Update) (m : ℕ)
    → m < 2 ^ 64
    → (run us m < 2 ^ 64) × (fields (run us m) ≡ run_fields us (fields m))
mtrr_variable_mask_fields-run [] m h = (h, refl)
mtrr_variable_mask_fields-run (u ∷ us) m h =
    let (small, e) = mtrr_variable_mask_fields-run us (apply u m) (apply-lt u m h) in
    (small, e ∙ ap (run_fields us) (fields-apply u m h))
