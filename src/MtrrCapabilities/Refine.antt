-- ===== src/MtrrCapabilities/Refine.antt =====
-- hypervisor/include/zpp/x64/intel/mtrr.h: `mtrr_capabilities` against the record of its fields.
use zpp_hypervisor.Common.{
  ℕ, Bool, List, [], ◌∷◌, ◌/◌, ◌%◌, ◌^◌, ◌<◌, ◌≡◌, refl, arith, ap, sym, ◌∙◌,
}
use zpp_hypervisor.Word.{flag}
use zpp_hypervisor.Word.Fields.{flag-lt}
use zpp_hypervisor.MtrrCapabilities
use zpp_hypervisor.MtrrCapabilities.Forms

-- The fields, a flag as 0 or 1.
pub record Fields : Type 0 where
  pub variable_range_register_count : ℕ
  pub fixed_range_registers_supported : ℕ
  pub write_combining : ℕ
  pub system_management_range_register : ℕ

-- What the getters return.
abbrev pub fields : ℕ → Fields
fields m = record {
  variable_range_register_count = MtrrCapabilities.variable_range_register_count m;
  fixed_range_registers_supported = flag (MtrrCapabilities.fixed_range_registers_supported m);
  write_combining = flag (MtrrCapabilities.write_combining m);
  system_management_range_register = flag (MtrrCapabilities.system_management_range_register m);
}

-- A call of a setter.
pub data Update : Type 0 where
  set_variable_range_register_count : ℕ → Update
  set_fixed_range_registers_supported : Bool → Update
  set_write_combining : Bool → Update
  set_system_management_range_register : Bool → Update

-- What the call does to the word.
abbrev pub apply : Update → ℕ → ℕ
apply (set_variable_range_register_count v) m =
    MtrrCapabilities.set_variable_range_register_count v m
apply (set_fixed_range_registers_supported v) m =
    MtrrCapabilities.set_fixed_range_registers_supported v m
apply (set_write_combining v) m = MtrrCapabilities.set_write_combining v m
apply (set_system_management_range_register v) m =
    MtrrCapabilities.set_system_management_range_register v m

-- What it means for the fields.
abbrev pub update : Update → Fields → Fields
update (set_variable_range_register_count v) r = record r {
  variable_range_register_count = v % 2 ^ 8;
}
update (set_fixed_range_registers_supported v) r = record r {
  fixed_range_registers_supported = flag v;
}
update (set_write_combining v) r = record r { write_combining = flag v }
update (set_system_management_range_register v) r = record r {
  system_management_range_register = flag v;
}

abbrev pub run : List Update → ℕ → ℕ
run [] m = m
run (u ∷ us) m = run us (apply u m)

abbrev pub run_fields : List Update → Fields → Fields
run_fields [] r = r
run_fields (u ∷ us) r = run_fields us (update u r)

record Agree (a b : Fields) : Type 0 where
  variable_range_register_count : a.variable_range_register_count ≡ b.variable_range_register_count
  fixed_range_registers_supported :
      a.fixed_range_registers_supported ≡ b.fixed_range_registers_supported
  write_combining : a.write_combining ≡ b.write_combining
  system_management_range_register :
      a.system_management_range_register ≡ b.system_management_range_register

fields_ext : {a b : Fields} → Agree a b → a ≡ b
fields_ext e = λ i. record {
  variable_range_register_count = e.variable_range_register_count i;
  fixed_range_registers_supported = e.fixed_range_registers_supported i;
  write_combining = e.write_combining i;
  system_management_range_register = e.system_management_range_register i;
}

-- The fields by division and remainder.
abbrev numbers : ℕ → Fields
numbers m = record {
  variable_range_register_count = m % 2 ^ 8;
  fixed_range_registers_supported = m / 2 ^ 8 % 2 ^ 1;
  write_combining = m / 2 ^ 10 % 2 ^ 1;
  system_management_range_register = m / 2 ^ 11 % 2 ^ 1;
}

fields-numbers : (m : ℕ) → fields m ≡ numbers m
fields-numbers m = λ i. record {
  variable_range_register_count = Forms.variable_range_register_count-eq m i;
  fixed_range_registers_supported = Forms.fixed_range_registers_supported-eq m i;
  write_combining = Forms.write_combining-eq m i;
  system_management_range_register = Forms.system_management_range_register-eq m i;
}

agree : (u : Update) (m : ℕ) → m < 2 ^ 64 → Agree (numbers (apply u m)) (update u (numbers m))
agree (set_variable_range_register_count v) m h =
    omega (arith, Forms.set_variable_range_register_count-eq v m h)
agree (set_fixed_range_registers_supported v) m h =
    omega (arith, Forms.set_fixed_range_registers_supported-eq v m h, flag-lt v)
agree (set_write_combining v) m h = omega (arith, Forms.set_write_combining-eq v m h, flag-lt v)
agree (set_system_management_range_register v) m h =
    omega (arith, Forms.set_system_management_range_register-eq v m h, flag-lt v)

pub apply-lt : (u : Update) (m : ℕ) → m < 2 ^ 64 → apply u m < 2 ^ 64
apply-lt (set_variable_range_register_count v) m h =
    omega (arith, Forms.set_variable_range_register_count-eq v m h)
apply-lt (set_fixed_range_registers_supported v) m h =
    omega (arith, Forms.set_fixed_range_registers_supported-eq v m h, flag-lt v)
apply-lt (set_write_combining v) m h = omega (arith, Forms.set_write_combining-eq v m h, flag-lt v)
apply-lt (set_system_management_range_register v) m h =
    omega (arith, Forms.set_system_management_range_register-eq v m h, flag-lt v)

pub fields-apply : (u : Update) (m : ℕ) → m < 2 ^ 64 → fields (apply u m) ≡ update u (fields m)
fields-apply u m h =
    fields-numbers (apply u m) ∙ fields_ext (agree u m h) ∙ ap (update u) (sym (fields-numbers m))

-- Any sequence of setter calls on a 64-bit word keeps it a 64-bit word, and what the getters then
-- return is the record of the fields before with the same updates made one by one.
pub mtrr_capabilities_fields-run :
    (us : List Update) (m : ℕ)
    → m < 2 ^ 64
    → (run us m < 2 ^ 64) × (fields (run us m) ≡ run_fields us (fields m))
mtrr_capabilities_fields-run [] m h = (h, refl)
mtrr_capabilities_fields-run (u ∷ us) m h =
    let (small, e) = mtrr_capabilities_fields-run us (apply u m) (apply-lt u m h) in
    (small, e ∙ ap (run_fields us) (fields-apply u m h))
