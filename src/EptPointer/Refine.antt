-- ===== src/EptPointer/Refine.antt =====
-- hypervisor/include/zpp/x64/intel/ept_pointer.h: `ept_pointer` against the record of its fields.
use zpp_hypervisor.Common.{
  ℕ, Bool, not, List, [], ◌∷◌, ◌+◌, ◌*◌, ◌/◌, ◌%◌, ◌^◌, ◌<◌, ◌≡◌, refl, arith, ap, sym, ◌∙◌,
}
use zpp_hypervisor.Word.{flag}
use zpp_hypervisor.Word.Fields.{flag-lt}
use zpp_hypervisor.EptPointer
use zpp_hypervisor.EptPointer.Forms

-- The fields, a flag as 0 or 1.
pub record Fields : Type 0 where
  pub memory_type : ℕ
  pub page_walk_length : ℕ
  pub access_and_dirty : ℕ
  pub reserved : ℕ
  pub page_number : ℕ

-- What the getters return.
abbrev pub fields : ℕ → Fields
fields m = record {
  memory_type = EptPointer.memory_type m;
  page_walk_length = EptPointer.page_walk_length m;
  access_and_dirty = flag (EptPointer.access_and_dirty m);
  reserved = m / 2 ^ 9 % 2 ^ 2;
  page_number = EptPointer.page_number m;
}

-- A call of a setter.
pub data Update : Type 0 where
  set_memory_type : ℕ → Update
  set_page_walk_length : ℕ → Update
  set_access_and_dirty : Bool → Update
  set_page_number : ℕ → Update

-- What the call does to the word.
abbrev pub apply : Update → ℕ → ℕ
apply (set_memory_type v) m = EptPointer.set_memory_type v m
apply (set_page_walk_length v) m = EptPointer.set_page_walk_length v m
apply (set_access_and_dirty v) m = EptPointer.set_access_and_dirty v m
apply (set_page_number v) m = EptPointer.set_page_number v m

-- What it means for the fields.
abbrev pub update : Update → Fields → Fields
update (set_memory_type v) r = record r { memory_type = v % 2 ^ 3 }
update (set_page_walk_length v) r = record r { page_walk_length = (v + 7) % 2 ^ 3 + 1 }
update (set_access_and_dirty v) r = record r {
  access_and_dirty = flag (not v);
  reserved = 3 * flag (not v);
}
update (set_page_number v) r = record r { page_number = v % 2 ^ 40 }

abbrev pub run : List Update → ℕ → ℕ
run [] m = m
run (u ∷ us) m = run us (apply u m)

abbrev pub run_fields : List Update → Fields → Fields
run_fields [] r = r
run_fields (u ∷ us) r = run_fields us (update u r)

record Agree (a b : Fields) : Type 0 where
  memory_type : a.memory_type ≡ b.memory_type
  page_walk_length : a.page_walk_length ≡ b.page_walk_length
  access_and_dirty : a.access_and_dirty ≡ b.access_and_dirty
  reserved : a.reserved ≡ b.reserved
  page_number : a.page_number ≡ b.page_number

fields_ext : {a b : Fields} → Agree a b → a ≡ b
fields_ext e = λ i. record {
  memory_type = e.memory_type i;
  page_walk_length = e.page_walk_length i;
  access_and_dirty = e.access_and_dirty i;
  reserved = e.reserved i;
  page_number = e.page_number i;
}

-- The fields by division and remainder.
abbrev numbers : ℕ → Fields
numbers m = record {
  memory_type = m % 2 ^ 3;
  page_walk_length = m / 2 ^ 3 % 2 ^ 3 + 1;
  access_and_dirty = m / 2 ^ 8 % 2 ^ 1;
  reserved = m / 2 ^ 9 % 2 ^ 2;
  page_number = m / 2 ^ 12 % 2 ^ 40;
}

fields-numbers : (m : ℕ) → fields m ≡ numbers m
fields-numbers m = λ i. record {
  memory_type = Forms.memory_type-eq m i;
  page_walk_length = Forms.page_walk_length-eq m i;
  access_and_dirty = Forms.access_and_dirty-eq m i;
  reserved = m / 2 ^ 9 % 2 ^ 2;
  page_number = Forms.page_number-eq m i;
}

agree : (u : Update) (m : ℕ) → m < 2 ^ 64 → Agree (numbers (apply u m)) (update u (numbers m))
agree (set_memory_type v) m h = omega (arith, Forms.set_memory_type-eq v m h)
agree (set_page_walk_length v) m h = omega (arith, Forms.set_page_walk_length-eq v m h)
agree (set_access_and_dirty v) m h =
    omega (arith, Forms.set_access_and_dirty-eq v m h, flag-lt (not v))
agree (set_page_number v) m h = omega (arith, Forms.set_page_number-eq v m h)

pub apply-lt : (u : Update) (m : ℕ) → m < 2 ^ 64 → apply u m < 2 ^ 64
apply-lt (set_memory_type v) m h = omega (arith, Forms.set_memory_type-eq v m h)
apply-lt (set_page_walk_length v) m h = omega (arith, Forms.set_page_walk_length-eq v m h)
apply-lt (set_access_and_dirty v) m h =
    omega (arith, Forms.set_access_and_dirty-eq v m h, flag-lt (not v))
apply-lt (set_page_number v) m h = omega (arith, Forms.set_page_number-eq v m h)

pub fields-apply : (u : Update) (m : ℕ) → m < 2 ^ 64 → fields (apply u m) ≡ update u (fields m)
fields-apply u m h =
    fields-numbers (apply u m) ∙ fields_ext (agree u m h) ∙ ap (update u) (sym (fields-numbers m))

-- Any sequence of setter calls on a 64-bit word keeps it a 64-bit word, and what the getters then
-- return is the record of the fields before with the same updates made one by one; the update of the
-- access and dirty setter stores the inverse of its argument, in the two bits above as well.
pub ept_pointer_fields-run :
    (us : List Update) (m : ℕ)
    → m < 2 ^ 64
    → (run us m < 2 ^ 64) × (fields (run us m) ≡ run_fields us (fields m))
ept_pointer_fields-run [] m h = (h, refl)
ept_pointer_fields-run (u ∷ us) m h =
    let (small, e) = ept_pointer_fields-run us (apply u m) (apply-lt u m h) in
    (small, e ∙ ap (run_fields us) (fields-apply u m h))
