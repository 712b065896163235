-- ===== src/Epte/Refine.antt =====
-- hypervisor/include/zpp/x64/intel/ept.h: `epte` against the record of its fields.
use zpp_hypervisor.Common.{
  ℕ, Bool, List, [], ◌∷◌, ◌/◌, ◌%◌, ◌^◌, ◌<◌, ◌≡◌, refl, arith, ap, sym, ◌∙◌,
}
use Prim.Native.Nat.{max}
use zpp_hypervisor.Word.{flag}
use zpp_hypervisor.Word.Fields.{flag-lt}
use zpp_hypervisor.Epte
use zpp_hypervisor.Epte.Forms

-- The fields, a flag as 0 or 1. Bit 6, for which `epte` has no accessors, says that the processor
-- ignores its page attribute table.
pub record Fields : Type 0 where
  pub read : ℕ
  pub write : ℕ
  pub execute : ℕ
  pub type : ℕ
  pub ignore_pat : ℕ
  pub large : ℕ
  pub accessed : ℕ
  pub execute_user : ℕ
  pub low_page_number : ℕ
  pub large_page_number : ℕ
  pub suppress_ve : ℕ

-- What the getters return.
abbrev pub fields : ℕ → Fields
fields m = record {
  read = flag (Epte.read m);
  write = flag (Epte.write m);
  execute = flag (Epte.execute m);
  type = Epte.type m;
  ignore_pat = m / 2 ^ 6 % 2;
  large = flag (Epte.large m);
  accessed = flag (Epte.accessed m);
  execute_user = flag (Epte.execute_user m);
  low_page_number = m / 2 ^ 12 % 2 ^ 9;
  large_page_number = Epte.large_page_number m;
  suppress_ve = flag (Epte.suppress_ve m);
}

-- A call of a setter.
pub data Update : Type 0 where
  set_read : Bool → Update
  set_write : Bool → Update
  set_execute : Bool → Update
  set_type : ℕ → Update
  set_large : Bool → Update
  set_accessed : Bool → Update
  set_execute_user : Bool → Update
  set_page_number : ℕ → Update
  set_large_page_number : ℕ → Update
  set_suppress_ve : Bool → Update

-- What the call does to the word.
abbrev pub apply : Update → ℕ → ℕ
apply (set_read v) m = Epte.set_read v m
apply (set_write v) m = Epte.set_write v m
apply (set_execute v) m = Epte.set_execute v m
apply (set_type v) m = Epte.set_type v m
apply (set_large v) m = Epte.set_large v m
apply (set_accessed v) m = Epte.set_accessed v m
apply (set_execute_user v) m = Epte.set_execute_user v m
apply (set_page_number v) m = Epte.set_page_number v m
apply (set_large_page_number v) m = Epte.set_large_page_number v m
apply (set_suppress_ve v) m = Epte.set_suppress_ve v m

-- What it means for the fields.
abbrev pub update : Update → Fields → Fields
update (set_read v) r = record r { read = flag v }
update (set_write v) r = record r { write = flag v }
update (set_execute v) r = record r { execute = flag v }
update (set_type v) r = record r { type = v % 2 ^ 3; ignore_pat = max r.ignore_pat (v / 2 ^ 3 % 2) }
update (set_large v) r = record r { large = flag v }
update (set_accessed v) r = record r { accessed = flag v }
update (set_execute_user v) r = record r { execute_user = flag v }
update (set_page_number v) r = record r {
  low_page_number = v % 2 ^ 9;
  large_page_number = v / 2 ^ 9 % 2 ^ 31;
}
update (set_large_page_number v) r = record r { large_page_number = v % 2 ^ 31 }
update (set_suppress_ve v) r = record r { suppress_ve = flag v }

abbrev pub run : List Update → ℕ → ℕ
run [] m = m
run (u ∷ us) m = run us (apply u m)

abbrev pub run_fields : List Update → Fields → Fields
run_fields [] r = r
run_fields (u ∷ us) r = run_fields us (update u r)

record Agree (a b : Fields) : Type 0 where
  read : a.read ≡ b.read
  write : a.write ≡ b.write
  execute : a.execute ≡ b.execute
  type : a.type ≡ b.type
  ignore_pat : a.ignore_pat ≡ b.ignore_pat
  large : a.large ≡ b.large
  accessed : a.accessed ≡ b.accessed
  execute_user : a.execute_user ≡ b.execute_user
  low_page_number : a.low_page_number ≡ b.low_page_number
  large_page_number : a.large_page_number ≡ b.large_page_number
  suppress_ve : a.suppress_ve ≡ b.suppress_ve

fields_ext : {a b : Fields} → Agree a b → a ≡ b
fields_ext e = λ i. record {
  read = e.read i;
  write = e.write i;
  execute = e.execute i;
  type = e.type i;
  ignore_pat = e.ignore_pat i;
  large = e.large i;
  accessed = e.accessed i;
  execute_user = e.execute_user i;
  low_page_number = e.low_page_number i;
  large_page_number = e.large_page_number i;
  suppress_ve = e.suppress_ve i;
}

-- The fields by division and remainder.
abbrev numbers : ℕ → Fields
numbers m = record {
  read = m / 2 ^ 0 % 2 ^ 1;
  write = m / 2 ^ 1 % 2 ^ 1;
  execute = m / 2 ^ 2 % 2 ^ 1;
  type = m / 2 ^ 3 % 2 ^ 3;
  ignore_pat = m / 2 ^ 6 % 2;
  large = m / 2 ^ 7 % 2 ^ 1;
  accessed = m / 2 ^ 8 % 2 ^ 1;
  execute_user = m / 2 ^ 10 % 2 ^ 1;
  low_page_number = m / 2 ^ 12 % 2 ^ 9;
  large_page_number = m / 2 ^ 21 % 2 ^ 31;
  suppress_ve = m / 2 ^ 63 % 2 ^ 1;
}

fields-numbers : (m : ℕ) → fields m ≡ numbers m
fields-numbers m = λ i. record {
  read = Forms.read-eq m i;
  write = Forms.write-eq m i;
  execute = Forms.execute-eq m i;
  type = Forms.type-eq m i;
  ignore_pat = m / 2 ^ 6 % 2;
  large = Forms.large-eq m i;
  accessed = Forms.accessed-eq m i;
  execute_user = Forms.execute_user-eq m i;
  low_page_number = m / 2 ^ 12 % 2 ^ 9;
  large_page_number = Forms.large_page_number-eq m i;
  suppress_ve = Forms.suppress_ve-eq m i;
}

agree : (u : Update) (m : ℕ) → m < 2 ^ 64 → Agree (numbers (apply u m)) (update u (numbers m))
agree (set_read v) m h = omega (arith, Forms.set_read-eq v m h, flag-lt v)
agree (set_write v) m h = omega (arith, Forms.set_write-eq v m h, flag-lt v)
agree (set_execute v) m h = omega (arith, Forms.set_execute-eq v m h, flag-lt v)
agree (set_type v) m h = omega (arith, Forms.set_type-eq v m h)
agree (set_large v) m h = omega (arith, Forms.set_large-eq v m h, flag-lt v)
agree (set_accessed v) m h = omega (arith, Forms.set_accessed-eq v m h, flag-lt v)
agree (set_execute_user v) m h = omega (arith, Forms.set_execute_user-eq v m h, flag-lt v)
agree (set_page_number v) m h = omega (arith, Forms.set_page_number-eq v m h)
agree (set_large_page_number v) m h = omega (arith, Forms.set_large_page_number-eq v m h)
agree (set_suppress_ve v) m h = omega (arith, Forms.set_suppress_ve-eq v m h, flag-lt v)

pub apply-lt : (u : Update) (m : ℕ) → m < 2 ^ 64 → apply u m < 2 ^ 64
apply-lt (set_read v) m h = omega (arith, Forms.set_read-eq v m h, flag-lt v)
apply-lt (set_write v) m h = omega (arith, Forms.set_write-eq v m h, flag-lt v)
apply-lt (set_execute v) m h = omega (arith, Forms.set_execute-eq v m h, flag-lt v)
apply-lt (set_type v) m h = omega (arith, Forms.set_type-eq v m h)
apply-lt (set_large v) m h = omega (arith, Forms.set_large-eq v m h, flag-lt v)
apply-lt (set_accessed v) m h = omega (arith, Forms.set_accessed-eq v m h, flag-lt v)
apply-lt (set_execute_user v) m h = omega (arith, Forms.set_execute_user-eq v m h, flag-lt v)
apply-lt (set_page_number v) m h = omega (arith, Forms.set_page_number-eq v m h)
apply-lt (set_large_page_number v) m h = omega (arith, Forms.set_large_page_number-eq v m h)
apply-lt (set_suppress_ve v) m h = omega (arith, Forms.set_suppress_ve-eq v m h, flag-lt v)

pub fields-apply : (u : Update) (m : ℕ) → m < 2 ^ 64 → fields (apply u m) ≡ update u (fields m)
fields-apply u m h =
    fields-numbers (apply u m) ∙ fields_ext (agree u m h) ∙ ap (update u) (sym (fields-numbers m))

pub epte_fields-run :
    (us : List Update) (m : ℕ)
    → m < 2 ^ 64
    → (run us m < 2 ^ 64) × (fields (run us m) ≡ run_fields us (fields m))
epte_fields-run [] m h = (h, refl)
epte_fields-run (u ∷ us) m h =
    let (small, e) = epte_fields-run us (apply u m) (apply-lt u m h) in
    (small, e ∙ ap (run_fields us) (fields-apply u m h))
