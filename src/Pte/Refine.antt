-- ===== src/Pte/Refine.antt =====
-- hypervisor/include/zpp/x64/pte.h: `pte` against the record of its fields.
use zpp_hypervisor.Common.{
  ℕ, Bool, List, [], ◌∷◌, ◌/◌, ◌%◌, ◌^◌, ◌<◌, ◌≡◌, refl, arith, ap, sym, ◌∙◌,
}
use zpp_hypervisor.Word.{flag}
use zpp_hypervisor.Word.Fields.{flag-lt}
use zpp_hypervisor.Pte
use zpp_hypervisor.Pte.Forms

-- The fields, a flag as 0 or 1.
pub record Fields : Type 0 where
  pub present : ℕ
  pub write : ℕ
  pub user : ℕ
  pub write_through : ℕ
  pub page_level_cache_disable : ℕ
  pub access : ℕ
  pub dirty : ℕ
  pub large : ℕ
  pub global : ℕ
  pub page_number : ℕ
  pub protection_key : ℕ
  pub execute_disable : ℕ

-- What the getters return.
abbrev pub fields : ℕ → Fields
fields m = record {
  present = flag (Pte.present m);
  write = flag (Pte.write m);
  user = flag (Pte.user m);
  write_through = flag (Pte.write_through m);
  page_level_cache_disable = flag (Pte.page_level_cache_disable m);
  access = flag (Pte.access m);
  dirty = flag (Pte.dirty m);
  large = flag (Pte.large m);
  global = flag (Pte.global m);
  page_number = Pte.page_number m;
  protection_key = Pte.protection_key m;
  execute_disable = flag (Pte.execute_disable m);
}

-- A call of a setter.
pub data Update : Type 0 where
  set_present : Bool → Update
  set_write : Bool → Update
  set_user : Bool → Update
  set_write_through : Bool → Update
  set_page_level_cache_disable : Bool → Update
  set_access : Bool → Update
  set_dirty : Bool → Update
  set_pat : Bool → Update
  set_large : Bool → Update
  set_global : Bool → Update
  set_page_number : ℕ → Update
  set_protection_key : ℕ → Update
  set_execute_disable : Bool → Update

-- What the call does to the word.
abbrev pub apply : Update → ℕ → ℕ
apply (set_present v) m = Pte.set_present v m
apply (set_write v) m = Pte.set_write v m
apply (set_user v) m = Pte.set_user v m
apply (set_write_through v) m = Pte.set_write_through v m
apply (set_page_level_cache_disable v) m = Pte.set_page_level_cache_disable v m
apply (set_access v) m = Pte.set_access v m
apply (set_dirty v) m = Pte.set_dirty v m
apply (set_pat v) m = Pte.set_pat v m
apply (set_large v) m = Pte.set_large v m
apply (set_global v) m = Pte.set_global v m
apply (set_page_number v) m = Pte.set_page_number v m
apply (set_protection_key v) m = Pte.set_protection_key v m
apply (set_execute_disable v) m = Pte.set_execute_disable v m

-- What it means for the fields.
abbrev pub update : Update → Fields → Fields
update (set_present v) r = record r { present = flag v }
update (set_write v) r = record r { write = flag v }
update (set_user v) r = record r { user = flag v }
update (set_write_through v) r = record r { write_through = flag v }
update (set_page_level_cache_disable v) r = record r { page_level_cache_disable = flag v }
update (set_access v) r = record r { access = flag v }
update (set_dirty v) r = record r { dirty = flag v }
update (set_pat v) r = record r { large = flag v }
update (set_large v) r = record r { large = flag v }
update (set_global v) r = record r { global = flag v }
update (set_page_number v) r = record r { page_number = v % 2 ^ 40 }
update (set_protection_key v) r = record r { protection_key = v % 2 ^ 4 }
update (set_execute_disable v) r = record r { execute_disable = flag v }

abbrev pub run : List Update → ℕ → ℕ
run [] m = m
run (u ∷ us) m = run us (apply u m)

abbrev pub run_fields : List Update → Fields → Fields
run_fields [] r = r
run_fields (u ∷ us) r = run_fields us (update u r)

record Agree (a b : Fields) : Type 0 where
  present : a.present ≡ b.present
  write : a.write ≡ b.write
  user : a.user ≡ b.user
  write_through : a.write_through ≡ b.write_through
  page_level_cache_disable : a.page_level_cache_disable ≡ b.page_level_cache_disable
  access : a.access ≡ b.access
  dirty : a.dirty ≡ b.dirty
  large : a.large ≡ b.large
  global : a.global ≡ b.global
  page_number : a.page_number ≡ b.page_number
  protection_key : a.protection_key ≡ b.protection_key
  execute_disable : a.execute_disable ≡ b.execute_disable

fields_ext : {a b : Fields} → Agree a b → a ≡ b
fields_ext e = λ i. record {
  present = e.present i;
  write = e.write i;
  user = e.user i;
  write_through = e.write_through i;
  page_level_cache_disable = e.page_level_cache_disable i;
  access = e.access i;
  dirty = e.dirty i;
  large = e.large i;
  global = e.global i;
  page_number = e.page_number i;
  protection_key = e.protection_key i;
  execute_disable = e.execute_disable i;
}

-- The fields by division and remainder.
abbrev numbers : ℕ → Fields
numbers m = record {
  present = m / 2 ^ 0 % 2 ^ 1;
  write = m / 2 ^ 1 % 2 ^ 1;
  user = m / 2 ^ 2 % 2 ^ 1;
  write_through = m / 2 ^ 3 % 2 ^ 1;
  page_level_cache_disable = m / 2 ^ 4 % 2 ^ 1;
  access = m / 2 ^ 5 % 2 ^ 1;
  dirty = m / 2 ^ 6 % 2 ^ 1;
  large = m / 2 ^ 7 % 2 ^ 1;
  global = m / 2 ^ 8 % 2 ^ 1;
  page_number = m / 2 ^ 12 % 2 ^ 40;
  protection_key = m / 2 ^ 58 % 2 ^ 4;
  execute_disable = m / 2 ^ 63 % 2 ^ 1;
}

fields-numbers : (m : ℕ) → fields m ≡ numbers m
fields-numbers m = λ i. record {
  present = Forms.present-eq m i;
  write = Forms.write-eq m i;
  user = Forms.user-eq m i;
  write_through = Forms.write_through-eq m i;
  page_level_cache_disable = Forms.page_level_cache_disable-eq m i;
  access = Forms.access-eq m i;
  dirty = Forms.dirty-eq m i;
  large = Forms.large-eq m i;
  global = Forms.global-eq m i;
  page_number = Forms.page_number-eq m i;
  protection_key = Forms.protection_key-eq m i;
  execute_disable = Forms.execute_disable-eq m i;
}

agree : (u : Update) (m : ℕ) → m < 2 ^ 64 → Agree (numbers (apply u m)) (update u (numbers m))
agree (set_present v) m h = omega (arith, Forms.set_present-eq v m h, flag-lt v)
agree (set_write v) m h = omega (arith, Forms.set_write-eq v m h, flag-lt v)
agree (set_user v) m h = omega (arith, Forms.set_user-eq v m h, flag-lt v)
agree (set_write_through v) m h = omega (arith, Forms.set_write_through-eq v m h, flag-lt v)
agree (set_page_level_cache_disable v) m h =
    omega (arith, Forms.set_page_level_cache_disable-eq v m h, flag-lt v)
agree (set_access v) m h = omega (arith, Forms.set_access-eq v m h, flag-lt v)
agree (set_dirty v) m h = omega (arith, Forms.set_dirty-eq v m h, flag-lt v)
agree (set_pat v) m h = omega (arith, Forms.set_pat-eq v m h, flag-lt v)
agree (set_large v) m h = omega (arith, Forms.set_large-eq v m h, flag-lt v)
agree (set_global v) m h = omega (arith, Forms.set_global-eq v m h, flag-lt v)
agree (set_page_number v) m h = omega (arith, Forms.set_page_number-eq v m h)
agree (set_protection_key v) m h = omega (arith, Forms.set_protection_key-eq v m h)
agree (set_execute_disable v) m h = omega (arith, Forms.set_execute_disable-eq v m h, flag-lt v)

pub apply-lt : (u : Update) (m : ℕ) → m < 2 ^ 64 → apply u m < 2 ^ 64
apply-lt (set_present v) m h = omega (arith, Forms.set_present-eq v m h, flag-lt v)
apply-lt (set_write v) m h = omega (arith, Forms.set_write-eq v m h, flag-lt v)
apply-lt (set_user v) m h = omega (arith, Forms.set_user-eq v m h, flag-lt v)
apply-lt (set_write_through v) m h = omega (arith, Forms.set_write_through-eq v m h, flag-lt v)
apply-lt (set_page_level_cache_disable v) m h =
    omega (arith, Forms.set_page_level_cache_disable-eq v m h, flag-lt v)
apply-lt (set_access v) m h = omega (arith, Forms.set_access-eq v m h, flag-lt v)
apply-lt (set_dirty v) m h = omega (arith, Forms.set_dirty-eq v m h, flag-lt v)
apply-lt (set_pat v) m h = omega (arith, Forms.set_pat-eq v m h, flag-lt v)
apply-lt (set_large v) m h = omega (arith, Forms.set_large-eq v m h, flag-lt v)
apply-lt (set_global v) m h = omega (arith, Forms.set_global-eq v m h, flag-lt v)
apply-lt (set_page_number v) m h = omega (arith, Forms.set_page_number-eq v m h)
apply-lt (set_protection_key v) m h = omega (arith, Forms.set_protection_key-eq v m h)
apply-lt (set_execute_disable v) m h = omega (arith, Forms.set_execute_disable-eq v m h, flag-lt v)

pub fields-apply : (u : Update) (m : ℕ) → m < 2 ^ 64 → fields (apply u m) ≡ update u (fields m)
fields-apply u m h =
    fields-numbers (apply u m) ∙ fields_ext (agree u m h) ∙ ap (update u) (sym (fields-numbers m))

-- Any sequence of setter calls on a 64-bit word keeps it a 64-bit word, and what the getters then
-- return is the record of the fields before with the same updates made one by one.
pub pte_fields-run :
    (us : List Update) (m : ℕ)
    → m < 2 ^ 64
    → (run us m < 2 ^ 64) × (fields (run us m) ≡ run_fields us (fields m))
pte_fields-run [] m h = (h, refl)
pte_fields-run (u ∷ us) m h =
    let (small, e) = pte_fields-run us (apply u m) (apply-lt u m h) in
    (small, e ∙ ap (run_fields us) (fields-apply u m h))
