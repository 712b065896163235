-- ===== src/VirtualAddress/Refine.antt =====
-- hypervisor/include/zpp/x64/virtual_address.h: `virtual_address` against the record of its fields.
use zpp_hypervisor.Common.{ℕ, List, [], ◌∷◌, ◌/◌, ◌%◌, ◌^◌, ◌<◌, ◌≡◌, refl, arith, ap, sym, ◌∙◌}
use zpp_hypervisor.VirtualAddress
use zpp_hypervisor.VirtualAddress.Forms

-- The fields, a flag as 0 or 1.
pub record Fields : Type 0 where
  pub offset : ℕ
  pub pte : ℕ
  pub pde : ℕ
  pub pdpte : ℕ
  pub pml4e : ℕ
  pub sign_extension : ℕ

-- What the getters return.
abbrev pub fields : ℕ → Fields
fields m = record {
  offset = VirtualAddress.offset m;
  pte = VirtualAddress.pte m;
  pde = VirtualAddress.pde m;
  pdpte = VirtualAddress.pdpte m;
  pml4e = VirtualAddress.pml4e m;
  sign_extension = m / 2 ^ 48 % 2 ^ 16;
}

-- A call of a setter.
pub data Update : Type 0 where
  set_offset : ℕ → Update
  set_large_offset : ℕ → Update
  set_huge_offset : ℕ → Update
  set_pte : ℕ → Update
  set_pde : ℕ → Update
  set_pdpte : ℕ → Update
  set_pml4e : ℕ → Update

-- What the call does to the word.
abbrev pub apply : Update → ℕ → ℕ
apply (set_offset v) m = VirtualAddress.set_offset v m
apply (set_large_offset v) m = VirtualAddress.set_large_offset v m
apply (set_huge_offset v) m = VirtualAddress.set_huge_offset v m
apply (set_pte v) m = VirtualAddress.set_pte v m
apply (set_pde v) m = VirtualAddress.set_pde v m
apply (set_pdpte v) m = VirtualAddress.set_pdpte v m
apply (set_pml4e v) m = VirtualAddress.set_pml4e v m

-- What it means for the fields.
abbrev pub update : Update → Fields → Fields
update (set_offset v) r = record r { offset = v % 2 ^ 12 }
update (set_large_offset v) r = record r { offset = v % 2 ^ 12; pte = v / 2 ^ 12 % 2 ^ 9 }
update (set_huge_offset v) r = record r {
  offset = v % 2 ^ 12;
  pte = v / 2 ^ 12 % 2 ^ 9;
  pde = v / 2 ^ 21 % 2 ^ 9;
}
update (set_pte v) r = record r { pte = v % 2 ^ 9 }
update (set_pde v) r = record r { pde = v % 2 ^ 9 }
update (set_pdpte v) r = record r { pdpte = v % 2 ^ 9 }
update (set_pml4e v) r = record r { pml4e = v % 2 ^ 9 }

abbrev pub run : List Update → ℕ → ℕ
run [] m = m
run (u ∷ us) m = run us (apply u m)

abbrev pub run_fields : List Update → Fields → Fields
run_fields [] r = r
run_fields (u ∷ us) r = run_fields us (update u r)

record Agree (a b : Fields) : Type 0 where
  offset : a.offset ≡ b.offset
  pte : a.pte ≡ b.pte
  pde : a.pde ≡ b.pde
  pdpte : a.pdpte ≡ b.pdpte
  pml4e : a.pml4e ≡ b.pml4e
  sign_extension : a.sign_extension ≡ b.sign_extension

fields_ext : {a b : Fields} → Agree a b → a ≡ b
fields_ext e = λ i. record {
  offset = e.offset i;
  pte = e.pte i;
  pde = e.pde i;
  pdpte = e.pdpte i;
  pml4e = e.pml4e i;
  sign_extension = e.sign_extension i;
}

-- The fields by division and remainder.
abbrev numbers : ℕ → Fields
numbers m = record {
  offset = m % 2 ^ 12;
  pte = m / 2 ^ 12 % 2 ^ 9;
  pde = m / 2 ^ 21 % 2 ^ 9;
  pdpte = m / 2 ^ 30 % 2 ^ 9;
  pml4e = m / 2 ^ 39 % 2 ^ 9;
  sign_extension = m / 2 ^ 48 % 2 ^ 16;
}

fields-numbers : (m : ℕ) → fields m ≡ numbers m
fields-numbers m = λ i. record {
  offset = Forms.offset-eq m i;
  pte = Forms.pte-eq m i;
  pde = Forms.pde-eq m i;
  pdpte = Forms.pdpte-eq m i;
  pml4e = Forms.pml4e-eq m i;
  sign_extension = m / 2 ^ 48 % 2 ^ 16;
}

agree : (u : Update) (m : ℕ) → m < 2 ^ 64 → Agree (numbers (apply u m)) (update u (numbers m))
agree (set_offset v) m h = omega (arith, Forms.set_offset-eq v m h)
agree (set_large_offset v) m h = omega (arith, Forms.set_large_offset-eq v m h)
agree (set_huge_offset v) m h = omega (arith, Forms.set_huge_offset-eq v m h)
agree (set_pte v) m h = omega (arith, Forms.set_pte-eq v m h)
agree (set_pde v) m h = omega (arith, Forms.set_pde-eq v m h)
agree (set_pdpte v) m h = omega (arith, Forms.set_pdpte-eq v m h)
agree (set_pml4e v) m h = omega (arith, Forms.set_pml4e-eq v m h)

pub apply-lt : (u : Update) (m : ℕ) → m < 2 ^ 64 → apply u m < 2 ^ 64
apply-lt (set_offset v) m h = omega (arith, Forms.set_offset-eq v m h)
apply-lt (set_large_offset v) m h = omega (arith, Forms.set_large_offset-eq v m h)
apply-lt (set_huge_offset v) m h = omega (arith, Forms.set_huge_offset-eq v m h)
apply-lt (set_pte v) m h = omega (arith, Forms.set_pte-eq v m h)
apply-lt (set_pde v) m h = omega (arith, Forms.set_pde-eq v m h)
apply-lt (set_pdpte v) m h = omega (arith, Forms.set_pdpte-eq v m h)
apply-lt (set_pml4e v) m h = omega (arith, Forms.set_pml4e-eq v m h)

pub fields-apply : (u : Update) (m : ℕ) → m < 2 ^ 64 → fields (apply u m) ≡ update u (fields m)
fields-apply u m h =
    fields-numbers (apply u m) ∙ fields_ext (agree u m h) ∙ ap (update u) (sym (fields-numbers m))

-- Any sequence of setter calls on a 64-bit word keeps it a 64-bit word, and what the getters then
-- return is the record of the fields before with the same updates made one by one.
pub virtual_address_fields-run :
    (us : List Update) (m : ℕ)
    → m < 2 ^ 64
    → (run us m < 2 ^ 64) × (fields (run us m) ≡ run_fields us (fields m))
virtual_address_fields-run [] m h = (h, refl)
virtual_address_fields-run (u ∷ us) m h =
    let (small, e) = virtual_address_fields-run us (apply u m) (apply-lt u m h) in
    (small, e ∙ ap (run_fields us) (fields-apply u m h))
