-- ===== src/ExtendedPaging/Protect.antt =====
-- hypervisor/src/hypervisor/hypervisor.cpp: the step of `protect_module` and of
-- `unprotect_guest_memory`, on the view.
use zpp_hypervisor.Common.{
  ℕ, ◌+◌, ◌^◌, Bool, true, false, some, ◌≡◌, ◌==◌, if◌then◌else◌, refl, ◌<◌, ◌≤◌, inl, inr,
  Bool-cases, ap, ◌∙◌, arith, ltb,
}
use zpp_hypervisor.Word.{◌>>>◌, ◌&&&◌}
use zpp_hypervisor.Word.Fields.{bit_and_mask}
use zpp_hypervisor.Epte
use zpp_hypervisor.ErrorCode.{ok}
use zpp_hypervisor.ExtendedPaging.{
  Tables, Host, ept_count, convert, set_rights, protect_page, unprotect_page,
}
use zpp_hypervisor.ExtendedPaging.View.{view, with_rights, same_page}
use zpp_hypervisor.ExtendedPaging.Invariant.{
  Inside, Located, IsValid, target, set_rights-IsValid, view-set_rights,
}
use zpp_hypervisor.ExtendedPaging.Convert.{
  convert-IsValid, view-convert, convert-target, convert-small, convert-keeps, next_index,
}

-- The indices of the entries for a physical address.
abbrev pub upper : ℕ → ℕ
upper physical = physical >>> 30

abbrev pub middle : ℕ → ℕ
middle physical = (physical >>> 21) &&& 0x1ff

abbrev pub lower : ℕ → ℕ
lower physical = (physical >>> 12) &&& 0x1ff

abbrev pub is_page_of : ℕ → ℕ → ℕ → ℕ → Bool
is_page_of physical a b c = same_page (upper physical) (middle physical) (lower physical) a b c

-- The table that a step may take: one, if the page is within a large page still.
abbrev pub taken : Tables → ℕ → ℕ
taken t physical = if Epte.large (t.epd (upper physical) (middle physical)) then 1 else 0

-- The outcome of a step on the page at a physical address.
pub record Sets (h : Host) (v : Bool) (physical : ℕ) (t t' : Tables) : Type 0 where
  pub valid : IsValid h t'
  pub index : t'.ept_index ≤ t.ept_index + taken t physical
  pub split : Epte.large (t'.epd (upper physical) (middle physical)) ≡ false
  pub keeps_split : (a b : ℕ) → Epte.large (t.epd a b) ≡ false → Epte.large (t'.epd a b) ≡ false
  pub seen :
      (a b c : ℕ)
      → Inside a b
      → c < 512
      → view h t' a b c
        ≡ (if is_page_of physical a b c then with_rights v (view h t a b c) else view h t a b c)

module _ (h : Host) (t : Tables) (valid : IsValid h t) (physical : ℕ) (f : physical < 2 ^ 39) where
  inside : Inside (upper physical) (middle physical)
  inside = (ground arith, omega (arith, bit_and_mask 9 (physical >>> 21)))

  in_range : ltb (upper physical) 512 ≡ true
  in_range = ground arith

  -- The write where the entry points to a table.
  set_rights-Sets :
      (v : Bool) (k : ℕ)
      → Epte.large (t.epd (upper physical) (middle physical)) ≡ false
      → target h t (upper physical) (middle physical) ≡ some k
      → Sets h v physical t (set_rights v k (lower physical) t)
  unfolding set_rights
  set_rights-Sets v k small e = record {
    valid = set_rights-IsValid h t valid v k (lower physical);
    index = omega arith;
    split = small;
    keeps_split = λ a b p. p;
    seen = λ a b c inside' _.
        view-set_rights h t valid v k (lower physical) (upper physical) (middle physical) a b c
          inside inside' small e;
  }

  pub unprotect_page_lem :
      Epte.large (t.epd (upper physical) (middle physical)) ≡ false
      → (t' : Tables) × (unprotect_page h physical t ≡ ok t') × Sets h true physical t t'
  unfolding unprotect_page
  unprotect_page_lem small =
      let (k, _, e) = valid.tables (upper physical) (middle physical) inside small in
      rw (in_range, e) (set_rights true k (lower physical) t, refl, set_rights-Sets true k small e)

  protect_page-small :
      Epte.large (t.epd (upper physical) (middle physical)) ≡ false
      → (t' : Tables) × (protect_page h physical t ≡ ok t') × Sets h false physical t t'
  unfolding protect_page
  protect_page-small small =
      let (k, _, e) = valid.tables (upper physical) (middle physical) inside small in
      rw (in_range, small, e)
        (set_rights false k (lower physical) t, refl, set_rights-Sets false k small e)

module _ (h : Host) (t : Tables) (valid : IsValid h t) (physical : ℕ) (f : physical < 2 ^ 39)
    (n : ℕ) (located : Located h n) (room : n < ept_count) where
  -- The conversion of a large page, then the write.
  protect_page-large :
      Epte.large (t.epd (upper physical) (middle physical)) ≡ true
      → t.ept_index < n
      → (t' : Tables) × (protect_page h physical t ≡ ok t') × Sets h false physical t t'
  unfolding protect_page set_rights
  protect_page-large large free =
      let a = upper physical in
      let b = middle physical in
      let c = convert h a b t in
      let sets =
        set_rights-Sets h c
          (convert-IsValid h n located t valid a b (inside h t valid physical f) large free)
          physical f false t.ept_index
          (convert-small h n located t valid a b (inside h t valid physical f) large free)
          (convert-target h n located t valid a b (inside h t valid physical f) large free) in
      let next : c.ept_index ≡ t.ept_index + 1 =
        next_index h n located t valid a b (inside h t valid physical f) large free in
      let left : (c.ept_index == ept_count) ≡ false = ground arith in
      rw (in_range h t valid physical f, large, left)
        (
          set_rights false t.ept_index (lower physical) c,
          refl,
          record {
            valid = sets.valid;
            index = ground (arith, next, large);
            split = sets.split;
            keeps_split = λ a' b' small. sets.keeps_split a' b' (
                convert-keeps h n located t valid a b (inside h t valid physical f) large free a' b'
                  small);
            seen = λ a' b' c' within f'.
                sets.seen a' b' c' within f'
                ∙ ap (λ l. if is_page_of physical a' b' c' then with_rights false l else l)
                    (view-convert h n located t valid a b (inside h t valid physical f) large free
                      a' b' c' within f');
          },
        )

  pub protect_page_lem :
      (Epte.large (t.epd (upper physical) (middle physical)) ≡ true → t.ept_index < n)
      → (t' : Tables) × (protect_page h physical t ≡ ok t') × Sets h false physical t t'
  protect_page_lem free =
      elim (Bool-cases (Epte.large (t.epd (upper physical) (middle physical)))) [
        | inl large ↦ protect_page-large large (free large)
        | inr small ↦ protect_page-small h t valid physical f small
      ]
