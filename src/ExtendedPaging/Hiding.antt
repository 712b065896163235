-- ===== src/ExtendedPaging/Hiding.antt =====
-- hypervisor/src/hypervisor/hypervisor.cpp: the view of the guest behind the loops of
-- `protect_module` and `unprotect_guest_memory`.
pub mod LargePages
use zpp_hypervisor.Common.{
  ℕ, zero, suc, ◌+◌, ◌*◌, ◌/◌, ◌^◌, Bool, true, false, ◌||◌, ◌&&◌, Option, none, some, ◌≡◌, ◌==◌,
  if◌then◌else◌, refl, ◌<◌, ◌≤◌, inl, inr, Bool-cases, ==_iff, ap, ap₂, sym, ◌∙◌, arith, subst,
}
use zpp_hypervisor.Epte
use zpp_hypervisor.ErrorCode.{ok}
use zpp_hypervisor.ExtendedPaging.{
  Tables, Host, page_size, ept_count, protect_page, protect_pages, protect_module,
}
use zpp_hypervisor.ExtendedPaging.View.{Leaf, view, with_rights}
use zpp_hypervisor.ExtendedPaging.Invariant.{Inside, Located, IsValid}
use zpp_hypervisor.ExtendedPaging.Protect.{Sets, upper, middle, is_page_of, taken, protect_page_lem}

-- Whether the page with the indices a, b and c is one of the `left` pages from page `i` on.
pub covers : Host → ℕ → ℕ → ℕ → ℕ → ℕ → ℕ → Bool
covers h address zero i a b c = false
covers h address (suc left) i a b c =
    is_page_of (h.virtual_to_physical (address + i * page_size)) a b c
    || covers h address left (i + 1) a b c

-- The pages are below 512 GB, which the one page directory pointer table maps.
abbrev pub Below : Host → ℕ → ℕ → ℕ → Type 0
Below h address left i =
    (j : ℕ) → i ≤ j → j < i + left → h.virtual_to_physical (address + j * page_size) < 2 ^ 39

-- The pages have entries of their own.
abbrev pub Split : Host → Tables → ℕ → ℕ → ℕ → Type 0
Split h t address left i =
    (j : ℕ)
    → i ≤ j
    → j < i + left
    → (let physical = h.virtual_to_physical (address + j * page_size) in
        Epte.large (t.epd (upper physical) (middle physical)) ≡ false)

-- The outcome of the loops: the rights of the pages are set to `v`, and nothing else is changed.
pub record SetsAll (h : Host) (v : Bool) (address left i : ℕ) (t t' : Tables) : Type 0 where
  pub valid : IsValid h t'
  pub split : Split h t' address left i
  pub keeps_split : (a b : ℕ) → Epte.large (t.epd a b) ≡ false → Epte.large (t'.epd a b) ≡ false
  pub seen :
      (a b c : ℕ)
      → Inside a b
      → c < 512
      → view h t' a b c
        ≡ (if covers h address left i a b c then with_rights v (view h t a b c) else view h t a b c)

with_rights-twice : (v : Bool) (l : Option Leaf) → with_rights v (with_rights v l) ≡ with_rights v l
with_rights-twice v none = refl
with_rights-twice v (some l) = refl

-- Two writes of the same rights are one where either is made.
two_pages :
    (v p q : Bool) (l l₁ : Option Leaf)
    → l₁ ≡ (if p then with_rights v l else l)
    → (if q then with_rights v l₁ else l₁) ≡ (if p || q then with_rights v l else l)
two_pages v true true l l₁ e = ap (with_rights v) e ∙ with_rights-twice v l
two_pages v true false l l₁ e = e
two_pages v false true l l₁ e = ap (with_rights v) e
two_pages v false false l l₁ e = e

SetsAll-none :
    (h : Host) (v : Bool) (address i : ℕ) (t : Tables) → IsValid h t → SetsAll h v address 0 i t t
unfolding covers
SetsAll-none h v address i t valid = record {
  valid = valid;
  split = λ j p q. absurd (omega arith);
  keeps_split = λ a b p. p;
  seen = λ a b c _ _. refl;
}

-- A step and the rest of the loop.
SetsAll-step :
    (h : Host) (v : Bool) (address left i : ℕ) (t t₁ t' : Tables)
    → Sets h v (h.virtual_to_physical (address + i * page_size)) t t₁
    → SetsAll h v address left (i + 1) t₁ t'
    → SetsAll h v address (suc left) i t t'
unfolding covers
SetsAll-step h v address left i t t₁ t' step rest = record {
  valid = rest.valid;
  split = λ j p q. elim (Bool-cases (i == j)) [
    | inl e ↦
        subst
          (λ j.
            let physical = h.virtual_to_physical (address + j * page_size) in
            Epte.large (t'.epd (upper physical) (middle physical)) ≡ false)
          ((==_iff i j).0 e) (rest.keeps_split _ _ step.split)
    | inr e ↦ rest.split j (ground arith) (omega arith)
  ];
  keeps_split = λ a b p. rest.keeps_split a b (step.keeps_split a b p);
  seen = λ a b c inside f.
      rest.seen a b c inside f
      ∙ two_pages v (is_page_of (h.virtual_to_physical (address + i * page_size)) a b c)
          (covers h address left (i + 1) a b c) (view h t a b c) (view h t₁ a b c)
          (step.seen a b c inside f);
}

protect_pages-suc :
    (h : Host) (address left i : ℕ) (t t₁ : Tables)
    → protect_page h (h.virtual_to_physical (address + i * page_size)) t ≡ ok t₁
    → protect_pages h address (suc left) i t ≡ protect_pages h address left (i + 1) t₁
unfolding protect_pages
protect_pages-suc h address left i t t₁ e = rw (protect_pages, e) refl

-- The tables before `protect_module`.
abbrev pub start : (ℕ → ℕ → Epte.Epte) → (ℕ → ℕ → Epte.Epte) → Tables
start epd ept = record { epd = epd; ept = ept; ept_index = 0 }

-- Whether one of the first `n` pages is within the large page with the indices a and b.
pub within : Host → ℕ → ℕ → ℕ → ℕ → Bool
within h address zero a b = false
within h address (suc n) a b =
    let physical = h.virtual_to_physical (address + n * page_size) in
    ((upper physical == a) && (middle physical == b)) || within h address n a b

-- How many of the `left` pages from page `i` on are the first in their large page.
pub large_pages : Host → ℕ → ℕ → ℕ → ℕ
unfolding within
large_pages h address zero i = 0
large_pages h address (suc left) i =
    let physical = h.virtual_to_physical (address + i * page_size) in
    (if within h address i (upper physical) (middle physical) then 0 else 1)
    + large_pages h address left (i + 1)

-- A large page with entries of its own for one of its pages has them for all.
within-Split :
    (h : Host) (address : ℕ) (t : Tables) (n a b : ℕ)
    → Split h t address n 0
    → within h address n a b ≡ true
    → Epte.large (t.epd a b) ≡ false
unfolding within
within-Split h address t zero a b split e = absurd (ground arith)
within-Split h address t (suc n) a b split e =
    let physical = h.virtual_to_physical (address + n * page_size) in
    elim (Bool-cases ((upper physical == a) && (middle physical == b))) [
      | inl here ↦
          let up : upper physical ≡ a = ground arith in
          let mid : middle physical ≡ b = ground arith in
          ap₂ (λ x y. Epte.large (t.epd x y)) (sym up) (sym mid)
          ∙ split n (omega arith) (omega arith)
      | inr other ↦
          within-Split h address t n a b (λ j p q. split j p (omega (arith, q)))
            (sym (ap (λ x. x || within h address n a b) other) ∙ e)
    ]

-- With a table left for each large page that a page is the first of, the loop of `protect_module`
-- finishes.
protect_pages-SetsAll :
    (h : Host) (n : ℕ) (located : Located h n) (address left i : ℕ) (t : Tables)
    → IsValid h t
    → Split h t address i 0
    → t.ept_index + large_pages h address left i ≤ n
    → n < ept_count
    → Below h address left i
    → (t' : Tables) × (protect_pages h address left i t ≡ ok t')
      × SetsAll h false address left i t t'
unfolding protect_pages large_pages
protect_pages-SetsAll h n located address zero i t valid split enough room below =
    (t, refl, SetsAll-none h false address i t valid)
protect_pages-SetsAll h n located address (suc left) i t valid split enough room below =
    let physical = h.virtual_to_physical (address + i * page_size) in
    let a = upper physical in
    let b = middle physical in
    let small = within-Split h address t i a b split in
    let first : taken t physical ≤ (if within h address i a b then 0 else 1) =
      elim (Bool-cases (within h address i a b)) [
        | inl again ↦ rw (again, small again) (omega arith)
        | inr new ↦ rw new (ground arith)
      ] in
    let (t₁, e₁, step) =
      protect_page_lem h t valid physical (below i (omega arith) (omega arith)) n located room
        (λ large.
          let one : taken t physical ≡ 1 = rw large refl in omega (arith, one, first, enough)) in
    let (t', e, rest) =
      protect_pages-SetsAll h n located address left (i + 1) t₁ step.valid
        (λ j p q. elim (Bool-cases (i == j)) [
          | inl now ↦
              subst
                (λ j.
                  let physical = h.virtual_to_physical (address + j * page_size) in
                  Epte.large (t₁.epd (upper physical) (middle physical)) ≡ false)
                ((==_iff i j).0 now) step.split
          | inr before ↦ step.keeps_split _ _ (split j p (ground arith))
        ])
        (omega (arith, step.index, first, enough)) room
        (λ j p q. below j (omega arith) (omega arith)) in
    (
      t',
      protect_pages-suc h address left i t t₁ e₁ ∙ e,
      SetsAll-step h false address left i t t₁ t' step rest,
    )

pub protect_module-SetsAll :
    (h : Host) (address size : ℕ) (epd ept : ℕ → ℕ → Epte.Epte)
    → Located h (large_pages h address (size / page_size) 0)
    → IsValid h (start epd ept)
    → large_pages h address (size / page_size) 0 < ept_count
    → Below h address (size / page_size) 0
    → (t : Tables) × (protect_module h address size epd ept ≡ ok t)
      × SetsAll h false address (size / page_size) 0 (start epd ept) t
unfolding protect_module
protect_module-SetsAll h address size epd ept located valid room below =
    protect_pages-SetsAll h (large_pages h address (size / page_size) 0) located address
      (size / page_size) 0 (start epd ept) valid (λ j p q. absurd (omega arith)) (omega arith) room
      below
