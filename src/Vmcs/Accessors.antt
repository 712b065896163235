-- ===== src/Vmcs/Accessors.antt =====
-- hypervisor/include/zpp/x64/intel/vmcs.h: all the accessors of the VMCS together.
use zpp_hypervisor.Common.{
  some-injective, subst, leb→le, and_left, and_right, ℕ, zero, suc, Bool, true, ◌&&◌, ◌==◌, List,
  [], ◌∷◌, ◌++◌, some, get_elem?, map, leb, ◌+◌, ◌≤◌, ◌≡◌, refl, sym, ap, ◌∙◌, arith, if◌then◌else◌,
  update, Bool-cases, inl, inr, ==_iff,
}
use zpp_hypervisor.Maybe.{of_value}
use zpp_hypervisor.Vmcs.{Vmcs, success, Accessor, narrow, read, write}
use zpp_hypervisor.Vmcs.ControlWords
use zpp_hypervisor.Vmcs.ControlQuads
use zpp_hypervisor.Vmcs.ControlLongs
use zpp_hypervisor.Vmcs.ControlNaturals
use zpp_hypervisor.Vmcs.InformationQuads
use zpp_hypervisor.Vmcs.InformationLongs
use zpp_hypervisor.Vmcs.GuestWords
use zpp_hypervisor.Vmcs.GuestQuads
use zpp_hypervisor.Vmcs.GuestLongs
use zpp_hypervisor.Vmcs.GuestNaturals
use zpp_hypervisor.Vmcs.HostWords
use zpp_hypervisor.Vmcs.HostQuads
use zpp_hypervisor.Vmcs.HostLongs
use zpp_hypervisor.Vmcs.HostNaturals

unfoldable pub accessors : List Accessor
accessors =
    ControlWords.accessors ++ GuestWords.accessors ++ HostWords.accessors ++ ControlQuads.accessors
    ++ InformationQuads.accessors ++ GuestQuads.accessors ++ HostQuads.accessors
    ++ ControlLongs.accessors ++ InformationLongs.accessors ++ GuestLongs.accessors
    ++ HostLongs.accessors ++ ControlNaturals.accessors ++ GuestNaturals.accessors
    ++ HostNaturals.accessors

-- The accessors that a field should have.
of_field : ℕ → Accessor
of_field n = record { field = n; get = read n; set = write n }

fields_of : List Accessor → List ℕ
fields_of = map (λ (a : Accessor). a.field)

accessors-of_field : accessors ≡ map of_field (fields_of accessors)
unfolding accessors of_field fields_of
accessors-of_field = refl

elem-of_field :
    (ns : List ℕ) (i : ℕ) (a : Accessor)
    → get_elem? (map of_field ns) i ≡ some a
    → a ≡ of_field a.field
unfolding of_field
elem-of_field [] i a e = cc
elem-of_field (n ∷ ns) zero a e = subst (λ x. x ≡ of_field x.field) (some-injective e) refl
elem-of_field (n ∷ ns) (suc i) a e = elem-of_field ns i a e

-- The encodings rise along the list.
ascending : ℕ → List Accessor → Bool
ascending n [] = true
ascending n (a ∷ rest) = leb n a.field && ascending (a.field + 1) rest

accessors-ascending : ascending 0 accessors ≡ true
unfolding ascending accessors
accessors-ascending = refl

ascending-le :
    (n : ℕ) (l : List Accessor) (i : ℕ) (a : Accessor)
    → ascending n l ≡ true
    → get_elem? l i ≡ some a
    → n ≤ a.field
unfolding ascending
ascending-le n [] i a up e = cc
ascending-le n (b ∷ l) zero a up e =
    subst (λ x. n ≤ x.field) (some-injective e)
      (leb→le n b.field (and_left (leb n b.field) (ascending (b.field + 1) l) up))
ascending-le n (b ∷ l) (suc i) a up e =
    let rest = and_right (leb n b.field) (ascending (b.field + 1) l) up in
    let first = leb→le n b.field (and_left (leb n b.field) (ascending (b.field + 1) l) up) in
    omega (arith, first, ascending-le (b.field + 1) l i a rest e)

ascending-apart :
    (n : ℕ) (l : List Accessor) (i j : ℕ) (a b : Accessor)
    → ascending n l ≡ true
    → get_elem? l i ≡ some a
    → get_elem? l j ≡ some b
    → (a.field == b.field) ≡ (i == j)
unfolding ascending
ascending-apart n [] i j a b up e f = cc
ascending-apart n (c ∷ l) zero zero a b up e f =
    (==_iff a.field b.field).1
      (ap (λ (x : Accessor). x.field) (sym (some-injective e) ∙ some-injective f))
ascending-apart n (c ∷ l) zero (suc j) a b up e f =
    let rest = and_right (leb n c.field) (ascending (c.field + 1) l) up in
    let same : c.field ≡ a.field = ap (λ (x : Accessor). x.field) (some-injective e) in
    let above = ascending-le (c.field + 1) l j b rest f in ground arith
ascending-apart n (c ∷ l) (suc i) zero a b up e f =
    let rest = and_right (leb n c.field) (ascending (c.field + 1) l) up in
    let same : c.field ≡ b.field = ap (λ (x : Accessor). x.field) (some-injective f) in
    let above = ascending-le (c.field + 1) l i a rest e in ground arith
ascending-apart n (c ∷ l) (suc i) (suc j) a b up e f =
    let rest = and_right (leb n c.field) (ascending (c.field + 1) l) up in
    ascending-apart (c.field + 1) l i j a b rest e f ∙ ground arith

pub write-fields :
    (n v : ℕ) (s : Vmcs)
    → s.is_current ≡ true
    → s.writable n ≡ true
    → (write n v s).1 ≡ record s { fields = update s.fields n (narrow n v) }
write-fields n v s current writable = rw (current, writable) refl

pub read-fields :
    (n : ℕ) (s : Vmcs)
    → s.is_current ≡ true
    → s.readable n ≡ true
    → read n s ≡ of_value (s.fields n)
read-fields n s current readable = rw (current, readable) refl

-- A field that is written and then read, with a current VMCS.
pub read-write :
    (n k v : ℕ) (s : Vmcs)
    → s.is_current ≡ true
    → s.writable n ≡ true
    → s.readable k ≡ true
    → ((write n v s).0 ≡ success)
      × (read k (write n v s).1 ≡ of_value (if n == k then narrow n v else s.fields k))
read-write n k v s current writable readable = rw (current, writable, readable) (refl, refl)

-- Of the 150 pairs of accessors any two work independently: with a current VMCS, a setter of a
-- writable field succeeds, and then the getter of a readable field gives the value, in
-- the width of the field, if it is the setter's own field, and otherwise what the field had.
pub accessors_lem :
    (i j v : ℕ) (a b : Accessor) (s : Vmcs)
    → get_elem? accessors i ≡ some a
    → get_elem? accessors j ≡ some b
    → s.is_current ≡ true
    → s.writable a.field ≡ true
    → s.readable b.field ≡ true
    → ((a.set v s).0 ≡ success)
      × (b.get (a.set v s).1 ≡ of_value (if i == j then narrow b.field v else s.fields b.field))
unfolding of_field
accessors_lem i j v a b s e f current writable readable =
    let all : (k : ℕ) (c : Accessor) → get_elem? accessors k ≡ some c → c ≡ of_field c.field =
      λ k c h.
        elem-of_field (fields_of accessors) k c
          (subst (λ l. get_elem? l k ≡ some c) accessors-of_field h) in
    let apart = ascending-apart 0 accessors i j a b accessors-ascending e f in
    let kept : (if a.field == b.field then narrow a.field v else s.fields b.field)
        ≡ (if a.field == b.field then narrow b.field v else s.fields b.field) =
      elim (Bool-cases (a.field == b.field)) [
        | inl same ↦
            ap (λ n. if a.field == b.field then narrow n v else s.fields b.field)
              ((==_iff a.field b.field).0 same)
        | inr other ↦ rw (other) refl
      ] in
    let (done, got) = read-write a.field b.field v s current writable readable in
    let body : ((write a.field v s).0 ≡ success)
        × (read b.field (write a.field v s).1
            ≡ of_value (if a.field == b.field then narrow b.field v else s.fields b.field)) =
      (done, got ∙ ap of_value kept) in
    subst
      (λ x.
        ((x.set v s).0 ≡ success)
        × (b.get (x.set v s).1 ≡ of_value (if i == j then narrow b.field v else s.fields b.field)))
      (sym (all i a e))
      (subst
        (λ y.
          ((write a.field v s).0 ≡ success)
          × (y.get (write a.field v s).1
              ≡ of_value (if i == j then narrow b.field v else s.fields b.field)))
        (sym (all j b f))
        (subst
          (λ t.
            ((write a.field v s).0 ≡ success)
            × (read b.field (write a.field v s).1
                ≡ of_value (if t then narrow b.field v else s.fields b.field)))
          apart body))
