-- ===== src/SmallMap/Search.antt =====
-- hypervisor/include/zpp/small_map.h: the binary search for a key, or for the place where it
-- belongs.
use zpp_hypervisor.Common.{
  ℕ, zero, suc, ◌+◌, ◌-◌, ◌/◌, ◌<◌, ◌≤◌, ◌≡◌, Bool, true, false, ◌==◌, ltb, inl, inr, arith,
  Bool-cases, sym, subst, ◌≢◌, ==_iff, ltb→lt,
}
use zpp_hypervisor.SmallMap.{settled, SmallMap, search, settle, find_index}

module _ {V : Type 0} where
  -- Keys strictly ascend.
  abbrev pub IsSorted : SmallMap V → Type 0
  IsSorted m = (i j : ℕ) → i < j → j < m.size → (m.storage i).key < (m.storage j).key

  -- What the result of `find_index` promises.
  abbrev pub Locates : SmallMap V → ℕ → Bool × ℕ → Type 0
  Locates m key (true, index) = (index < m.size) × ((m.storage index).key ≡ key)
  Locates m key (false, index) =
      (index ≤ m.size)
      × ((i : ℕ) → i < index → (m.storage i).key < key)
      × ((i : ℕ) → index ≤ i → i < m.size → key < (m.storage i).key)

  module _ (m : SmallMap V) (key : ℕ) (sorted : IsSorted m) where
    record Narrowed (first last : ℕ) : Type 0 where
      ordered : first ≤ last
      inside : last < m.size
      below : (i : ℕ) → i < first → (m.storage i).key < key
      above : (i : ℕ) → last < i → i < m.size → key < (m.storage i).key

    settled-Locates :
        (first : ℕ) → Narrowed first first → Locates m key (settle m.storage key (settled first))
    unfolding settle
    settled-Locates first n = elim (Bool-cases (ltb key (m.storage first).key)) [
      | inl before ↦
          rw before (omega (arith, n.inside), n.below, λ i p q. ground (arith, n.above i))
      | inr not_before ↦ elim (Bool-cases (ltb (m.storage first).key key)) [
        | inl after ↦
            rw (not_before, after)
              (
                omega (arith, n.inside),
                λ i p. ground (arith, n.below i),
                λ i p q. n.above i (omega arith) q,
              )
        | inr not_after ↦ rw (not_before, not_after) (n.inside, ground arith)
      ]
    ]

    narrow_left :
        (first last : ℕ)
        → Narrowed first last
        → first ≢ last
        → key < (m.storage ((first + last) / 2)).key
        → Narrowed first ((first + last) / 2)
    narrow_left first last n open_ less = record {
      ordered = omega (arith, n.ordered);
      inside = omega (arith, n.inside, n.ordered);
      below = n.below;
      above = λ i p q. omega (arith, less, sorted ((first + last) / 2) i p q);
    }

    narrow_right :
        (first last : ℕ)
        → Narrowed first last
        → first ≢ last
        → (m.storage ((first + last) / 2)).key < key
        → Narrowed ((first + last) / 2 + 1) last
    narrow_right first last n open_ less = record {
      ordered = omega (arith, n.ordered);
      inside = n.inside;
      below = λ i p. ground (arith, sorted i ((first + last) / 2));
      above = n.above;
    }

    search-Locates :
        (fuel first last : ℕ)
        → last - first ≤ fuel
        → Narrowed first last
        → Locates m key (settle m.storage key (search fuel m.storage key first last))
    unfolding search settle
    search-Locates zero first last enough n =
        let same : last ≡ first = omega (arith, n.ordered) in
        settled-Locates first (subst (Narrowed first) same n)
    search-Locates (suc fuel) first last enough n = elim (Bool-cases (first == last)) [
      | inl done ↦
          rw (done, search)
            (settled-Locates first (subst (Narrowed first) (sym ((==_iff first last).0 done)) n))
      | inr more ↦ elim (Bool-cases (ltb key (m.storage ((first + last) / 2)).key)) [
        | inl left ↦
            rw (more, left, search)
              (search-Locates fuel first ((first + last) / 2) (ground arith)
                (narrow_left first last n (ground arith) (ltb→lt _ _ left)))
        | inr not_left ↦ elim (Bool-cases (ltb (m.storage ((first + last) / 2)).key key)) [
          | inl right ↦
              rw (more, not_left, right, search)
                (search-Locates fuel ((first + last) / 2 + 1) last (ground arith)
                  (narrow_right first last n (ground arith) (ltb→lt _ _ right)))
          | inr not_right ↦
              rw (more, not_left, not_right, search)
                (omega (arith, n.ordered, n.inside), ground arith)
        ]
      ]
    ]

  -- In a sorted map `find_index` gives the index of the key if it is there, and otherwise the index
  -- that parts the smaller keys from the larger ones.
  pub find_index-Locates :
      (m : SmallMap V) (key : ℕ) → IsSorted m → Locates m key (find_index m key)
  unfolding find_index
  find_index-Locates m key sorted = elim (Bool-cases (m.size == 0)) [
    | inl empty ↦
        rw empty (omega arith, λ i p. absurd (omega arith), λ i p q. absurd (ground arith))
    | inr some ↦ rw some (
        search-Locates m key sorted m.size 0 (m.size - 1) (omega arith) (record {
          ordered = omega arith;
          inside = ground arith;
          below = λ i p. absurd (omega arith);
          above = λ i p q. absurd (omega arith);
        }))
  ]
