-- ===== src/SmallMap/Lookup.antt =====
-- hypervisor/include/zpp/small_map.h: the map as a partial function from keys to values.
use zpp_hypervisor.Common.{
  ℕ, ◌+◌, ◌-◌, ◌<◌, ◌≤◌, ◌≡◌, ◌≢◌, Bool, true, false, ◌==◌, ltb, refl, arith, if◌then◌else◌, ◌∙◌,
  sym, ap, ◌⊎◌, inl, inr, Bool-cases, ==_iff, ==_ne, Option, none, some,
}
use zpp_hypervisor.SmallMap.{Entry, SmallMap, find_index, find, put, emplace}
use zpp_hypervisor.ErrorCode.{Outcome, ok, failed, fault}
use zpp_hypervisor.SmallMap.Search.{IsSorted, Locates, find_index-Locates}
use zpp_hypervisor.SmallMap.Emplace.{put-Emplaced, put-IsSorted, put-capacity}

module _ {V : Type 0} where
  -- `find(key)->second`, `none` at `end()`.
  abbrev pub lookup : SmallMap V → ℕ → Option V
  lookup m key = elim (find m key) [ none ↦ none | some i ↦ some (m.storage i).value ]

  abbrev pub Absent : SmallMap V → ℕ → Type 0
  Absent m key = (i : ℕ) → i < m.size → (m.storage i).key ≢ key

  module _ (m : SmallMap V) (sorted : IsSorted m) where
    keys-injective :
        (i j : ℕ) → i < m.size → j < m.size → (m.storage i).key ≡ (m.storage j).key → i ≡ j
    keys-injective i j p q e = ground (arith, sorted i j, sorted j i)

    find-present : (i key : ℕ) → i < m.size → (m.storage i).key ≡ key → find m key ≡ some i
    unfolding find
    find-present i key p e = by (find_index m key) (find_index-Locates m key sorted)
      where
        by :
            (r : Bool × ℕ)
            → Locates m key r
            → (let (found, index) = r in if found then some index else none) ≡ some i
        by (true, index) (inside, same) = ground (arith, keys-injective index i)
        by (false, index) (inside, below, above) = absurd (ground (arith, below i, above i))

    find-Absent : (key : ℕ) → Absent m key → find m key ≡ none
    unfolding find
    find-Absent key absent = by (find_index m key) (find_index-Locates m key sorted)
      where
        by :
            (r : Bool × ℕ)
            → Locates m key r
            → (let (found, index) = r in if found then some index else none) ≡ none
        by (true, index) (inside, same) = absurd (absent index inside same)
        by (false, index) l = refl

    present-or-Absent :
        (key : ℕ) → ((i : ℕ) × (i < m.size) × ((m.storage i).key ≡ key)) ⊎ Absent m key
    present-or-Absent key = by (find_index m key) (find_index-Locates m key sorted)
      where
        by :
            (r : Bool × ℕ)
            → Locates m key r
            → ((i : ℕ) × (i < m.size) × ((m.storage i).key ≡ key)) ⊎ Absent m key
        by (true, index) (inside, same) = inl (index, inside, same)
        by (false, index) (inside, below, above) = inr (λ i p e. ground (arith, below i, above i))

    lookup-present :
        (i key : ℕ) → i < m.size → (m.storage i).key ≡ key → lookup m key ≡ some (m.storage i).value
    lookup-present i key p e = rw (find-present i key p e, lookup)

    pub lookup-Absent : (key : ℕ) → Absent m key → lookup m key ≡ none
    lookup-Absent key absent = rw (find-Absent key absent, lookup)

  module _ (m : SmallMap V) (key : ℕ) (value : V) (sorted : IsSorted m) where
    lookup-put_self : lookup (put key value m) key ≡ some value
    lookup-put_self = elim (put-Emplaced m key value sorted) [
      | inl r ↦ at r.index (ground (arith, r.same_size)) (rw (r.written r.index) (ground arith))
      | inr r ↦
          at r.index (omega (arith, r.grown, r.inside))
            (rw (r.moved r.index r.inside) (ground arith))
    ]
      where
        at :
            (i : ℕ)
            → i < (put key value m).size
            → (put key value m).storage i ≡ record { key = key; value = value }
            → lookup (put key value m) key ≡ some value
        at i p e =
            lookup-present (put key value m) (put-IsSorted m key value sorted) i key p
              (ap (λ (x : Entry V). x.key) e)
            ∙ ap (λ (x : Entry V). some x.value) e

    kept :
        (j i' i : ℕ)
        → i < m.size
        → (m.storage i).key ≡ j
        → i' < (put key value m).size
        → (put key value m).storage i' ≡ m.storage i
        → lookup (put key value m) j ≡ lookup m j
    kept j i' i p e q same =
        lookup-present (put key value m) (put-IsSorted m key value sorted) i' j q
          (ap (λ (x : Entry V). x.key) same ∙ e)
        ∙ ap (λ (x : Entry V). some x.value) same
        ∙ sym (lookup-present m sorted i j p e)

    still-Absent : (j : ℕ) → key ≢ j → Absent m j → Absent (put key value m) j
    still-Absent j ne absent i p e = elim (put-Emplaced m key value sorted) [
      | inl r ↦ ground (arith, r.written i, r.same_size, absent i)
      | inr r ↦ ground (arith, r.moved i, r.grown, r.inside, absent i, absent (i - 1))
    ]

    still-present :
        (j i : ℕ)
        → key ≢ j
        → i < m.size
        → (m.storage i).key ≡ j
        → lookup (put key value m) j ≡ lookup m j
    still-present j i ne p e = elim (put-Emplaced m key value sorted) [
      | inl r ↦
          kept j i i p e (omega (arith, r.same_size))
            (r.written i ∙ rw (==_ne r.index i (ground (arith, r.same_key))))
      | inr r ↦ elim (Bool-cases (ltb i r.index)) [
        | inl before ↦
            kept j i i p e (omega (arith, r.grown)) (r.moved i (omega arith) ∙ ground arith)
        | inr after ↦
            kept j (i + 1) i p e (omega (arith, r.grown))
              (r.moved (i + 1) (omega arith) ∙ ground arith)
      ]
    ]

    lookup-put_other : (j : ℕ) → key ≢ j → lookup (put key value m) j ≡ lookup m j
    lookup-put_other j ne = elim (present-or-Absent m sorted j) [
      | inl (i, p, e) ↦ still-present j i ne p e
      | inr absent ↦
          lookup-Absent (put key value m) (put-IsSorted m key value sorted) j
            (still-Absent j ne absent)
          ∙ sym (lookup-Absent m sorted j absent)
    ]

    -- After the value is put the key has it, and every other key what it had.
    pub lookup-put :
        (j : ℕ) → lookup (put key value m) j ≡ (if key == j then some value else lookup m j)
    lookup-put j = elim (Bool-cases (key == j)) [
      | inl same ↦ rw same (rw (sym ((==_iff key j).0 same)) lookup-put_self)
      | inr other ↦ rw other (lookup-put_other j (ground arith))
    ]

  -- What `emplace` promises of its outcome: a map of the same array with the value, or the fault of a
  -- new key in a full map.
  abbrev pub Emplaces : SmallMap V → ℕ → V → Outcome (SmallMap V) → Type 0
  Emplaces m key value (ok m') =
      (m'.capacity ≡ m.capacity)
      × (m'.size ≤ m'.capacity)
      × IsSorted m'
      × ((j : ℕ) → lookup m' j ≡ (if key == j then some value else lookup m j))
  Emplaces m key value (failed e) = ⊥
  Emplaces m key value fault = (lookup m key ≡ none) × (m.size ≡ m.capacity)

  module _ (m : SmallMap V) (key : ℕ) (value : V) (sorted : IsSorted m) where
    emplace-fits :
        ltb m.capacity (put key value m).size ≡ false → Emplaces m key value (emplace key value m)
    unfolding emplace
    emplace-fits fits = rw fits (
      put-capacity m key value,
      ground (arith, put-capacity m key value),
      put-IsSorted m key value sorted,
      lookup-put m key value sorted,
    )

    emplace-full :
        ltb m.capacity (put key value m).size ≡ true
        → lookup m key ≡ none
        → m.size ≡ m.capacity
        → Emplaces m key value (emplace key value m)
    unfolding emplace
    emplace-full full absent same = rw full (absent, same)

    -- In a sorted map of an array with no more elements than it has room for, `emplace` faults only if
    -- the key is new and the map is full. Otherwise it gives a sorted map of the same array, again
    -- within its room, in which the key has the value and every other key what it had.
    pub lookup-emplace : m.size ≤ m.capacity → Emplaces m key value (emplace key value m)
    lookup-emplace bound = elim (put-Emplaced m key value sorted) [
      | inl r ↦ emplace-fits (ground (arith, r.same_size))
      | inr r ↦ elim (Bool-cases (ltb m.capacity (put key value m).size)) [
        | inr fits ↦ emplace-fits fits
        | inl full ↦
            emplace-full full
              (lookup-Absent m sorted key (λ i p e. ground (arith, r.below i, r.above i)))
              (ground (arith, r.grown))
      ]
    ]
