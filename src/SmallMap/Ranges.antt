-- ===== src/SmallMap/Ranges.antt =====
-- hypervisor/include/zpp/small_map.h: the operations on several values: insertion and erasure of a
-- range, the constructor from a range, and the move constructor.
use zpp_hypervisor.Common.{
  ℕ, zero, suc, ◌+◌, ◌≤◌, ◌<◌, ◌≡◌, Bool, true, false, ◌==◌, ltb, if◌then◌else◌, List, [], ◌∷◌,
  length, Option, none, some, update, refl, ap, ◌∙◌, arith, Bool-cases, inl, inr,
}
use zpp_hypervisor.SmallMap.{Entry, SmallMap, emplace, erase, put}
use zpp_hypervisor.ErrorCode.{Outcome, ok, failed, fault}
use zpp_hypervisor.SmallMap.Search.{IsSorted}
use zpp_hypervisor.SmallMap.Emplace.{put-IsSorted, put-size, put-capacity, emplace-room}
use zpp_hypervisor.SmallMap.Lookup.{lookup, lookup-put, lookup-Absent}
use zpp_hypervisor.SmallMap.Erase.{erase_lem}

module _ {V : Type 0} where
  abbrev pub insert : Entry V → SmallMap V → Outcome (SmallMap V)
  insert e m = emplace e.key e.value m

  pub insert_range : List (Entry V) → SmallMap V → Outcome (SmallMap V)
  insert_range [] m = ok m
  insert_range (e ∷ rest) m = elim (insert e m) [
    | ok m' ↦ insert_range rest m'
    | failed error ↦ failed error
    | fault ↦ fault
  ]

  -- The constructor from a range; the array of `capacity` elements has what memory had.
  pub construct_range : ℕ → (ℕ → Entry V) → List (Entry V) → Outcome (SmallMap V)
  construct_range capacity uninitialized l =
      insert_range l (record { capacity = capacity; storage = uninitialized; size = 0 })

  -- The loop of the move constructor from index `i`.
  pub move_from : ℕ → ℕ → (ℕ → Entry V) → (ℕ → Entry V) → ℕ → Entry V
  move_from zero i other storage = storage
  move_from (suc left) i other storage = move_from left (i + 1) other (update storage i (other i))

  -- The new map, and the one that it was moved from.
  pub move_construct : (ℕ → Entry V) → SmallMap V → SmallMap V × SmallMap V
  move_construct uninitialized other = (
    record other { storage = move_from other.size 0 other.storage uninitialized },
    record other { size = 0 },
  )

  -- `erase(first, first + n)`, which erases from the last position down.
  pub erase_range : ℕ → ℕ → SmallMap V → SmallMap V
  erase_range zero first m = m
  erase_range (suc n) first m = erase_range n first (erase (first + n) m)

  -- The value of the last entry with a key.
  unfoldable pub last_value : List (Entry V) → ℕ → Option V
  last_value [] key = none
  last_value (e ∷ rest) key = elim (last_value rest key) [
    | none ↦ if e.key == key then some e.value else none
    | some v ↦ some v
  ]

  or_else : Option V → Option V → Option V
  or_else (some v) o = some v
  or_else none o = o

  -- The insertion of a range as long as the array has room.
  put_range : List (Entry V) → SmallMap V → SmallMap V
  put_range [] m = m
  put_range (e ∷ rest) m = put_range rest (put e.key e.value m)

  insert_range-room :
      (l : List (Entry V)) (m : SmallMap V)
      → IsSorted m
      → m.size + length l ≤ m.capacity
      → insert_range l m ≡ ok (put_range l m)
  unfolding insert_range put_range
  insert_range-room [] m sorted room = refl
  insert_range-room (e ∷ rest) m sorted room =
      let now = emplace-room m e.key e.value sorted (omega (arith, room)) in
      rw (insert_range, now)
        (insert_range-room rest (put e.key e.value m) (put-IsSorted m e.key e.value sorted)
          (omega (arith, room, put-size m e.key e.value sorted, put-capacity m e.key e.value)))

  put_range_lem :
      (l : List (Entry V)) (m : SmallMap V) (key : ℕ)
      → IsSorted m
      → IsSorted (put_range l m)
        × (lookup (put_range l m) key ≡ or_else (last_value l key) (lookup m key))
  unfolding put_range last_value or_else
  put_range_lem [] m key sorted = (sorted, refl)
  put_range_lem (e ∷ rest) m key sorted =
      let (sorted', found) =
        put_range_lem rest (put e.key e.value m) key (put-IsSorted m e.key e.value sorted) in
      (
        sorted',
        found
            ∙ ap (or_else (last_value rest key)) (lookup-put m e.key e.value sorted key)
            ∙ first (last_value rest key) (e.key == key) e.value (lookup m key),
      )
    where
      first :
          (o : Option V) (b : Bool) (v : V) (old : Option V)
          → or_else o (if b then some v else old)
            ≡ or_else
                (elim o as (λ x. Option V) [ none ↦ if b then some v else none | some w ↦ some w ])
                old
      first (some w) b v old = refl
      first none true v old = refl
      first none false v old = refl

  -- A range of at most as many entries as the array has elements constructs a map that is sorted and
  -- finds for each key the value of its last entry in the range.
  pub construct_range_lem :
      (capacity : ℕ) (uninitialized : ℕ → Entry V) (l : List (Entry V))
      → length l ≤ capacity
      → (m : SmallMap V) × (construct_range capacity uninitialized l ≡ ok m)
        × IsSorted m
        × ((key : ℕ) → lookup m key ≡ last_value l key)
  unfolding construct_range or_else
  construct_range_lem capacity uninitialized l room =
      let nothing : SmallMap V = record {
        capacity = capacity;
        storage = uninitialized;
        size = 0;
      } in
      let none_sorted : IsSorted nothing = λ i j f g. absurd (omega arith) in
      (
        put_range l nothing,
        insert_range-room l nothing none_sorted (omega (arith, room)),
        (put_range_lem l nothing 0 none_sorted).0,
        λ key.
            (put_range_lem l nothing key none_sorted).1
            ∙ ap (or_else (last_value l key))
                (lookup-Absent nothing none_sorted key (λ i f. absurd (omega arith)))
            ∙ right (last_value l key),
      )
    where
      right : (o : Option V) → or_else o none ≡ o
      right (some v) = refl
      right none = refl

  -- Erasing n values of a sorted map from a position on, as many as it has there at least, shrinks
  -- it by n and keeps it sorted; elements before the position stay, those behind the range move
  -- down by n in their order.
  pub erase_range_lem :
      (n first : ℕ) (m : SmallMap V)
      → IsSorted m
      → first + n ≤ m.size
      → ((erase_range n first m).size + n ≡ m.size)
        × IsSorted (erase_range n first m)
        × ((i : ℕ)
            → i < (erase_range n first m).size
            → (erase_range n first m).storage i
              ≡ (if ltb i first then m.storage i else m.storage (i + n)))
  unfolding erase_range
  erase_range_lem zero first m sorted room = (
    omega arith,
    sorted,
    λ i f. elim (Bool-cases (ltb i first)) [
      | inl e ↦ rw (e) refl
      | inr e ↦ rw (e) (ap m.storage (omega arith))
    ],
  )
  erase_range_lem (suc n) first m sorted room =
      let (size, sorted', moved) = erase_lem m (first + n) sorted (omega (arith, room)) in
      let (size', sorted'', moved') =
        erase_range_lem n first (erase (first + n) m) sorted' (omega (arith, size, room)) in
      (
        omega (arith, size, size'),
        sorted'',
        λ i f. moved' i f ∙ elim (Bool-cases (ltb i first)) [
          | inl e ↦
              (let before : ltb i (first + n) ≡ true = ground arith in
                rw (e) (moved i (omega (arith, size', f)) ∙ rw (before) refl))
          | inr e ↦
              (let behind : ltb (i + n) (first + n) ≡ false = ground arith in
                rw (e) (
                  moved (i + n) (omega (arith, size', f))
                  ∙ rw (behind) (ap m.storage (omega arith))))
        ],
      )
