-- ===== src/SmallMap/Emplace.antt =====
-- hypervisor/include/zpp/small_map.h: the array behind `emplace`, and its order.
use zpp_hypervisor.Common.{
  ℕ, ◌+◌, ◌-◌, ◌<◌, ◌≤◌, ◌≡◌, Bool, true, false, ◌==◌, ltb, refl, arith, if◌then◌else◌, update, ◌⊎◌,
  inl, inr, Bool-cases,
}
use zpp_hypervisor.SmallMap.{Entry, SmallMap, find_index, place, put, emplace}
use zpp_hypervisor.ErrorCode.{ok}
use zpp_hypervisor.SmallMap.Search.{IsSorted, Locates, find_index-Locates}
use zpp_hypervisor.SmallMap.Shift.{shift_right_lem}

module _ {V : Type 0} where
  abbrev pub entry : ℕ → V → Entry V
  entry key value = record { key = key; value = value }

  -- The key was there, and its value is new.
  pub record Replaced (m : SmallMap V) (key : ℕ) (value : V) (m' : SmallMap V) : Type 0 where
    pub index : ℕ
    pub inside : index < m.size
    pub same_key : (m.storage index).key ≡ key
    pub same_size : m'.size ≡ m.size
    pub written : (i : ℕ) → m'.storage i ≡ (if index == i then entry key value else m.storage i)

  -- The key was not there, and stands now between the smaller and the larger keys.
  pub record Inserted (m : SmallMap V) (key : ℕ) (value : V) (m' : SmallMap V) : Type 0 where
    pub index : ℕ
    pub inside : index ≤ m.size
    pub below : (i : ℕ) → i < index → (m.storage i).key < key
    pub above : (i : ℕ) → index ≤ i → i < m.size → key < (m.storage i).key
    pub grown : m'.size ≡ m.size + 1
    pub moved :
        (i : ℕ)
        → i ≤ m.size
        → m'.storage i ≡ (
            if i == index
            then entry key value
            else if ltb index i
            then m.storage (i - 1)
            else m.storage i)

  abbrev pub Emplaced : SmallMap V → ℕ → V → SmallMap V → Type 0
  Emplaced m key value m' = Replaced m key value m' ⊎ Inserted m key value m'

  module _ (m : SmallMap V) (key : ℕ) (value : V) where
    place-moved :
        (index i : ℕ)
        → index ≤ m.size
        → i ≤ m.size
        → (place (false, index) key value m).storage i ≡ (
            if i == index
            then entry key value
            else if ltb index i
            then m.storage (i - 1)
            else m.storage i)
    unfolding place
    place-moved index i p q = ground (
      arith,
      shift_right_lem (m.size - 1 - index) index (update m.storage m.size (m.storage (m.size - 1)))
          i,
    )

    place-grown : (index : ℕ) → (place (false, index) key value m).size ≡ m.size + 1
    unfolding place
    place-grown index = ground arith

    place-Emplaced : (r : Bool × ℕ) → Locates m key r → Emplaced m key value (place r key value m)
    unfolding place
    place-Emplaced (true, index) (inside, same) = inl (record {
      index = index;
      inside = inside;
      same_key = same;
      same_size = refl;
      written = λ i. refl;
    })
    place-Emplaced (false, index) (inside, below, above) = inr (record {
      index = index;
      inside = inside;
      below = below;
      above = above;
      grown = place-grown index;
      moved = λ i p. place-moved index i inside p;
    })

    pub put-Emplaced : IsSorted m → Emplaced m key value (put key value m)
    unfolding put
    put-Emplaced sorted = elim (Bool-cases (m.size == 0)) [
      | inl empty ↦ rw (empty) (
          inr (record {
            index = 0;
            inside = omega arith;
            below = λ i p. absurd (omega arith);
            above = λ i p q. absurd (ground arith);
            grown = ground arith;
            moved = λ i p. ground arith;
          }))
      | inr some ↦ rw (some) (place-Emplaced (find_index m key) (find_index-Locates m key sorted))
    ]

    place-capacity : (r : Bool × ℕ) → (place r key value m).capacity ≡ m.capacity
    unfolding place
    place-capacity (true, index) = refl
    place-capacity (false, index) = elim (Bool-cases (index == m.size)) [
      | inl last ↦ rw last refl
      | inr inner ↦ rw inner refl
    ]

    pub put-capacity : (put key value m).capacity ≡ m.capacity
    unfolding put
    put-capacity = elim (Bool-cases (m.size == 0)) [
      | inl empty ↦ rw empty refl
      | inr some ↦ rw some (place-capacity (find_index m key))
    ]

    pub put-size : IsSorted m → (put key value m).size ≤ m.size + 1
    put-size sorted = elim (put-Emplaced sorted) [
      | inl r ↦ omega (arith, r.same_size)
      | inr r ↦ omega (arith, r.grown)
    ]

    -- With room for one more value `emplace` succeeds.
    pub emplace-room : IsSorted m → m.size < m.capacity → emplace key value m ≡ ok (put key value m)
    unfolding emplace
    emplace-room sorted room =
        let fits : ltb m.capacity (put key value m).size ≡ false =
          ground (arith, put-size sorted) in
        rw fits refl

    -- The array stays sorted.
    pub put-IsSorted : IsSorted m → IsSorted (put key value m)
    put-IsSorted sorted = elim (put-Emplaced sorted) [
      | inl r ↦ λ i j p q. ground (
        arith,
        r.same_size,
        r.same_key,
        r.written i,
        r.written j,
        sorted i j,
        sorted i r.index,
        sorted r.index j,
      )
      | inr r ↦ λ i j p q. ground (
        arith,
        r.grown,
        r.moved i,
        r.moved j,
        sorted i j,
        sorted (i - 1) (j - 1),
        sorted i (j - 1),
        r.below i,
        r.below j,
        r.above (i - 1),
        r.above (j - 1),
      )
    ]
