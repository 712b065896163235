-- ===== src/SmallMap.antt =====
-- hypervisor/include/zpp/small_map.h: a map kept sorted in an array, with binary search. The
-- program uses it with 64-bit keys and the default order, and so does the model; the values are of
-- any type. The storage is an array of `capacity` elements, of which the first `size` are alive.
pub mod Search
pub mod Shift
pub mod Emplace
pub mod Erase
pub mod Lookup
pub mod Ranges
use zpp_hypervisor.Common.{
  ℕ, zero, suc, ◌+◌, ◌-◌, ◌/◌, Bool, true, false, ◌==◌, ltb, Option, none, some, if◌then◌else◌,
  update,
}
use zpp_hypervisor.ErrorCode.{Outcome, ok, failed, fault}

-- How the loop of `find_index` ends: at a key equal to the one sought, or with `first == last`.
pub data Probe : Type 0 where
  hit : ℕ → Probe
  settled : ℕ → Probe

module _ (V : Type 0) where
  -- `value_type`.
  pub record Entry : Type 0 where
    pub key : ℕ
    pub value : V

  -- `capacity` is the template's `Size`; the elements from there on are not part of the array.
  pub record SmallMap : Type 0 where
    pub capacity : ℕ
    pub storage : ℕ → Entry
    pub size : ℕ

module _ {V : Type 0} where
  abbrev pub empty : SmallMap V → Bool
  empty m = m.size == 0

  pub clear : SmallMap V → SmallMap V
  clear m = record m { size = 0 }

  -- The loop of `find_index`; the fuel is the width of the range, which every round reduces.
  pub search : ℕ → (ℕ → Entry V) → ℕ → ℕ → ℕ → Probe
  search zero storage key first last = settled first
  search (suc fuel) storage key first last =
      let middle = (first + last) / 2 in
      elim (first == last) [
        | true ↦ settled first
        | false ↦ elim (ltb key (storage middle).key) [
          | true ↦ search fuel storage key first middle
          | false ↦ elim (ltb (storage middle).key key) [
            | true ↦ search fuel storage key (middle + 1) last
            | false ↦ hit middle
          ]
        ]
      ]

  -- The comparisons after the loop.
  pub settle : (ℕ → Entry V) → ℕ → Probe → Bool × ℕ
  settle storage key (hit middle) = (true, middle)
  settle storage key (settled first) =
      if ltb key (storage first).key
      then (false, first)
      else if ltb (storage first).key key
      then (false, first + 1)
      else (true, first)

  pub find_index : SmallMap V → ℕ → Bool × ℕ
  unfolding settle search
  find_index m key =
      if m.size == 0
      then (false, 0)
      else settle m.storage key (search m.size m.storage key 0 (m.size - 1))

  -- `find`: the index of the iterator, `none` for `end()`.
  pub find : SmallMap V → ℕ → Option ℕ
  find m key = let (found, index) = find_index m key in if found then some index else none

  -- The loop `*last = std::move(*(last - 1))`, from `last = slot + n` down to `slot`.
  pub shift_right : ℕ → ℕ → (ℕ → Entry V) → ℕ → Entry V
  shift_right zero slot storage = storage
  shift_right (suc n) slot storage =
      let last = slot + suc n in shift_right n slot (update storage last (storage (last - 1)))

  -- `emplace` where `find_index` gave the result, as long as the array has room.
  pub place : Bool × ℕ → ℕ → V → SmallMap V → SmallMap V
  unfolding shift_right
  place (found, index) key value m =
      let entry : Entry V = record { key = key; value = value } in
      if found
      then record m { storage = update m.storage index entry }
      else if index == m.size
      then record m { storage = update m.storage m.size entry; size = m.size + 1 }
      else let moved = update m.storage m.size (m.storage (m.size - 1)) in
        let shifted = shift_right (m.size - 1 - index) index moved in
        record m { storage = update shifted index entry; size = m.size + 1 }

  -- `emplace` as long as the array has room.
  pub put : ℕ → V → SmallMap V → SmallMap V
  put key value m =
      if m.size == 0
      then record m { storage = update m.storage 0 (record { key = key; value = value }); size = 1 }
      else place (find_index m key) key value m

  -- A value that is constructed past the array's end is undefined behaviour.
  pub emplace : ℕ → V → SmallMap V → Outcome (SmallMap V)
  unfolding put
  emplace key value m = let m' = put key value m in if ltb m.capacity m'.size then fault else ok m'

  -- The loop `*to_erase = std::move(*(to_erase + 1))`, n rounds from `position` on.
  pub shift_left : ℕ → ℕ → (ℕ → Entry V) → ℕ → Entry V
  shift_left zero position storage = storage
  shift_left (suc n) position storage =
      shift_left n (position + 1) (update storage position (storage (position + 1)))

  -- `erase(position)`.
  pub erase : ℕ → SmallMap V → SmallMap V
  unfolding shift_left
  erase position m = record m {
    storage = shift_left (m.size - 1 - position) position m.storage;
    size = m.size - 1;
  }

  -- The copy constructor: its loop runs to the size of the new map, which is 0 at the start.
  pub copy_rounds : ℕ → ℕ → SmallMap V → SmallMap V → SmallMap V
  copy_rounds zero i other this = this
  copy_rounds (suc fuel) i other this =
      let rest =
        copy_rounds fuel (i + 1) other (record this {
          storage = update this.storage i (other.storage i);
          size = this.size + 1;
        }) in
      if ltb i this.size then rest else this

  pub copy_construct : ℕ → (ℕ → Entry V) → SmallMap V → SmallMap V
  unfolding copy_rounds
  copy_construct fuel uninitialized other =
      copy_rounds fuel 0 other (record other { storage = uninitialized; size = 0 })
