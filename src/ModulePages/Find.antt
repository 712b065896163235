-- ===== src/ModulePages/Find.antt =====
-- hypervisor/src/hypervisor/hypervisor.cpp: lookups in the map of the module's pages.
use zpp_hypervisor.Common.{
  ℕ, zero, suc, ◌+◌, ◌*◌, ◌/◌, ◌%◌, ◌^◌, ◌<◌, ◌≤◌, ◌≡◌, ◌≢◌, false, ◌==◌, leb, refl, arith, ◌∙◌, ap,
  inl, inr, Bool-cases, ==_iff, ==_ne, some, subst,
}
use zpp_hypervisor.Word.{u64}
use zpp_hypervisor.SmallMap.{SmallMap, put}
use zpp_hypervisor.SmallMap.Search.{IsSorted}
use zpp_hypervisor.SmallMap.Emplace.{put-IsSorted, put-size, put-capacity, emplace-room}
use zpp_hypervisor.SmallMap.Lookup.{lookup, lookup-put}
use zpp_hypervisor.ErrorCode.{ok}
use zpp_hypervisor.ExtendedPaging.{Host, resolve, table_address, ept_count}
use zpp_hypervisor.ExtendedPaging.Invariant.{Located, resolve_lem}
use zpp_hypervisor.ModulePages.{page_size, emplace_pages, initialize_module_physical_to_virtual}

module _ (virtual_to_physical : ℕ → ℕ) (module_base : ℕ) where
  abbrev pub page : ℕ → ℕ
  page k = u64 (module_base + page_size * k)

  -- The pages up to `n` are at different physical addresses.
  abbrev pub Apart : ℕ → Type 0
  Apart n =
      (i j : ℕ)
      → i < n
      → j < n
      → virtual_to_physical (page i) ≡ virtual_to_physical (page j)
      → i ≡ j

  -- The loop as long as the array has room.
  put_pages : ℕ → ℕ → SmallMap ℕ → SmallMap ℕ
  put_pages zero i m = m
  put_pages (suc left) i m = put_pages left (i + 1) (put (virtual_to_physical (page i)) (page i) m)

  emplace_pages-room :
      (left i : ℕ) (m : SmallMap ℕ)
      → IsSorted m
      → m.size + left ≤ m.capacity
      → emplace_pages virtual_to_physical module_base left i m ≡ ok (put_pages left i m)
  unfolding emplace_pages put_pages
  emplace_pages-room zero i m sorted room = refl
  emplace_pages-room (suc left) i m sorted room =
      let key = virtual_to_physical (page i) in
      let now = emplace-room m key (page i) sorted (omega (arith, room)) in
      rw (emplace_pages, now)
        (emplace_pages-room left (i + 1) (put key (page i) m) (put-IsSorted m key (page i) sorted)
          (omega (arith, room, put-size m key (page i) sorted, put-capacity m key (page i))))

  put_pages-IsSorted : (left i : ℕ) (m : SmallMap ℕ) → IsSorted m → IsSorted (put_pages left i m)
  unfolding put_pages
  put_pages-IsSorted zero i m sorted = sorted
  put_pages-IsSorted (suc left) i m sorted =
      put_pages-IsSorted left (i + 1) _
        (put-IsSorted m (virtual_to_physical (page i)) (page i) sorted)

  put_pages-keeps :
      (left i : ℕ) (m : SmallMap ℕ) (key : ℕ)
      → IsSorted m
      → ((j : ℕ) → i ≤ j → j < i + left → virtual_to_physical (page j) ≢ key)
      → lookup (put_pages left i m) key ≡ lookup m key
  unfolding put_pages
  put_pages-keeps zero i m key sorted other = refl
  put_pages-keeps (suc left) i m key sorted other =
      put_pages-keeps left (i + 1) _ key
        (put-IsSorted m (virtual_to_physical (page i)) (page i) sorted)
        (λ j p q. other j (omega arith) (omega arith))
      ∙ lookup-put m (virtual_to_physical (page i)) (page i) sorted key
      ∙ rw (==_ne _ key (other i (omega arith) (omega arith))) refl

  module _ (n : ℕ) (apart : Apart n) where
    put_pages-finds :
        (left i k : ℕ) (m : SmallMap ℕ)
        → IsSorted m
        → i + left ≤ n
        → i ≤ k
        → k < i + left
        → lookup (put_pages left i m) (virtual_to_physical (page k)) ≡ some (page k)
    unfolding put_pages
    put_pages-finds zero i k m sorted bound p q = absurd (omega arith)
    put_pages-finds (suc left) i k m sorted bound p q =
        let m₁ = put (virtual_to_physical (page i)) (page i) m in
        let sorted₁ : IsSorted m₁ = put-IsSorted m (virtual_to_physical (page i)) (page i) sorted in
        elim (Bool-cases (i == k)) [
          | inr later ↦
              put_pages-finds left (i + 1) k m₁ sorted₁ (omega arith) (ground arith) (omega arith)
          | inl now ↦
              let same : i ≡ k = (==_iff i k).0 now in
              put_pages-keeps left (i + 1) m₁ (virtual_to_physical (page k)) sorted₁
                (λ j lo hi e. omega (arith, apart j k (omega arith) (omega arith) e))
              ∙ lookup-put m (virtual_to_physical (page i)) (page i) sorted
                  (virtual_to_physical (page k))
              ∙ rw
                  ((==_iff (virtual_to_physical (page i)) (virtual_to_physical (page k))).1
                    (ap (λ x. virtual_to_physical (page x)) same))
                  (ap (λ x. some (page x)) same)
        ]

-- For a sorted map whose array is larger than the number of the module's pages and has room for them
-- behind what it holds, the function succeeds with a sorted map that finds each of the pages by its
-- physical address. The pages are at different physical addresses.
pub initialize_module_physical_to_virtual-lookup :
    (virtual_to_physical : ℕ → ℕ) (module_base module_size : ℕ) (m : SmallMap ℕ)
    → IsSorted m
    → module_size / page_size < m.capacity
    → m.size + module_size / page_size ≤ m.capacity
    → Apart virtual_to_physical module_base (module_size / page_size)
    → (m' : SmallMap ℕ) × (initialize_module_physical_to_virtual virtual_to_physical module_base
          module_size m
        ≡ ok m')
      × IsSorted m'
      × ((k : ℕ)
          → k < module_size / page_size
          → lookup m' (virtual_to_physical (u64 (module_base + page_size * k)))
            ≡ some (u64 (module_base + page_size * k)))
unfolding initialize_module_physical_to_virtual
initialize_module_physical_to_virtual-lookup v base size m sorted below room apart =
    let fits : leb m.capacity (size / page_size) ≡ false = ground arith in
    rw fits (
      put_pages v base (size / page_size) 0 m,
      emplace_pages-room v base (size / page_size) 0 m sorted room,
      put_pages-IsSorted v base (size / page_size) 0 m sorted,
      λ k p.
          put_pages-finds v base (size / page_size) apart (size / page_size) 0 k m sorted
            (omega arith) (omega arith) (omega arith),
    )

-- A map that finds the module's pages finds the tables of `ept`, which are the module's pages from
-- `first` on, where the page table puts pages at page addresses below 2 ^ 52.
pub lookup-Located :
    (h : Host) (module_base first number_of_pages n : ℕ)
    → h.ept_address ≡ module_base + page_size * first
    → first + n ≤ number_of_pages
    → n ≤ ept_count
    → module_base + page_size * number_of_pages < 2 ^ 64
    → ((k : ℕ)
        → k < number_of_pages
        → lookup h.module_physical_to_virtual
            (h.virtual_to_physical (u64 (module_base + page_size * k)))
          ≡ some (u64 (module_base + page_size * k)))
    → ((k : ℕ)
        → k < number_of_pages
        → h.virtual_to_physical (u64 (module_base + page_size * k)) / 2 ^ 12 % 2 ^ 40 * 2 ^ 12
          ≡ h.virtual_to_physical (u64 (module_base + page_size * k)))
    → Located h n
lookup-Located h base first number n at inside count fits found aligned k p =
    let same : u64 (base + page_size * (first + k)) ≡ table_address h k = omega arith in
    let v = h.virtual_to_physical in
    let page : v (table_address h k) / 2 ^ 12 % 2 ^ 40 * 2 ^ 12 ≡ v (table_address h k) =
      subst (λ a. v a / 2 ^ 12 % 2 ^ 40 * 2 ^ 12 ≡ v a) same (aligned (first + k) (omega arith)) in
    let here : lookup h.module_physical_to_virtual (v (table_address h k))
        ≡ some (table_address h k) =
      subst (λ a. lookup h.module_physical_to_virtual (v a) ≡ some a) same
        (found (first + k) (omega arith)) in
    ap (resolve h) page ∙ resolve_lem h (v (table_address h k)) k here (omega arith)
