-- ===== src/PageTable/Mapping/Range.antt =====
-- hypervisor/src/x64/page_table.cpp, `map_from`: a range of pages in the translation.
use zpp_hypervisor.Common.{
  ℕ, zero, suc, true, false, ◌+◌, ◌-◌, ◌*◌, ◌/◌, ◌%◌, ◌^◌, ◌<◌, ◌≤◌, ◌≡◌, ◌==◌, inl, inr, ◌∙◌, ap,
  arith, refl, if◌then◌else◌, Bool-cases, ==_iff,
}
use zpp_hypervisor.Word.{u64}
use zpp_hypervisor.PageTable.{
  PageTable, Protection, page_size, number_of_pages, virtual_to_physical, map_page, map_pages,
  map_from,
}
use zpp_hypervisor.PageTable.Mapping.{
  IsValid, same_slot, map_page_from-IsValid, virtual_to_physical-map_page_from,
}

module _ (other : ℕ → ℕ) (base : ℕ) (protection : Protection) where
  abbrev page : ℕ → ℕ
  page i = u64 (base + i * page_size)

  virtual_to_physical-map_page :
      (i : ℕ) (t : PageTable) (b : ℕ)
      → IsValid t
      → virtual_to_physical (map_page (page i) (other (page i)) protection t) b ≡ (
          if same_slot (page i) b
          then other (page i) / 2 ^ 12 % 2 ^ 40 * 2 ^ 12 + b % 2 ^ 12
          else virtual_to_physical t b)
  unfolding map_page
  virtual_to_physical-map_page i t b v =
      virtual_to_physical-map_page_from virtual_to_physical (page i) (other (page i)) protection t b
        v

  map_page-IsValid :
      (i : ℕ) (t : PageTable)
      → IsValid t
      → IsValid (map_page (page i) (other (page i)) protection t)
  unfolding map_page
  map_page-IsValid i t v =
      map_page_from-IsValid virtual_to_physical (page i) (other (page i)) protection t v

  map_pages-IsValid :
      (left i : ℕ) (t : PageTable) → IsValid t → IsValid (map_pages other base protection left i t)
  unfolding map_pages
  map_pages-IsValid zero i t v = v
  map_pages-IsValid (suc left) i t v = map_pages-IsValid left (i + 1) _ (map_page-IsValid i t v)

  map_pages-keeps :
      (left i : ℕ) (t : PageTable) (b : ℕ)
      → IsValid t
      → ((k : ℕ) → i ≤ k → k < i + left → same_slot (page k) b ≡ false)
      → virtual_to_physical (map_pages other base protection left i t) b ≡ virtual_to_physical t b
  unfolding map_pages
  map_pages-keeps zero i t b v apart = refl
  map_pages-keeps (suc left) i t b v apart =
      map_pages-keeps left (i + 1) _ b (map_page-IsValid i t v)
        (λ k lo hi. apart k (omega arith) (omega arith))
      ∙ virtual_to_physical-map_page i t b v
      ∙ rw (apart i (omega arith) (omega arith))

  module _ (aligned : base % 2 ^ 12 ≡ 0) (j b : ℕ) (lo : base + j * 2 ^ 12 ≤ b)
      (hi : b < base + j * 2 ^ 12 + 2 ^ 12) where
    -- Of the 2 ^ 18 pages from that of `b` on, only the first shares its slot.
    page-apart :
        (k : ℕ) → base + k * 2 ^ 12 < 2 ^ 64 → j < k → k < j + 2 ^ 18 → same_slot (page k) b ≡ false
    page-apart k fits above near = ground arith

    page-same : base + j * 2 ^ 12 < 2 ^ 64 → same_slot (page j) b ≡ true
    page-same fits = ground arith

    module _ (n : ℕ) (small : n ≤ 2 ^ 18) (fits : base + n * 2 ^ 12 ≤ 2 ^ 64) where
      -- The loop from `i`, while the page of `b` is still to come.
      map_pages-translate :
          (left i : ℕ) (t : PageTable)
          → IsValid t
          → i + left ≡ n
          → i ≤ j
          → j < n
          → virtual_to_physical (map_pages other base protection left i t) b
            ≡ other (page j) / 2 ^ 12 % 2 ^ 40 * 2 ^ 12 + b % 2 ^ 12
      unfolding map_pages
      map_pages-translate zero i t v e p q = absurd (omega arith)
      map_pages-translate (suc left) i t v e p q = elim (Bool-cases (i == j)) [
        | inr later ↦
            map_pages-translate left (i + 1) _ (map_page-IsValid i t v) (omega arith) (ground arith)
              q
        | inl now ↦
            map_pages-keeps left (i + 1) _ b (map_page-IsValid i t v)
              (λ k l h. page-apart k (omega arith) (ground arith) (ground arith))
            ∙ virtual_to_physical-map_page i t b v
            ∙ rw ((==_iff i j).0 now) (rw (page-same (omega arith)))
      ]

-- After `map_from` every address of the range, whole pages of it and at most 1 GB, translates to the
-- page that the other table gives for its own page, at the same offset.
pub virtual_to_physical-map_from :
    (other : ℕ → ℕ) (base size : ℕ) (protection : Protection) (t : PageTable) (b : ℕ)
    → IsValid t
    → base % 2 ^ 12 ≡ 0
    → size ≤ 2 ^ 30
    → base + size + 2 ^ 12 ≤ 2 ^ 64
    → base ≤ b
    → b < base + size
    → virtual_to_physical (map_from other base size protection t) b
      ≡ other (b / 2 ^ 12 * 2 ^ 12) / 2 ^ 12 % 2 ^ 40 * 2 ^ 12 + b % 2 ^ 12
unfolding map_from
virtual_to_physical-map_from other base size protection t b v aligned small fits lo hi =
    let j : ℕ = (b - base) / 2 ^ 12 in
    let its_page : u64 (base + j * page_size) ≡ b / 2 ^ 12 * 2 ^ 12 = omega arith in
    map_pages-translate other base protection aligned j b (omega arith) (omega arith)
      (number_of_pages size) (omega arith) (omega arith) (number_of_pages size) 0 t v (omega arith)
      (omega arith) (omega arith)
    ∙ ap (λ a. other a / 2 ^ 12 % 2 ^ 40 * 2 ^ 12 + b % 2 ^ 12) its_page

-- `map_from` leaves the translation of an address alone whose slot no page of the range has.
pub map_from-keeps :
    (other : ℕ → ℕ) (base size : ℕ) (protection : Protection) (t : PageTable) (b : ℕ)
    → IsValid t
    → ((k : ℕ) → k < number_of_pages size → same_slot (u64 (base + k * page_size)) b ≡ false)
    → virtual_to_physical (map_from other base size protection t) b ≡ virtual_to_physical t b
unfolding map_from
map_from-keeps other base size protection t b v apart =
    map_pages-keeps other base protection (number_of_pages size) 0 t b v
      (λ k lo hi. apart k (omega arith))
