-- ===== src/ExtendedPaging/Hiding/LargePages.antt =====
-- hypervisor/src/hypervisor/hypervisor.cpp, `protect_module`: the large pages that a module lies in,
-- each of which takes a table.
use mathlib.Core.Bool.{true≢false}
use zpp_hypervisor.Common.{
  ℕ, zero, suc, ◌+◌, ◌*◌, ◌/◌, ◌^◌, true, ◌&&◌, ◌≡◌, ◌==◌, if◌then◌else◌, ◌≤◌, inl, inr, Bool-cases,
  ap, sym, ◌∙◌, arith, ◌≢◌,
}
use zpp_hypervisor.Word.{◌>>>◌}
use zpp_hypervisor.Word.Fields.{bit_and_mask}
use zpp_hypervisor.ExtendedPaging.{Host, page_size}
use zpp_hypervisor.ExtendedPaging.Protect.{upper, middle}
use zpp_hypervisor.ExtendedPaging.Hiding.{within, large_pages}

same_large_page :
    (p q : ℕ) → p / 2 ^ 21 ≡ q / 2 ^ 21 → ((upper p == upper q) && (middle p == middle q)) ≡ true
same_large_page p q e =
    let up : upper p ≡ upper q = omega (arith, e) in
    let mid : middle p ≡ middle q =
      omega (arith, e, bit_and_mask 9 (p >>> 21), bit_and_mask 9 (q >>> 21)) in
    ground (arith, up, mid)

-- The pages of a module whose physical pages follow each other lie in the large pages between the
-- first and the last.
module _ (h : Host) (address first : ℕ)
    (follow : (j : ℕ)
      → h.virtual_to_physical (address + j * page_size) ≡ first + j * page_size) where
  -- The large page of physical page `j`.
  region : ℕ → ℕ
  region j = (first + j * page_size) / 2 ^ 21

  -- A page is the first in its large page only if the one before is in a lower one.
  new_page :
      (i : ℕ)
      → (let q = h.virtual_to_physical (address + suc i * page_size) in
          (if within h address (suc i) (upper q) (middle q) then 0 else 1) + region i
          ≤ region (suc i))
  unfolding within region
  new_page i =
      let p = h.virtual_to_physical (address + i * page_size) in
      let q = h.virtual_to_physical (address + suc i * page_size) in
      elim (Bool-cases ((upper p == upper q) && (middle p == middle q))) [
        | inl same ↦ rw same (omega arith)
        | inr other ↦
            let apart : p / 2 ^ 21 ≢ q / 2 ^ 21 =
              λ e. true≢false (sym (same_large_page p q e) ∙ other) in
            let most : (if within h address (suc i) (upper q) (middle q) then 0 else 1) ≤ 1 =
              ground arith in
            omega (arith, apart, most, follow i, follow (suc i))
      ]

  large_pages-from :
      (left i : ℕ) → large_pages h address left (suc i) + region i ≤ region (i + left)
  unfolding large_pages
  large_pages-from zero i =
      let same : region (i + 0) ≡ region i = ap region (omega arith) in omega (arith, same)
  large_pages-from (suc left) i =
      let last : region (suc i + left) ≡ region (i + suc left) = ap region (omega arith) in
      let next : large_pages h address left (suc i + 1) ≡ large_pages h address left (suc (suc i)) =
        ap (large_pages h address left) (omega arith) in
      omega (arith, new_page i, large_pages-from left (suc i), last, next)

  pub large_pages_lem :
      (left : ℕ)
      → large_pages h address (suc left) 0 + first / 2 ^ 21
        ≤ 1 + (first + left * page_size) / 2 ^ 21
  unfolding large_pages within region
  large_pages_lem left =
      let start : region 0 ≡ first / 2 ^ 21 = ap (λ x. x / 2 ^ 21) (omega arith) in
      let end : region (0 + left) ≡ (first + left * page_size) / 2 ^ 21 =
        ap (λ j. (first + j * page_size) / 2 ^ 21) (omega arith) in
      omega (arith, large_pages-from left 0, start, end)
