-- ===== src/ExtendedPaging/Initialize.antt =====
-- hypervisor/src/hypervisor/hypervisor.cpp, `initialize_ept`: the extended page tables for the
-- first 512 GB of memory, with the memory types of the ranges.
pub mod Identity
pub mod Upper
use zpp_hypervisor.Common.{
  ℕ, zero, suc, ◌+◌, ◌-◌, ◌*◌, ◌/◌, ◌%◌, ◌^◌, ◌<◌, ◌≤◌, ◌≡◌, Bool, true, false, ◌==◌, ltb, leb, not,
  ◌&&◌, ◌||◌, refl, ap, sym, ◌∙◌, arith, if◌then◌else◌, update, Bool-cases, ==_iff, inl, inr,
  Option, some, none, List, [], ◌∷◌,
}
use zpp_hypervisor.Word.{u64, ◌<<<◌, ◌>>>◌}
use zpp_hypervisor.Epte
use zpp_hypervisor.MemoryType.{code, write_back}
use zpp_hypervisor.ExtendedPaging.{Tables, grant}
use zpp_hypervisor.ExtendedPaging.Mtrrs.{Mtrr}

-- The predicate of `std::find_if`.
pub covers_large_page : ℕ → Mtrr → Bool
covers_large_page physical_address mtrr =
    if not mtrr.valid
    then false
    else if ltb (u64 (physical_address + (1 <<< 21 - 1))) mtrr.physical_base
    then false
    else not (leb (u64 (mtrr.physical_base + mtrr.size)) physical_address)

-- `std::find_if` over the elements from `i` on.
pub find_mtrr : ℕ → ℕ → (ℕ → Mtrr) → ℕ → Option Mtrr
find_mtrr zero i mtrrs physical_address = none
find_mtrr (suc left) i mtrrs physical_address =
    if covers_large_page physical_address (mtrrs i)
    then some (mtrrs i)
    else find_mtrr left (i + 1) mtrrs physical_address

-- The type for the large page at a physical address.
pub type_at : (ℕ → Mtrr) → ℕ → ℕ
type_at mtrrs physical_address = elim (find_mtrr 8 0 mtrrs physical_address) [
  | none ↦ code write_back
  | some mtrr ↦ mtrr.type
]

-- `rwx_pdpte` and `rwx_pde`.
abbrev pub rwx_pdpte : Epte.Epte
rwx_pdpte = grant true 0

abbrev pub rwx_pde : Epte.Epte
rwx_pde = Epte.set_large true (grant true 0)

-- The entry of a large page.
pub large_entry : (ℕ → Mtrr) → ℕ → Epte.Epte
large_entry mtrrs large_page_number =
    Epte.set_type (type_at mtrrs (large_page_number <<< 21))
      (Epte.set_large_page_number large_page_number rwx_pde)

-- The inner loop, from entry `j` on.
pub fill_directory : (ℕ → Mtrr) → ℕ → ℕ → ℕ → (ℕ → Epte.Epte) → ℕ → Epte.Epte
fill_directory mtrrs zero j large_page_number directory = directory
fill_directory mtrrs (suc left) j large_page_number directory =
    fill_directory mtrrs left (j + 1) (large_page_number + 1)
      (update directory j (large_entry mtrrs large_page_number))

-- The outer loop, from directory `i` on.
pub fill_directories : (ℕ → Mtrr) → ℕ → ℕ → ℕ → (ℕ → ℕ → Epte.Epte) → ℕ → ℕ → Epte.Epte
fill_directories mtrrs zero i large_page_number epd = epd
fill_directories mtrrs (suc left) i large_page_number epd =
    fill_directories mtrrs left (i + 1) (large_page_number + 512)
      (update epd i (fill_directory mtrrs 512 0 large_page_number (epd i)))

-- The loop over `epdpt`: `page i` is the physical address of `epd[i]`.
pub fill_pointers : (ℕ → ℕ) → ℕ → ℕ → (ℕ → Epte.Epte) → ℕ → Epte.Epte
fill_pointers page zero i epdpt = epdpt
fill_pointers page (suc left) i epdpt =
    fill_pointers page left (i + 1)
      (update epdpt i (Epte.set_page_number (page i >>> 12) rwx_pdpte))

-- The three levels that `initialize_ept` fills: the first entry of `epml4`, `epdpt` and `epd`.
pub record Levels : Type 0 where
  pub epml4e : Epte.Epte
  pub epdpt : ℕ → Epte.Epte
  pub epd : ℕ → ℕ → Epte.Epte

-- `epdpt_page` and `epd_page` are where the page table finds the arrays.
pub initialize_ept : (ℕ → Mtrr) → ℕ → (ℕ → ℕ) → Levels → Levels
initialize_ept mtrrs epdpt_page epd_page levels = record {
  epml4e = Epte.set_page_number (epdpt_page >>> 12) (grant true levels.epml4e);
  epdpt = fill_pointers epd_page 512 0 levels.epdpt;
  epd = fill_directories mtrrs 512 0 0 levels.epd;
}

module _ (mtrrs : ℕ → Mtrr) where
  number_later :
      (j b number : ℕ)
      → j < b
      → large_entry mtrrs (number + 1 + (b - (j + 1))) ≡ large_entry mtrrs (number + (b - j))
  number_later j b number f = ap (large_entry mtrrs) (omega arith)

  number_here :
      (j b number : ℕ) → j ≡ b → large_entry mtrrs number ≡ large_entry mtrrs (number + (b - j))
  number_here j b number e = ap (large_entry mtrrs) (omega arith)

  fill_directory_lem :
      (left j number : ℕ) (directory : ℕ → Epte.Epte) (b : ℕ)
      → fill_directory mtrrs left j number directory b ≡ (
          if leb j b && ltb b (j + left) then large_entry mtrrs (number + (b - j)) else directory b)
  unfolding fill_directory
  fill_directory_lem zero j number directory b = ground arith
  fill_directory_lem (suc left) j number directory b = elim (Bool-cases (j == b)) [
    | inr other ↦ ground (
      arith,
      fill_directory_lem left (j + 1) (number + 1) (update directory j (large_entry mtrrs number))
          b,
      number_later j b number,
    )
    | inl here ↦ ground (
      arith,
      fill_directory_lem left (j + 1) (number + 1) (update directory j (large_entry mtrrs number))
          b,
      number_here j b number,
    )
  ]

  pub fill_directories-keeps :
      (left i number : ℕ) (epd : ℕ → ℕ → Epte.Epte) (a b : ℕ)
      → a < i
      → fill_directories mtrrs left i number epd a b ≡ epd a b
  unfolding fill_directories
  fill_directories-keeps zero i number epd a b f = refl
  fill_directories-keeps (suc left) i number epd a b f =
      let other : (i == a) ≡ false = ground arith in
      fill_directories-keeps left (i + 1) (number + 512) _ a b (omega arith) ∙ rw other refl

  first_directory :
      (i a number : ℕ) (epd : ℕ → ℕ → Epte.Epte) (b : ℕ)
      → i ≡ a
      → b < 512
      → fill_directory mtrrs 512 0 number (epd i) b ≡ large_entry mtrrs (number + (a - i) * 512 + b)
  first_directory i a number epd b e f =
      let inside : (leb 0 b && ltb b (0 + 512)) ≡ true = ground arith in
      fill_directory_lem 512 0 number (epd i) b
      ∙ rw inside (ap (large_entry mtrrs) (omega (arith, e)))

  -- Directory `a` gets its large pages in order.
  pub fill_directories_lem :
      (left i number : ℕ) (epd : ℕ → ℕ → Epte.Epte) (a b : ℕ)
      → i ≤ a
      → a < i + left
      → b < 512
      → fill_directories mtrrs left i number epd a b
        ≡ large_entry mtrrs (number + (a - i) * 512 + b)
  unfolding fill_directories
  fill_directories_lem zero i number epd a b f g k = absurd (omega arith)
  fill_directories_lem (suc left) i number epd a b f g k = elim (Bool-cases (i == a)) [
    | inr other ↦
        fill_directories_lem left (i + 1) (number + 512)
          (update epd i (fill_directory mtrrs 512 0 number (epd i))) a b (ground arith)
          (omega arith) k
        ∙ ap (large_entry mtrrs) (ground arith)
    | inl here ↦
        fill_directories-keeps left (i + 1) (number + 512)
          (update epd i (fill_directory mtrrs 512 0 number (epd i))) a b (ground arith)
        ∙ rw here (first_directory i a number epd b ((==_iff i a).0 here) k)
  ]
