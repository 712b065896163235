-- ===== src/ExtendedPaging/View.antt =====
-- The guest's physical memory as the extended page tables show it, from the page directories on: for
-- each page the rights, the page of machine memory behind it, and the memory type.
use zpp_hypervisor.Common.{
  ℕ, ◌+◌, ◌*◌, ◌^◌, Bool, true, false, Option, none, some, ◌≡◌, ◌==◌, ◌&&◌, if◌then◌else◌,
}
use zpp_hypervisor.Word.{◌<<<◌}
use zpp_hypervisor.Epte
use zpp_hypervisor.ExtendedPaging.{Tables, Host, resolve}
use zpp_hypervisor.ExtendedPaging.Entries.{Rights, all_rights, rights}

pub record Leaf : Type 0 where
  pub allowed : Rights
  pub frame : ℕ
  pub memory_type : ℕ

-- A 4 KB page within a large page, and one with an entry of its own.
abbrev pub large_leaf : Epte.Epte → ℕ → Leaf
large_leaf e c = record {
  allowed = rights e;
  frame = Epte.large_page_number e * 2 ^ 9 + c;
  memory_type = Epte.type e;
}

abbrev pub small_leaf : Epte.Epte → Leaf
small_leaf e = record { allowed = rights e; frame = Epte.page_number e; memory_type = Epte.type e }

-- The leaf for entry `c` of the table behind `epd[a][b]`, or for the 4 KB page `c` of the large page
-- there; `none` where the entry points to no table of the hypervisor.
pub view : Host → Tables → ℕ → ℕ → ℕ → Option Leaf
view h t a b c =
    if Epte.large (t.epd a b)
    then some (large_leaf (t.epd a b) c)
    else elim (resolve h (Epte.page_number (t.epd a b) <<< 12)) [
      | none ↦ none
      | some k ↦ some (small_leaf (t.ept k c))
    ]

-- The page with all its rights set to `v`.
abbrev pub with_rights : Bool → Option Leaf → Option Leaf
with_rights v none = none
with_rights v (some l) = some (record l { allowed = all_rights v })

abbrev pub same_page : ℕ → ℕ → ℕ → ℕ → ℕ → ℕ → Bool
same_page a b c a' b' c' = (a == a') && ((b == b') && (c == c'))

module _ (h : Host) (t : Tables) (a b c : ℕ) where
  pub view-large : Epte.large (t.epd a b) ≡ true → view h t a b c ≡ some (large_leaf (t.epd a b) c)
  unfolding view
  view-large large = rw large

  pub view-small :
      (k : ℕ)
      → Epte.large (t.epd a b) ≡ false
      → resolve h (Epte.page_number (t.epd a b) <<< 12) ≡ some k
      → view h t a b c ≡ some (small_leaf (t.ept k c))
  unfolding view
  view-small k small e = rw (small, e)
