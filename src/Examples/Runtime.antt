-- ===== src/Examples/Runtime.antt =====
-- The C library's functions on a memory whose bytes are the last digits of their addresses.
use zpp_hypervisor.Common.{ℕ, ◌+◌, ◌-◌, ◌%◌, ◌≤◌, ◌<◌, ◌≡◌, ◌⊎◌, false, if◌then◌else◌}
use zpp_hypervisor.Crt.{memmove}
use zpp_hypervisor.Crt.Move.{within, memmove_lem}

abbrev digits : ℕ → ℕ
digits a = a % 10

memmove_lem_example :
    ((103 ≤ 101) ⊎ (101 + 6 ≤ 103)
      → (a : ℕ)
      → (memmove 103 101 6 digits).1 a
        ≡ (if within 103 6 a then digits (101 + (a - 103)) else digits a))
    × (101 < 103
        → ((j : ℕ)
            → j < 6
            → (memmove 103 101 6 digits).1 (103 + j) ≡ digits (101 + j % (103 - 101)))
          × ((a : ℕ) → within 103 6 a ≡ false → (memmove 103 101 6 digits).1 a ≡ digits a))
memmove_lem_example = memmove_lem 103 101 6 digits
