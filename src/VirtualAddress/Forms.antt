-- ===== src/VirtualAddress/Forms.antt =====
-- hypervisor/include/zpp/x64/virtual_address.h: the accessors of `virtual_address` as arithmetic on
-- the word.
use zpp_hypervisor.Common.{ℕ, ◌+◌, ◌*◌, ◌/◌, ◌%◌, ◌^◌, ◌<◌, ◌≡◌, refl, arith}
use zpp_hypervisor.Word.Fields.{put_lem, put_low_lem, bit_and_mask}
use zpp_hypervisor.VirtualAddress

pub offset-eq : (m : ℕ) → VirtualAddress.offset m ≡ m % 2 ^ 12
unfolding VirtualAddress.offset
offset-eq m = bit_and_mask 12 m

pub set_offset-eq :
    (v m : ℕ) → m < 2 ^ 64 → VirtualAddress.set_offset v m ≡ m / 2 ^ 12 * 2 ^ 12 + v % 2 ^ 12
unfolding VirtualAddress.set_offset
set_offset-eq v m h = rw (bit_and_mask 12 v) (put_low_lem 52 12 m refl h (v % 2 ^ 12) (omega arith))

pub large_offset-eq : (m : ℕ) → VirtualAddress.large_offset m ≡ m % 2 ^ 21
unfolding VirtualAddress.large_offset
large_offset-eq m = bit_and_mask 21 m

pub set_large_offset-eq :
    (v m : ℕ) → m < 2 ^ 64 → VirtualAddress.set_large_offset v m ≡ m / 2 ^ 21 * 2 ^ 21 + v % 2 ^ 21
unfolding VirtualAddress.set_large_offset
set_large_offset-eq v m h =
    rw (bit_and_mask 21 v) (put_low_lem 43 21 m refl h (v % 2 ^ 21) (omega arith))

pub huge_offset-eq : (m : ℕ) → VirtualAddress.huge_offset m ≡ m % 2 ^ 30
unfolding VirtualAddress.huge_offset
huge_offset-eq m = bit_and_mask 30 m

pub set_huge_offset-eq :
    (v m : ℕ) → m < 2 ^ 64 → VirtualAddress.set_huge_offset v m ≡ m / 2 ^ 30 * 2 ^ 30 + v % 2 ^ 30
unfolding VirtualAddress.set_huge_offset
set_huge_offset-eq v m h =
    rw (bit_and_mask 30 v) (put_low_lem 34 30 m refl h (v % 2 ^ 30) (omega arith))

pub pte-eq : (m : ℕ) → VirtualAddress.pte m ≡ m / 2 ^ 12 % 2 ^ 9
unfolding VirtualAddress.pte
pte-eq m = bit_and_mask 9 (m / 2 ^ 12)

pub set_pte-eq :
    (v m : ℕ)
    → m < 2 ^ 64
    → VirtualAddress.set_pte v m ≡ m / 2 ^ 21 * 2 ^ 21 + v % 2 ^ 9 * 2 ^ 12 + m % 2 ^ 12
unfolding VirtualAddress.set_pte
set_pte-eq v m h =
    rw (bit_and_mask 9 v) (omega (arith, put_lem 43 9 12 m refl h (v % 2 ^ 9) (omega arith)))

pub pde-eq : (m : ℕ) → VirtualAddress.pde m ≡ m / 2 ^ 21 % 2 ^ 9
unfolding VirtualAddress.pde
pde-eq m = bit_and_mask 9 (m / 2 ^ 21)

pub set_pde-eq :
    (v m : ℕ)
    → m < 2 ^ 64
    → VirtualAddress.set_pde v m ≡ m / 2 ^ 30 * 2 ^ 30 + v % 2 ^ 9 * 2 ^ 21 + m % 2 ^ 21
unfolding VirtualAddress.set_pde
set_pde-eq v m h =
    rw (bit_and_mask 9 v) (omega (arith, put_lem 34 9 21 m refl h (v % 2 ^ 9) (omega arith)))

pub pdpte-eq : (m : ℕ) → VirtualAddress.pdpte m ≡ m / 2 ^ 30 % 2 ^ 9
unfolding VirtualAddress.pdpte
pdpte-eq m = bit_and_mask 9 (m / 2 ^ 30)

pub set_pdpte-eq :
    (v m : ℕ)
    → m < 2 ^ 64
    → VirtualAddress.set_pdpte v m ≡ m / 2 ^ 39 * 2 ^ 39 + v % 2 ^ 9 * 2 ^ 30 + m % 2 ^ 30
unfolding VirtualAddress.set_pdpte
set_pdpte-eq v m h =
    rw (bit_and_mask 9 v) (omega (arith, put_lem 25 9 30 m refl h (v % 2 ^ 9) (omega arith)))

pub pml4e-eq : (m : ℕ) → VirtualAddress.pml4e m ≡ m / 2 ^ 39 % 2 ^ 9
unfolding VirtualAddress.pml4e
pml4e-eq m = bit_and_mask 9 (m / 2 ^ 39)

pub set_pml4e-eq :
    (v m : ℕ)
    → m < 2 ^ 64
    → VirtualAddress.set_pml4e v m ≡ m / 2 ^ 48 * 2 ^ 48 + v % 2 ^ 9 * 2 ^ 39 + m % 2 ^ 39
unfolding VirtualAddress.set_pml4e
set_pml4e-eq v m h =
    rw (bit_and_mask 9 v) (omega (arith, put_lem 16 9 39 m refl h (v % 2 ^ 9) (omega arith)))
