-- ===== src/Pte/Forms.antt =====
-- hypervisor/include/zpp/x64/pte.h: the accessors of `pte` as arithmetic on the word.
use zpp_hypervisor.Common.{ℕ, Bool, ◌+◌, ◌*◌, ◌/◌, ◌%◌, ◌^◌, ◌<◌, ◌≡◌, refl, arith}
use zpp_hypervisor.Word.{flag}
use zpp_hypervisor.Word.Fields.{flag-lt, put_lem, put_low_lem, flag_test_bit, bit_and_mask}
use zpp_hypervisor.Pte

pub present-eq : (m : ℕ) → flag (Pte.present m) ≡ m / 2 ^ 0 % 2
unfolding Pte.present
present-eq m = flag_test_bit 0 m

pub set_present-eq :
    (b : Bool) (m : ℕ) → m < 2 ^ 64 → Pte.set_present b m ≡ m / 2 ^ 1 * 2 ^ 1 + flag b
unfolding Pte.set_present
set_present-eq b m h = put_low_lem 63 1 m refl h (flag b) (flag-lt b)

pub write-eq : (m : ℕ) → flag (Pte.write m) ≡ m / 2 ^ 1 % 2
unfolding Pte.write
write-eq m = flag_test_bit 1 m

pub set_write-eq :
    (b : Bool) (m : ℕ)
    → m < 2 ^ 64
    → Pte.set_write b m ≡ m / 2 ^ 2 * 2 ^ 2 + flag b * 2 ^ 1 + m % 2 ^ 1
unfolding Pte.set_write
set_write-eq b m h = omega (arith, put_lem 62 1 1 m refl h (flag b) (flag-lt b))

pub user-eq : (m : ℕ) → flag (Pte.user m) ≡ m / 2 ^ 2 % 2
unfolding Pte.user
user-eq m = flag_test_bit 2 m

pub set_user-eq :
    (b : Bool) (m : ℕ)
    → m < 2 ^ 64
    → Pte.set_user b m ≡ m / 2 ^ 3 * 2 ^ 3 + flag b * 2 ^ 2 + m % 2 ^ 2
unfolding Pte.set_user
set_user-eq b m h = omega (arith, put_lem 61 1 2 m refl h (flag b) (flag-lt b))

pub write_through-eq : (m : ℕ) → flag (Pte.write_through m) ≡ m / 2 ^ 3 % 2
unfolding Pte.write_through
write_through-eq m = flag_test_bit 3 m

pub set_write_through-eq :
    (b : Bool) (m : ℕ)
    → m < 2 ^ 64
    → Pte.set_write_through b m ≡ m / 2 ^ 4 * 2 ^ 4 + flag b * 2 ^ 3 + m % 2 ^ 3
unfolding Pte.set_write_through
set_write_through-eq b m h = omega (arith, put_lem 60 1 3 m refl h (flag b) (flag-lt b))

pub page_level_cache_disable-eq : (m : ℕ) → flag (Pte.page_level_cache_disable m) ≡ m / 2 ^ 4 % 2
unfolding Pte.page_level_cache_disable
page_level_cache_disable-eq m = flag_test_bit 4 m

pub set_page_level_cache_disable-eq :
    (b : Bool) (m : ℕ)
    → m < 2 ^ 64
    → Pte.set_page_level_cache_disable b m ≡ m / 2 ^ 5 * 2 ^ 5 + flag b * 2 ^ 4 + m % 2 ^ 4
unfolding Pte.set_page_level_cache_disable
set_page_level_cache_disable-eq b m h = omega (arith, put_lem 59 1 4 m refl h (flag b) (flag-lt b))

pub access-eq : (m : ℕ) → flag (Pte.access m) ≡ m / 2 ^ 5 % 2
unfolding Pte.access
access-eq m = flag_test_bit 5 m

pub set_access-eq :
    (b : Bool) (m : ℕ)
    → m < 2 ^ 64
    → Pte.set_access b m ≡ m / 2 ^ 6 * 2 ^ 6 + flag b * 2 ^ 5 + m % 2 ^ 5
unfolding Pte.set_access
set_access-eq b m h = omega (arith, put_lem 58 1 5 m refl h (flag b) (flag-lt b))

pub dirty-eq : (m : ℕ) → flag (Pte.dirty m) ≡ m / 2 ^ 6 % 2
unfolding Pte.dirty
dirty-eq m = flag_test_bit 6 m

pub set_dirty-eq :
    (b : Bool) (m : ℕ)
    → m < 2 ^ 64
    → Pte.set_dirty b m ≡ m / 2 ^ 7 * 2 ^ 7 + flag b * 2 ^ 6 + m % 2 ^ 6
unfolding Pte.set_dirty
set_dirty-eq b m h = omega (arith, put_lem 57 1 6 m refl h (flag b) (flag-lt b))

pub pat-eq : (m : ℕ) → flag (Pte.pat m) ≡ m / 2 ^ 7 % 2
unfolding Pte.pat
pat-eq m = flag_test_bit 7 m

pub set_pat-eq :
    (b : Bool) (m : ℕ)
    → m < 2 ^ 64
    → Pte.set_pat b m ≡ m / 2 ^ 8 * 2 ^ 8 + flag b * 2 ^ 7 + m % 2 ^ 7
unfolding Pte.set_pat
set_pat-eq b m h = omega (arith, put_lem 56 1 7 m refl h (flag b) (flag-lt b))

pub large-eq : (m : ℕ) → flag (Pte.large m) ≡ m / 2 ^ 7 % 2
unfolding Pte.large
large-eq m = flag_test_bit 7 m

pub set_large-eq :
    (b : Bool) (m : ℕ)
    → m < 2 ^ 64
    → Pte.set_large b m ≡ m / 2 ^ 8 * 2 ^ 8 + flag b * 2 ^ 7 + m % 2 ^ 7
unfolding Pte.set_large
set_large-eq b m h = omega (arith, put_lem 56 1 7 m refl h (flag b) (flag-lt b))

pub global-eq : (m : ℕ) → flag (Pte.global m) ≡ m / 2 ^ 8 % 2
unfolding Pte.global
global-eq m = flag_test_bit 8 m

pub set_global-eq :
    (b : Bool) (m : ℕ)
    → m < 2 ^ 64
    → Pte.set_global b m ≡ m / 2 ^ 9 * 2 ^ 9 + flag b * 2 ^ 8 + m % 2 ^ 8
unfolding Pte.set_global
set_global-eq b m h = omega (arith, put_lem 55 1 8 m refl h (flag b) (flag-lt b))

pub page_number-eq : (m : ℕ) → Pte.page_number m ≡ m / 2 ^ 12 % 2 ^ 40
unfolding Pte.page_number
page_number-eq m = bit_and_mask 40 (m / 2 ^ 12)

pub set_page_number-eq :
    (v m : ℕ)
    → m < 2 ^ 64
    → Pte.set_page_number v m ≡ m / 2 ^ 52 * 2 ^ 52 + v % 2 ^ 40 * 2 ^ 12 + m % 2 ^ 12
unfolding Pte.set_page_number
set_page_number-eq v m h =
    rw (bit_and_mask 40 v) (omega (arith, put_lem 12 40 12 m refl h (v % 2 ^ 40) (omega arith)))

pub protection_key-eq : (m : ℕ) → Pte.protection_key m ≡ m / 2 ^ 58 % 2 ^ 4
unfolding Pte.protection_key
protection_key-eq m = bit_and_mask 4 (m / 2 ^ 58)

pub set_protection_key-eq :
    (v m : ℕ)
    → m < 2 ^ 64
    → Pte.set_protection_key v m ≡ m / 2 ^ 62 * 2 ^ 62 + v % 2 ^ 4 * 2 ^ 58 + m % 2 ^ 58
unfolding Pte.set_protection_key
set_protection_key-eq v m h =
    rw (bit_and_mask 4 v) (omega (arith, put_lem 2 4 58 m refl h (v % 2 ^ 4) (omega arith)))

pub execute_disable-eq : (m : ℕ) → flag (Pte.execute_disable m) ≡ m / 2 ^ 63 % 2
unfolding Pte.execute_disable
execute_disable-eq m = flag_test_bit 63 m

pub set_execute_disable-eq :
    (b : Bool) (m : ℕ) → m < 2 ^ 64 → Pte.set_execute_disable b m ≡ flag b * 2 ^ 63 + m % 2 ^ 63
unfolding Pte.set_execute_disable
set_execute_disable-eq b m h = omega (arith, put_lem 0 1 63 m refl h (flag b) (flag-lt b))
