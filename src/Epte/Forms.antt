-- ===== src/Epte/Forms.antt =====
-- hypervisor/include/zpp/x64/intel/ept.h: the accessors of `epte` as arithmetic on the word.
use zpp_hypervisor.Common.{ℕ, Bool, ◌+◌, ◌*◌, ◌/◌, ◌%◌, ◌^◌, ◌<◌, ◌≡◌, refl, ap, ◌∙◌, arith}
use Prim.Native.Nat.{max}
use zpp_hypervisor.Word.{flag}
use zpp_hypervisor.Word.Fields.{
  flag-lt, put_lem, put_low_lem, flag_test_bit, bit_and_mask, cleared, bit_or_keep,
}
use zpp_hypervisor.Word.Bits.{bit_or-spill}
use zpp_hypervisor.Epte

pub read-eq : (m : ℕ) → flag (Epte.read m) ≡ m / 2 ^ 0 % 2
unfolding Epte.read
read-eq m = flag_test_bit 0 m

pub set_read-eq : (b : Bool) (m : ℕ) → m < 2 ^ 64 → Epte.set_read b m ≡ m / 2 ^ 1 * 2 ^ 1 + flag b
unfolding Epte.set_read
set_read-eq b m h = put_low_lem 63 1 m refl h (flag b) (flag-lt b)

pub write-eq : (m : ℕ) → flag (Epte.write m) ≡ m / 2 ^ 1 % 2
unfolding Epte.write
write-eq m = flag_test_bit 1 m

pub set_write-eq :
    (b : Bool) (m : ℕ)
    → m < 2 ^ 64
    → Epte.set_write b m ≡ m / 2 ^ 2 * 2 ^ 2 + flag b * 2 ^ 1 + m % 2 ^ 1
unfolding Epte.set_write
set_write-eq b m h = omega (arith, put_lem 62 1 1 m refl h (flag b) (flag-lt b))

pub execute-eq : (m : ℕ) → flag (Epte.execute m) ≡ m / 2 ^ 2 % 2
unfolding Epte.execute
execute-eq m = flag_test_bit 2 m

pub set_execute-eq :
    (b : Bool) (m : ℕ)
    → m < 2 ^ 64
    → Epte.set_execute b m ≡ m / 2 ^ 3 * 2 ^ 3 + flag b * 2 ^ 2 + m % 2 ^ 2
unfolding Epte.set_execute
set_execute-eq b m h = omega (arith, put_lem 61 1 2 m refl h (flag b) (flag-lt b))

pub type-eq : (m : ℕ) → Epte.type m ≡ m / 2 ^ 3 % 2 ^ 3
unfolding Epte.type
type-eq m = bit_and_mask 3 (m / 2 ^ 3)

-- The setter puts four bits into a field of three; the highest is added to the bit above.
pub set_type-eq :
    (v m : ℕ)
    → m < 2 ^ 64
    → Epte.set_type v m
      ≡ m / 2 ^ 7 * 2 ^ 7
        + max (m / 2 ^ 6 % 2) (v / 2 ^ 3 % 2) * 2 ^ 6
        + v % 2 ^ 3 * 2 ^ 3
        + m % 2 ^ 3
unfolding Epte.set_type
set_type-eq v m h =
    let w = v % 2 ^ 4 in
    let whole : w * 2 ^ 3 % 2 ^ 64 ≡ w * 2 ^ 3 = omega arith in
    let above : m / 2 ^ 3 / 2 ^ 3 ≡ m / 2 ^ 6 = omega arith in
    rw (bit_and_mask 4 v, whole, cleared 58 3 3 m refl h, above)
      (bit_or_keep 3 (m / 2 ^ 6 * 2 ^ 3) w (m % 2 ^ 3) (omega arith)
        ∙ ap (λ t. t * 2 ^ 3 + m % 2 ^ 3) (bit_or-spill (m / 2 ^ 6) w (omega arith))
        ∙ omega arith)

pub large-eq : (m : ℕ) → flag (Epte.large m) ≡ m / 2 ^ 7 % 2
unfolding Epte.large
large-eq m = flag_test_bit 7 m

pub set_large-eq :
    (b : Bool) (m : ℕ)
    → m < 2 ^ 64
    → Epte.set_large b m ≡ m / 2 ^ 8 * 2 ^ 8 + flag b * 2 ^ 7 + m % 2 ^ 7
unfolding Epte.set_large
set_large-eq b m h = omega (arith, put_lem 56 1 7 m refl h (flag b) (flag-lt b))

pub accessed-eq : (m : ℕ) → flag (Epte.accessed m) ≡ m / 2 ^ 8 % 2
unfolding Epte.accessed
accessed-eq m = flag_test_bit 8 m

pub set_accessed-eq :
    (b : Bool) (m : ℕ)
    → m < 2 ^ 64
    → Epte.set_accessed b m ≡ m / 2 ^ 9 * 2 ^ 9 + flag b * 2 ^ 8 + m % 2 ^ 8
unfolding Epte.set_accessed
set_accessed-eq b m h = omega (arith, put_lem 55 1 8 m refl h (flag b) (flag-lt b))

pub execute_user-eq : (m : ℕ) → flag (Epte.execute_user m) ≡ m / 2 ^ 10 % 2
unfolding Epte.execute_user
execute_user-eq m = flag_test_bit 10 m

pub set_execute_user-eq :
    (b : Bool) (m : ℕ)
    → m < 2 ^ 64
    → Epte.set_execute_user b m ≡ m / 2 ^ 11 * 2 ^ 11 + flag b * 2 ^ 10 + m % 2 ^ 10
unfolding Epte.set_execute_user
set_execute_user-eq b m h = omega (arith, put_lem 53 1 10 m refl h (flag b) (flag-lt b))

pub page_number-eq : (m : ℕ) → Epte.page_number m ≡ m / 2 ^ 12 % 2 ^ 40
unfolding Epte.page_number
page_number-eq m = bit_and_mask 40 (m / 2 ^ 12)

pub set_page_number-eq :
    (v m : ℕ)
    → m < 2 ^ 64
    → Epte.set_page_number v m ≡ m / 2 ^ 52 * 2 ^ 52 + v % 2 ^ 40 * 2 ^ 12 + m % 2 ^ 12
unfolding Epte.set_page_number
set_page_number-eq v m h =
    rw (bit_and_mask 40 v) (omega (arith, put_lem 12 40 12 m refl h (v % 2 ^ 40) (omega arith)))

pub large_page_number-eq : (m : ℕ) → Epte.large_page_number m ≡ m / 2 ^ 21 % 2 ^ 31
unfolding Epte.large_page_number
large_page_number-eq m = bit_and_mask 31 (m / 2 ^ 21)

pub set_large_page_number-eq :
    (v m : ℕ)
    → m < 2 ^ 64
    → Epte.set_large_page_number v m ≡ m / 2 ^ 52 * 2 ^ 52 + v % 2 ^ 31 * 2 ^ 21 + m % 2 ^ 21
unfolding Epte.set_large_page_number
set_large_page_number-eq v m h =
    rw (bit_and_mask 31 v) (omega (arith, put_lem 12 31 21 m refl h (v % 2 ^ 31) (omega arith)))

pub suppress_ve-eq : (m : ℕ) → flag (Epte.suppress_ve m) ≡ m / 2 ^ 63 % 2
unfolding Epte.suppress_ve
suppress_ve-eq m = flag_test_bit 63 m

pub set_suppress_ve-eq :
    (b : Bool) (m : ℕ) → m < 2 ^ 64 → Epte.set_suppress_ve b m ≡ flag b * 2 ^ 63 + m % 2 ^ 63
unfolding Epte.set_suppress_ve
set_suppress_ve-eq b m h = omega (arith, put_lem 0 1 63 m refl h (flag b) (flag-lt b))
