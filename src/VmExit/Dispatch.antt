-- ===== src/VmExit/Dispatch.antt =====
-- hypervisor/src/hypervisor/hypervisor.cpp: the emulation of `cpuid` and `xsetbv` in the handler of
-- VM exits.
use zpp_hypervisor.Common.{
  ℕ, ◌+◌, ◌*◌, ◌%◌, ◌^◌, ◌<◌, Bool, true, false, ◌||◌, ◌==◌, if◌then◌else◌, ◌≡◌, refl, sym, ap, ◌∙◌,
  arith, update, Bool-cases, inl, inr, ==_iff, agree, agree_lem, all_below_lem,
}
use zpp_hypervisor.Word.{◌<<<◌, ◌&&&◌, ◌|||◌, bit, truthy}
use zpp_hypervisor.Word.Fields.{bit_or_low_first, test_bit_lem}
use zpp_hypervisor.Word.Bits.{bit-or}
use zpp_hypervisor.VmExit.{Machine, CpuidResult, handle_xsetbv, dispatch, reason_xsetbv}

abbrev same_bit : ℕ → ℕ → Bool
same_bit j k = agree (bit k (2 ^ j)) (k == j)

bit_18 : (k : ℕ) → k < 64 → bit k (2 ^ 18) ≡ (k == 18)
bit_18 k f = agree_lem (bit k (2 ^ 18)) (k == 18) (all_below_lem (same_bit 18) 64 k refl f)

-- An exit for xsetbv with rax below 2^32 sets the extended control register that ecx names to edx
-- and eax and no other, sets bit 18 of cr4 and no other, and leaves the registers and the VMCS
-- alone.
pub dispatch-xsetbv :
    (cpuid : ℕ → ℕ → CpuidResult) (m : Machine)
    → m.context.rax < 2 ^ 32
    → (let m' = dispatch cpuid reason_xsetbv m in
        ((i : ℕ)
          → m'.xcr i ≡ (
              if m.context.rcx % 2 ^ 32 == i
              then m.context.rdx % 2 ^ 32 * 2 ^ 32 + m.context.rax
              else m.xcr i))
        × ((k : ℕ) → k < 64 → bit k m'.cr4 ≡ (bit k m.cr4 || k == 18))
        × (m'.context ≡ m.context)
        × (m'.vmcs ≡ m.vmcs))
unfolding dispatch handle_xsetbv
dispatch-xsetbv cpuid m low = elim (Bool-cases (truthy (m.cr4 &&& 1 <<< 18))) [
  | inl on ↦ rw (on) (joined, already on, refl, refl)
  | inr off ↦
      rw (off) (
        joined,
        λ k f. bit-or k m.cr4 (2 ^ 18) ∙ ap (λ b. bit k m.cr4 || b) (bit_18 k f),
        refl,
        refl,
      )
]
  where
    or_false : (b : Bool) → (b || false) ≡ b
    or_false true = refl
    or_false false = refl

    joined :
        (i : ℕ)
        → update m.xcr (m.context.rcx % 2 ^ 32) (m.context.rax ||| m.context.rdx <<< 32) i ≡ (
            if m.context.rcx % 2 ^ 32 == i
            then m.context.rdx % 2 ^ 32 * 2 ^ 32 + m.context.rax
            else m.xcr i)
    joined i =
        let high : m.context.rdx <<< 32 ≡ m.context.rdx % 2 ^ 32 * 2 ^ 32 = omega arith in
        ap (λ v. if m.context.rcx % 2 ^ 32 == i then v else m.xcr i)
          (ap (λ x. m.context.rax ||| x) high
            ∙ bit_or_low_first 32 (m.context.rdx % 2 ^ 32) m.context.rax low)

    already :
        truthy (m.cr4 &&& 1 <<< 18) ≡ true
        → (k : ℕ) → k < 64
        → bit k m.cr4 ≡ (bit k m.cr4 || k == 18)
    already on k f = elim (Bool-cases (k == 18)) [
      | inl same ↦
          let at : k ≡ 18 = (==_iff k 18).0 same in
          let set : bit 18 m.cr4 ≡ true = sym (test_bit_lem 18 m.cr4) ∙ on in rw (at, set) refl
      | inr other ↦ rw (other) (sym (or_false (bit k m.cr4)))
    ]
