-- ===== src/VmxState/Bits.antt =====
-- hypervisor/include/zpp/x64/intel/msr.h: `adjust_msr` and the adjusted control registers, bit by
-- bit.
use native.Mathlib.Nat.{pow-suc, div-div-eq-div-mul}
use zpp_hypervisor.Common.{
  ℕ, zero, suc, ◌+◌, ◌-◌, ◌*◌, ◌/◌, ◌%◌, ◌^◌, ◌<◌, ◌≤◌, ◌≡◌, Bool, true, false, ◌&&◌, ◌||◌, ◌==◌,
  refl, ap, ap₂, ◌∙◌, arith, update, if◌then◌else◌, leb, ltb, all_below_lem,
}
use zpp_hypervisor.Word.{◌&&&◌, ◌>>>◌, bit}
use zpp_hypervisor.Word.Bits.{bit-and, bit-or}
use zpp_hypervisor.VmxState.{
  adjust_msr, adjust_cr, read_msrs, initialize_vmx_msrs, cached_vmx_msr, begin, end, initialize_vmx,
  Regions,
}

low_bits : (k : ℕ) → k < 32 → bit k 0xffffffff ≡ true
low_bits k f = all_below_lem (λ k. bit k 0xffffffff) 32 k refl f

high_bits : (k : ℕ) → k < 32 → bit (32 + k) 0xffffffff00000000 ≡ true
high_bits k f = all_below_lem (λ k. bit (32 + k) 0xffffffff00000000) 32 k refl f

pow_32 : (k : ℕ) → 2 ^ 32 * 2 ^ k ≡ 2 ^ (32 + k)
pow_32 zero = refl
pow_32 (suc k) =
    let next : 32 + suc k ≡ suc (32 + k) = omega arith in
    let grown : 2 ^ (32 + suc k) ≡ 2 ^ (32 + k) * 2 = ap (λ t. 2 ^ t) next ∙ pow-suc 2 (32 + k) in
    omega (arith, pow_32 k, pow-suc 2 k, grown)

bit-shift : (k x : ℕ) → bit k (x >>> 32) ≡ bit (32 + k) x
bit-shift k x =
    ap (λ t. t % 2 == 1) (div-div-eq-div-mul x (2 ^ 32) (2 ^ k) ∙ ap (λ t. x / t) (pow_32 k))

-- Each of the 32 bits of an adjusted value is 1 if it is asked for and allowed, or if it is required.
pub bit-adjust_msr :
    (msr value k : ℕ)
    → k < 32
    → bit k (adjust_msr msr value) ≡ (bit k value && bit (32 + k) msr || bit k msr)
unfolding adjust_msr
bit-adjust_msr msr value k f =
    bit-or k (value &&& ((0xffffffff00000000 &&& msr) >>> 32)) (0xffffffff &&& msr)
    ∙ ap₂ (λ x y. x || y)
        (bit-and k value ((0xffffffff00000000 &&& msr) >>> 32)
          ∙ ap (λ x. bit k value && x)
              (bit-shift k (0xffffffff00000000 &&& msr)
                ∙ bit-and (32 + k) 0xffffffff00000000 msr
                ∙ ap (λ x. x && bit (32 + k) msr) (high_bits k f)))
        (bit-and k 0xffffffff msr ∙ ap (λ x. x && bit k msr) (low_bits k f))

bit-low : (k x : ℕ) → k < 32 → bit k (x &&& 0xffffffff) ≡ bit k x
bit-low k x f = bit-and k x 0xffffffff ∙ ap (λ b. bit k x && b) (low_bits k f) ∙ and-true (bit k x)
  where
    and-true : (b : Bool) → (b && true) ≡ b
    and-true true = refl
    and-true false = refl

bit-adjust_cr :
    (fixed_0 fixed_1 cr k : ℕ)
    → k < 32
    → bit k (adjust_cr fixed_0 fixed_1 cr) ≡ (bit k cr && bit k fixed_1 || bit k fixed_0)
bit-adjust_cr fixed_0 fixed_1 cr k f =
    bit-or k (cr &&& (fixed_1 &&& 0xffffffff)) (fixed_0 &&& 0xffffffff)
    ∙ ap₂ (λ x y. x || y)
        (bit-and k cr (fixed_1 &&& 0xffffffff) ∙ ap (λ x. bit k cr && x) (bit-low k fixed_1 f))
        (bit-low k fixed_0 f)

-- The loop over the VMX registers.
read_msrs_lem :
    (left msr : ℕ) (rdmsr vmx_msrs : ℕ → ℕ) (i : ℕ)
    → begin ≤ msr
    → read_msrs left msr rdmsr vmx_msrs i ≡ (
        if leb (msr - begin) i && ltb i (msr - begin + left) then rdmsr (i + begin) else vmx_msrs i)
unfolding read_msrs
read_msrs_lem zero msr rdmsr vmx_msrs i f = ground arith
read_msrs_lem (suc left) msr rdmsr vmx_msrs i f =
    ground (arith, read_msrs_lem left (msr + 1) rdmsr (update vmx_msrs (msr - begin) (rdmsr msr)) i)

cached-initialize_vmx_msrs :
    (rdmsr vmx_msrs : ℕ → ℕ) (msr : ℕ)
    → begin ≤ msr
    → msr < end
    → cached_vmx_msr (initialize_vmx_msrs rdmsr vmx_msrs) msr ≡ rdmsr msr
unfolding cached_vmx_msr initialize_vmx_msrs
cached-initialize_vmx_msrs rdmsr vmx_msrs msr f g =
    let inside : leb (begin - begin) (msr - begin)
          && ltb (msr - begin) (begin - begin + (end - begin))
        ≡ true =
      ground arith in
    let back : msr - begin + begin ≡ msr = omega arith in
    read_msrs_lem (end - begin) begin rdmsr vmx_msrs (msr - begin) (omega arith)
    ∙ rw (inside, back) refl

-- With the VMX registers read from the processor, every bit of the low half of the host's cr0 and
-- cr4 is 1 exactly if the guest's is and the processor allows it, or if the processor requires it.
pub initialize_vmx_lem :
    (virtual_to_physical : ℕ → ℕ) (regions : Regions) (rdmsr vmx_msrs : ℕ → ℕ)
    (guest_cr0 guest_cr4 k : ℕ)
    → k < 32
    → (let state =
          initialize_vmx virtual_to_physical regions
            (initialize_vmx_msrs rdmsr vmx_msrs)
            guest_cr0
            guest_cr4 in
        (bit k state.host_cr0 ≡ (bit k guest_cr0 && bit k (rdmsr 0x487) || bit k (rdmsr 0x486)))
        × (bit k state.host_cr4 ≡ (bit k guest_cr4 && bit k (rdmsr 0x489) || bit k (rdmsr 0x488))))
unfolding initialize_vmx
initialize_vmx_lem v regions rdmsr vmx_msrs guest_cr0 guest_cr4 k f =
    let read = cached-initialize_vmx_msrs rdmsr vmx_msrs in
    (
      ap₂ (λ x y. bit k (adjust_cr x y guest_cr0)) (read 0x486 (omega arith) (omega arith))
            (read 0x487 (omega arith) (omega arith))
          ∙ bit-adjust_cr (rdmsr 0x486) (rdmsr 0x487) guest_cr0 k f,
      ap₂ (λ x y. bit k (adjust_cr x y guest_cr4)) (read 0x488 (omega arith) (omega arith))
            (read 0x489 (omega arith) (omega arith))
          ∙ bit-adjust_cr (rdmsr 0x488) (rdmsr 0x489) guest_cr4 k f,
    )
