-- ===== src/VmxState.antt =====
-- `adjust_msr` of hypervisor/include/zpp/x64/intel/msr.h, and of
-- hypervisor/src/hypervisor/hypervisor.cpp the cached VMX registers and `initialize_vmx`: the host's
-- control registers as the processor's fixed bits allow.
pub mod Bits
use zpp_hypervisor.Common.{ℕ, zero, suc, ◌+◌, ◌-◌, update}
use zpp_hypervisor.Word.{◌>>>◌, ◌&&&◌, ◌|||◌}

-- The high half of the register has the bits that may be 1, the low half those that must be.
pub adjust_msr : ℕ → ℕ → ℕ
adjust_msr msr value =
    let allowed = value &&& ((0xffffffff00000000 &&& msr) >>> 32) in
    allowed ||| (0xffffffff &&& msr)

-- `msr::vmx::begin` and `end`.
abbrev pub begin : ℕ
begin = 0x480

abbrev pub end : ℕ
end = 0x492

-- The loop of `initialize_vmx_msrs` from register `msr`; `vmx_msrs` is an array from `begin` on.
pub read_msrs : ℕ → ℕ → (ℕ → ℕ) → (ℕ → ℕ) → ℕ → ℕ
read_msrs zero msr rdmsr vmx_msrs = vmx_msrs
read_msrs (suc left) msr rdmsr vmx_msrs =
    read_msrs left (msr + 1) rdmsr (update vmx_msrs (msr - begin) (rdmsr msr))

pub initialize_vmx_msrs : (ℕ → ℕ) → (ℕ → ℕ) → ℕ → ℕ
initialize_vmx_msrs rdmsr vmx_msrs = read_msrs (end - begin) begin rdmsr vmx_msrs

pub cached_vmx_msr : (ℕ → ℕ) → ℕ → ℕ
cached_vmx_msr vmx_msrs msr = vmx_msrs (msr - begin)

-- A control register with the bits of `fixed_1` allowed and those of `fixed_0` required.
abbrev pub adjust_cr : ℕ → ℕ → ℕ → ℕ
adjust_cr fixed_0 fixed_1 cr = (cr &&& (fixed_1 &&& 0xffffffff)) ||| (fixed_0 &&& 0xffffffff)

-- The fields that `initialize_vmx` sets.
pub record VmxState : Type 0 where
  pub vmx_physical : ℕ
  pub vmcs_physical : ℕ
  pub epml4_physical : ℕ
  pub msr_bitmap_physical : ℕ
  pub revision_id : ℕ
  pub host_cr0 : ℕ
  pub host_cr4 : ℕ

-- Where the regions stand in the module.
pub record Regions : Type 0 where
  pub vmx : ℕ
  pub vmx_vmcs : ℕ
  pub epml4 : ℕ
  pub msr_bitmap : ℕ

pub initialize_vmx : (ℕ → ℕ) → Regions → (ℕ → ℕ) → ℕ → ℕ → VmxState
initialize_vmx virtual_to_physical regions vmx_msrs guest_cr0 guest_cr4 = record {
  vmx_physical = virtual_to_physical regions.vmx;
  vmcs_physical = virtual_to_physical regions.vmx_vmcs;
  epml4_physical = virtual_to_physical regions.epml4;
  msr_bitmap_physical = virtual_to_physical regions.msr_bitmap;
  revision_id = cached_vmx_msr vmx_msrs 0x480 &&& 0xffffffff;
  host_cr0 = adjust_cr (cached_vmx_msr vmx_msrs 0x486) (cached_vmx_msr vmx_msrs 0x487) guest_cr0;
  host_cr4 = adjust_cr (cached_vmx_msr vmx_msrs 0x488) (cached_vmx_msr vmx_msrs 0x489) guest_cr4;
}
