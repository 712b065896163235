-- ===== src/VmExit.antt =====
-- hypervisor/src/hypervisor/hypervisor.cpp: the code that `main` gives to `vm_launch`, which handles
-- each VM exit; and hypervisor/include/zpp/x64/intel/vmx_exit_reason.h.
pub mod Dispatch
pub mod Handler
pub mod Guest
pub mod Run
use zpp_hypervisor.Common.{ℕ, ◌+◌, ◌%◌, ◌^◌, Bool, ◌==◌, not, if◌then◌else◌, update}
use zpp_hypervisor.Word.{u64, ◌<<<◌, ◌>>>◌, ◌&&&◌, ◌|||◌, truthy}
use zpp_hypervisor.Maybe.{Maybe, of_value, of_error}
use zpp_hypervisor.Context.{Context}
use zpp_hypervisor.Vmcs.{Vmcs, VmcsError}
use zpp_hypervisor.Vmcs.ControlWords.{vpid}
use zpp_hypervisor.Vmcs.InformationLongs.{exit_reason, vm_exit_instruction_length}
use zpp_hypervisor.Vmcs.GuestNaturals.{guest_rip, set_guest_rip}

-- `exit_reason::basic`, and the basic reasons that the code handles.
pub basic : ℕ → ℕ
basic value = (value >>> 0) &&& 0xff

abbrev pub reason_cpuid : ℕ
reason_cpuid = 10

abbrev pub reason_invd : ℕ
reason_invd = 13

abbrev pub reason_xsetbv : ℕ
reason_xsetbv = 55

-- The processor as the handler sees it: the VMCS, the registers of the guest that the exit saved, its
-- own cr4 and extended control registers, and the number of times it has dropped its caches.
pub record Machine : Type 0 where
  pub vmcs : Vmcs
  pub context : Context
  pub cr4 : ℕ
  pub xcr : ℕ → ℕ
  pub cache_drops : ℕ

-- The four registers that the instruction `cpuid` leaves, each of 32 bits.
pub record CpuidResult : Type 0 where
  pub eax : ℕ
  pub ebx : ℕ
  pub ecx : ℕ
  pub edx : ℕ

-- The case of `cpuid`; `cpuid` is the processor's answer to eax and ecx.
unfoldable pub handle_cpuid : (ℕ → ℕ → CpuidResult) → Machine → Machine
handle_cpuid cpuid m =
    let c = m.context in
    let r = cpuid (c.rax % 2 ^ 32) (c.rcx % 2 ^ 32) in
    let r' =
      if 1 == c.rax
      then record r { ecx = r.ecx ||| 1 <<< 31 }
      else if 1 <<< 30 == c.rax
      then record r { ebx = 0x5a70705a; ecx = 0x705a7070; edx = 0x70705a70 }
      else r in
    record m { context = record c { rax = r'.eax; rbx = r'.ebx; rcx = r'.ecx; rdx = r'.edx } }

-- The instruction `xsetbv`, as the wrapper of hypervisor/include/zpp/x64/intel/asm.h runs it.
abbrev pub xsetbv : ℕ → ℕ → Machine → Machine
xsetbv index value m = record m { xcr = update m.xcr (index % 2 ^ 32) value }

unfoldable pub handle_xsetbv : Machine → Machine
handle_xsetbv m =
    let c = m.context in
    let cr4 = m.cr4 in
    let active =
      if not (truthy (cr4 &&& 1 <<< 18)) then record m { cr4 = cr4 ||| 1 <<< 18 } else m in
    xsetbv c.rcx (c.rax ||| c.rdx <<< 32) active

abbrev pub handle_invd : Machine → Machine
handle_invd m = record m { cache_drops = m.cache_drops + 1 }

-- The `switch`.
unfoldable pub dispatch : (ℕ → ℕ → CpuidResult) → ℕ → Machine → Machine
dispatch cpuid reason m =
    if reason == reason_cpuid
    then handle_cpuid cpuid m
    else if reason == reason_xsetbv
    then handle_xsetbv m
    else if reason == reason_invd
    then handle_invd m
    else m

-- How the handler ends: it returns, which the caller holds for an error; it goes to `vmresume`; or it
-- has taken the value of an error.
pub data Outcome : Type 0 where
  returned : Machine → Outcome
  resumed : Machine → Outcome
  undefined : Outcome

-- The value of a field, or the end of the handler where there is none.
abbrev pub taking : Outcome → (ℕ → Outcome) → Maybe VmcsError ℕ → Outcome
taking otherwise next (of_value n) = next n
taking otherwise next (of_error e) = otherwise

-- The end of the handler, from `Update RIP`; `vmresume` is the address of that routine.
unfoldable pub advance : ℕ → Machine → Outcome
advance vmresume m =
    taking undefined
      (λ n.
        let rip = u64 (m.context.rip + n) in
        resumed (record m {
          vmcs = (set_guest_rip rip m.vmcs).1;
          context = record m.context { rip = vmresume };
        }))
      (vm_exit_instruction_length m.vmcs)

unfoldable pub handle : (ℕ → ℕ → CpuidResult) → ℕ → Machine → Outcome
handle cpuid vmresume m =
    taking undefined
      (λ v.
        taking (returned m)
          (λ r.
            taking undefined
              (λ rip.
                advance vmresume (
                  dispatch cpuid (basic r) (record m { context = record m.context { rip = rip } })))
              (guest_rip m.vmcs))
          (exit_reason m.vmcs))
      (vpid m.vmcs)
