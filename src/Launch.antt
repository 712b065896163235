-- ===== src/Launch.antt =====
-- hypervisor/src/hypervisor/hypervisor.cpp: `main` and `enter_root_mode`, with the registers of the
-- processor that they change and the guards that put them back. What the processor answers to the
-- VMX instructions, and whether the steps on the hypervisor's own memory succeed, is given.
pub mod Restore
pub mod Stacks
use zpp_hypervisor.Common.{ℕ, Bool, true, false, List, [], ◌∷◌, ◌==◌, not, if◌then◌else◌}
use zpp_hypervisor.ScopeGuard.{ScopeGuard, guard, cancel, unwind}
use zpp_hypervisor.ErrorCode.{
  ErrorCode, is_success, success, vmxon_failed, vmclear_failed, vmptrld_failed,
}

-- The processor's registers.
pub record Cpu : Type 0 where
  pub cr0 : ℕ
  pub cr3 : ℕ
  pub cr4 : ℕ
  pub gdt_base : ℕ
  pub gdt_limit : ℕ
  pub tr : ℕ
  pub ldtr : ℕ
  pub idt_base : ℕ
  pub idt_limit : ℕ
  pub dr7 : ℕ
  pub msr : ℕ → ℕ
  pub vmx : Bool
  pub interrupts : Bool

abbrev pub write_cr0 : ℕ → Cpu → Cpu
write_cr0 v c = record c { cr0 = v }

abbrev pub write_cr3 : ℕ → Cpu → Cpu
write_cr3 v c = record c { cr3 = v }

abbrev pub write_cr4 : ℕ → Cpu → Cpu
write_cr4 v c = record c { cr4 = v }

abbrev pub lgdt : ℕ → ℕ → Cpu → Cpu
lgdt base limit c = record c { gdt_base = base; gdt_limit = limit }

abbrev pub ltr : ℕ → Cpu → Cpu
ltr v c = record c { tr = v }

abbrev pub set_vmx : Bool → Cpu → Cpu
set_vmx v c = record c { vmx = v }

abbrev pub set_interrupts : Bool → Cpu → Cpu
set_interrupts v c = record c { interrupts = v }

-- Whether each VMX instruction fails, as its carry flag says.
pub record Answers : Type 0 where
  pub vmxon_fails : Bool
  pub vmclear_fails : Bool
  pub vmptrld_fails : Bool

-- What `initialize_registers` reads.
pub record Registers : Type 0 where
  pub guest_cr0 : ℕ
  pub guest_cr3 : ℕ
  pub guest_cr4 : ℕ
  pub guest_dr7 : ℕ
  pub ia32_debug_control : ℕ
  pub ia32_fs_base : ℕ
  pub ia32_gs_base : ℕ
  pub gdtr_base : ℕ
  pub gdtr_limit : ℕ
  pub idtr_base : ℕ
  pub idtr_limit : ℕ
  pub guest_ldtr : ℕ
  pub os_tr : ℕ

pub initialize_registers : Cpu → Registers
initialize_registers c = record {
  guest_cr0 = c.cr0;
  guest_cr3 = c.cr3;
  guest_cr4 = c.cr4;
  guest_dr7 = c.dr7;
  ia32_debug_control = c.msr 0x1d9;
  ia32_fs_base = c.msr 0xc0000100;
  ia32_gs_base = c.msr 0xc0000101;
  gdtr_base = c.gdt_base;
  gdtr_limit = c.gdt_limit;
  idtr_base = c.idt_base;
  idtr_limit = c.idt_limit;
  guest_ldtr = c.ldtr;
  os_tr = c.tr;
}

-- What the steps on the hypervisor's own memory leave for `main`.
pub record Steps : Type 0 where
  pub cpuid : ℕ
  pub module_map : ErrorCode
  pub protection : ErrorCode
  pub intermediate_gdt : ℕ
  pub intermediate_gdt_limit : ℕ
  pub guest_tr : ℕ
  pub host_cr0 : ℕ
  pub host_cr3 : ℕ
  pub host_cr4 : ℕ

pub load_intermediate_gdt : Steps → Registers → Cpu → Cpu
load_intermediate_gdt s r c =
    let loaded = lgdt s.intermediate_gdt s.intermediate_gdt_limit c in
    if not (s.guest_tr == r.os_tr) then ltr s.guest_tr loaded else loaded

pub load_os_gdt : Steps → Registers → Cpu → Cpu
load_os_gdt s r c =
    let loaded = lgdt r.gdtr_base r.gdtr_limit c in
    if not (s.guest_tr == r.os_tr) then ltr r.os_tr loaded else loaded

pub enter_root_mode : Answers → ℕ → ℕ → Cpu → ErrorCode × Cpu
enter_root_mode a host_cr0 host_cr4 c =
    let restore_cr0 = guard (write_cr0 c.cr0) in
    let restore_cr4 = guard (write_cr4 c.cr4) in
    let turn_off_vmx = guard (set_vmx false) in
    let changed = write_cr4 host_cr4 (write_cr0 host_cr0 c) in
    let entered = set_vmx true changed in
    if a.vmxon_fails
    then (vmxon_failed, unwind (restore_cr4 ∷ restore_cr0 ∷ []) changed)
    else if a.vmclear_fails
    then (vmclear_failed, unwind (turn_off_vmx ∷ restore_cr4 ∷ restore_cr0 ∷ []) entered)
    else if a.vmptrld_fails
    then (vmptrld_failed, unwind (turn_off_vmx ∷ restore_cr4 ∷ restore_cr0 ∷ []) entered)
    else (
      success,
      unwind (cancel turn_off_vmx ∷ cancel restore_cr4 ∷ cancel restore_cr0 ∷ []) entered,
    )

-- How `main` ends: it returns, or the guest runs on from the launch, or the launch fails. `vmlaunch`
-- is executed in the caller's context and followed by `ret`, so that a failure goes on behind the call
-- of `launch_on_cpu`, in root mode and with no guard run.
pub data Launched : Type 0 where
  returned : ErrorCode → Cpu → Launched
  running : Cpu → Launched
  unlaunched : Cpu → Launched

-- `main` once `enter_root_mode` has returned; `guards` are those of the scope so far.
pub after_root : Bool → List (ScopeGuard Cpu) → ErrorCode × Cpu → Launched
after_root launches guards (error, c) =
    if not (is_success error)
    then returned error (unwind guards c)
    else if launches
    then running c
    else unlaunched c

-- `main` from the point where the processor runs on the host's page table.
pub launch : Answers → Bool → Steps → List (ScopeGuard Cpu) → Cpu → Launched
launch a launches s guards c =
    after_root launches guards (enter_root_mode a s.host_cr0 s.host_cr4 c)

-- `launches` is whether `vmlaunch` starts the guest. `vm_launch` does not return in either case.
pub main : Answers → Bool → Steps → Cpu → Launched
main a launches s start =
    let c = set_interrupts false start in
    let restore_interrupts = guard (set_interrupts true) in
    let r = initialize_registers c in
    let first = s.cpuid == 0 in
    let restore_gdt = guard (load_os_gdt s r) in
    let restore_cr3 = guard (write_cr3 r.guest_cr3) in
    let c₁ = load_intermediate_gdt s r c in
    let c₂ = write_cr3 s.host_cr3 c₁ in
    let guards = restore_cr3 ∷ restore_gdt ∷ restore_interrupts ∷ [] in
    if first
    then if not (is_success s.module_map)
      then returned s.module_map (unwind (restore_interrupts ∷ []) c)
      else if not (is_success s.protection)
      then returned s.protection (unwind guards c₂)
      else launch a launches s guards c₂
    else launch a launches s guards c₂
