-- ===== src/Examples/Machine.antt =====
-- A processor with a blank VMCS, and one exit of a guest that executes `cpuid`.
use zpp_hypervisor.Common.{
  ℕ, ◌+◌, ◌*◌, ◌%◌, ◌^◌, ◌<◌, ◌≡◌, refl, true, ◌||◌, ◌==◌, if◌then◌else◌, [], ◌∷◌, arith, update,
}
use zpp_hypervisor.Word.{bit}
use zpp_hypervisor.Maybe.{of_value}
use zpp_hypervisor.VmxState.{cached_vmx_msr}
use zpp_hypervisor.Context.{Context}
use zpp_hypervisor.Vmcs.{Vmcs, Accessor, success}
use zpp_hypervisor.Vmcs.Fields
use zpp_hypervisor.Vmcs.ControlWords
use zpp_hypervisor.Vmcs.Accessors.{accessors, accessors_lem}
use zpp_hypervisor.SetupVmcs.{
  Hypervisor, launch_vmcs, setup_vmcs, write_entries, processor_based_controls_2,
  true_processor_based_controls,
}
use zpp_hypervisor.SetupVmcs.Table.{rows, Accepts, Accepts-all}
use zpp_hypervisor.SetupVmcs.Paging.{paging, can_set}
use zpp_hypervisor.SetupVmcs.State.{
  guest_state, host_state, seen, guest_state-launch_vmcs, host_state-launch_vmcs,
}
use zpp_hypervisor.VmExit.{Machine, CpuidResult, dispatch, reason_xsetbv}
use zpp_hypervisor.VmExit.Dispatch.{dispatch-xsetbv}
use zpp_hypervisor.VmExit.Handler.{IsReady, resumes, handle_lem}
use zpp_hypervisor.VmExit.Guest.{
  is_guest_field, guest, vmm, machine, Exits, Step, exit, resume, Reach, here, next, Kept-trans,
  Kept-update,
}
use zpp_hypervisor.VmExit.Run.{paging-Reach, Reach-resume}

abbrev blank : Vmcs
blank = record { is_current = true; readable = λ n. true; writable = λ n. true; fields = λ n. 0 }

abbrev zeros : ℕ → ℕ
zeros i = 0

abbrev hyper : Hypervisor
hyper = record {
  next_virtual_processor = 1;
  vmx_msrs = λ i. 0xffffffff00000000;
  epml4_physical = 0x123456789000;
  msr_bitmap_physical = 0x5000;
  intermediate_gdt = λ i. 0x6000;
  load = zeros;
  host_cs = 8;
  host_tr = 16;
  guest_tr = 0x40;
  guest_ldtr = 0;
  ia32_gs_base = 0x7000;
  fs_data = 0x8000;
  gs_data = 0x9000;
  host_tss = 0xa000;
  guest_gdt_limit = 0x7f;
  guest_gdt_pointer = 0xb000;
  host_gdt = 0xc000;
  idtr_limit = 0xfff;
  idtr_base = 0xd000;
  host_idt = 0xe000;
  guest_cr0 = 0x80050033;
  host_cr0 = 0x80050033;
  guest_cr3 = 0x1000;
  host_cr3 = 0x2000;
  guest_cr4 = 0x6f8;
  host_cr4 = 0x26f8;
  ia32_debug_control = 0;
  guest_dr7 = 0x400;
}

-- `rax` and `rip` of a guest.
abbrev registers : ℕ → ℕ → Context
registers rax rip = record {
  rax = rax;
  rbx = 0;
  rcx = 0;
  rdx = 7;
  rsp = 0x3000;
  rbp = 0;
  rsi = 0;
  rdi = 0;
  r8 = 0;
  r9 = 0;
  r10 = 0;
  r11 = 0;
  r12 = 0;
  r13 = 0;
  r14 = 0;
  r15 = 0;
  rip = rip;
  rflags = 2;
  xmm = zeros;
  fxsave = zeros;
  mxcsr = 0;
  cs = 0x10;
  ds = 0x18;
  es = 0x18;
  fs = 0;
  gs = 0;
  ss = 0x18;
}

abbrev launched : Vmcs
launched = launch_vmcs 0x1111 0x2222 hyper (registers 1 0x4000) blank

blank-Accepts : Accepts (rows 0x1111 0x2222 hyper (registers 1 0x4000)) blank
blank-Accepts = Accepts-all (rows 0x1111 0x2222 hyper (registers 1 0x4000)) blank refl (λ n. refl)

blank-IsReady : IsReady blank
unfolding IsReady
blank-IsReady = (refl, refl, refl, refl, refl, refl)

abbrev vpid_accessor : Accessor
vpid_accessor = record { field = Fields.vpid; get = ControlWords.vpid; set = ControlWords.set_vpid }

accessors_lem_example :
    ((vpid_accessor.set 0x12345 blank).0 ≡ success)
    × (vpid_accessor.get (vpid_accessor.set 0x12345 blank).1 ≡ of_value 0x2345)
unfolding accessors
accessors_lem_example =
    accessors_lem 0 0 0x12345 vpid_accessor vpid_accessor blank refl refl refl refl refl

guest_state-launch_vmcs_example : guest_state launched ≡ record {
  rip = 0x4000;
  rsp = 0x3000;
  rflags = 2;
  cr0 = seen 0x80050033 0 0x80050033;
  cr3 = 0x1000;
  cr4 = seen 0x26f8 0 0x6f8;
  dr7 = 0x400;
  debug_control = 0;
  selectors = 0x10 ∷ 0x18 ∷ 0x18 ∷ 0 ∷ 0 ∷ 0x18 ∷ 0x40 ∷ 0 ∷ [];
  gs_base = 0x7000;
  gdt_base = 0xb000;
  gdt_limit = 0x7f;
  idt_base = 0xd000;
  idt_limit = 0xfff;
}
guest_state-launch_vmcs_example =
    guest_state-launch_vmcs 0x1111 0x2222 hyper (registers 1 0x4000) blank blank-Accepts

host_state-launch_vmcs_example : host_state launched ≡ record {
  rip = 0x1111;
  rsp = 0x2222;
  cr0 = 0x80050033;
  cr3 = 0x2000;
  cr4 = 0x26f8;
  selectors = 8 ∷ 0 ∷ 0 ∷ 0 ∷ 0 ∷ 0 ∷ 16 ∷ [];
  fs_base = 0x8000;
  gs_base = 0x9000;
  tr_base = 0xa000;
  gdt_base = 0xc000;
  idt_base = 0xe000;
}
host_state-launch_vmcs_example =
    host_state-launch_vmcs 0x1111 0x2222 hyper (registers 1 0x4000) blank blank-Accepts

-- The processor's answer to each leaf.
abbrev answer : ℕ → ℕ → CpuidResult
answer leaf subleaf = record { eax = leaf; ebx = subleaf; ecx = 0; edx = 9 }

abbrev started : Machine
started = record {
  vmcs = launched;
  context = registers 1 0x4000;
  cr4 = 0x26f8;
  xcr = zeros;
  cache_drops = 0;
}

-- The guest has run to a `cpuid` of two bytes.
abbrev exited : Machine
exited = record {
  vmcs = record launched {
    fields =
        update (update launched.fields Fields.exit_reason 10) Fields.vm_exit_instruction_length 2;
  };
  context = registers 1 0x1111;
  cr4 = launched.fields Fields.host_cr4;
  xcr = zeros;
  cache_drops = 0;
}

exits : Exits started exited
unfolding is_guest_field
exits = record {
  kept =
      Kept-trans launched
        (record launched { fields = update launched.fields Fields.exit_reason 10 }) exited.vmcs
        (Kept-update launched Fields.exit_reason 10 refl)
        (Kept-update (record launched { fields = update launched.fields Fields.exit_reason 10 })
          Fields.vm_exit_instruction_length 2 refl);
  cr4 = refl;
  xcr = refl;
}

exited-IsReady : IsReady exited.vmcs
unfolding IsReady setup_vmcs write_entries
exited-IsReady = (refl, refl, refl, refl, refl, refl)

started-IsReady : IsReady started.vmcs
unfolding IsReady setup_vmcs write_entries
started-IsReady = (refl, refl, refl, refl, refl, refl)

reach : Reach answer 0x5555 (guest started) (vmm exited)
reach = next here (exit started exited exits)

paging-Reach_example :
    (paging (resumes answer 0x5555 exited).vmcs ≡ record {
      is_secondary = can_set 31 (cached_vmx_msr hyper.vmx_msrs true_processor_based_controls);
      is_ept = can_set 1 (cached_vmx_msr hyper.vmx_msrs processor_based_controls_2);
      memory_type = 6;
      levels = 4;
      root_page = 0x123456789;
    })
    × (host_state (resumes answer 0x5555 exited).vmcs ≡ host_state launched)
unfolding machine
paging-Reach_example =
    paging-Reach answer 0x5555 0x1111 0x2222 hyper (registers 1 0x4000) blank started
      (guest (resumes answer 0x5555 exited)) blank-Accepts blank-IsReady refl
      (next reach (
        resume exited (resumes answer 0x5555 exited)
          (handle_lem answer 0x5555 exited exited-IsReady)))

Reach-resume_example :
    (m : Machine) × Step answer 0x5555 (vmm exited) (guest m)
    × (m.context.rip ≡ 0x5555)
    × (m.vmcs.fields Fields.guest_rip
        ≡ (exited.vmcs.fields Fields.guest_rip
            + exited.vmcs.fields Fields.vm_exit_instruction_length)
          % 2 ^ 64)
Reach-resume_example = Reach-resume answer 0x5555 started exited started-IsReady reach

dispatch-xsetbv_example :
    (let m = dispatch answer reason_xsetbv started in
      ((i : ℕ) → m.xcr i ≡ (if 0 == i then 7 * 2 ^ 32 + 1 else 0))
      × ((k : ℕ) → k < 64 → bit k m.cr4 ≡ (bit k 0x26f8 || k == 18))
      × (m.context ≡ registers 1 0x4000)
      × (m.vmcs ≡ launched))
dispatch-xsetbv_example = dispatch-xsetbv answer started (omega arith)
