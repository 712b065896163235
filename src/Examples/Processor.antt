-- ===== src/Examples/Processor.antt =====
-- The processor's registers, descriptors and control bits.
use zpp_hypervisor.Common.{
  ℕ, ◌+◌, ◌-◌, ◌*◌, ◌/◌, ◌≤◌, ◌≡◌, true, false, ◌&&◌, ◌||◌, ◌==◌, if◌then◌else◌, arith, refl,
}
use zpp_hypervisor.Word.{bit}
use zpp_hypervisor.SegmentEntry
use zpp_hypervisor.SegmentDescriptor.{
  from_memory, context_dependent_base, limit, initialize_host_gdt, task_state_segment, tss_size,
}
use zpp_hypervisor.SegmentDescriptor.Gdt.{
  intermediate, os_task_present, from_memory-initialize_host_gdt, initialize_intermediate_gdt_lem,
}
use zpp_hypervisor.VmxState.{initialize_vmx_msrs, initialize_vmx, Regions}
use zpp_hypervisor.VmxState.Bits.{initialize_vmx_lem}
use zpp_hypervisor.ErrorCode.{success, is_success}
use zpp_hypervisor.Launch.{Cpu, Answers, Steps, enter_root_mode}
use zpp_hypervisor.Launch.Restore.{first_error, root_errors, in_root, enter_root_mode_lem}

abbrev no_words : ℕ → ℕ
no_words i = 0

-- The host's table at address 0x1000.
abbrev host_memory : ℕ → ℕ
host_memory a = (initialize_host_gdt 0xffff800012345678 no_words).words ((a - 0x1000) / 8)

from_memory-initialize_host_gdt_example :
    (let task =
        from_memory host_memory 0x1000 (initialize_host_gdt 0xffff800012345678 no_words).tr in
      (context_dependent_base task ≡ 0xffff800012345678)
      × (limit task ≡ 103)
      × (SegmentEntry.present task.entry ≡ true)
      × (SegmentEntry.type task.entry ≡ 9))
from_memory-initialize_host_gdt_example =
    from_memory-initialize_host_gdt host_memory no_words 0x1000 0xffff800012345678 (omega arith)
      refl refl

-- A table of three words with no task state segment.
initialize_intermediate_gdt_lem_example :
    (os_task_present no_words no_words 0x1000 0x9000 23 8 0x5000 ≡ true
      → ((intermediate no_words no_words 0x1000 0x9000 23 8 0x5000).words ≡ no_words)
        × ((intermediate no_words no_words 0x1000 0x9000 23 8 0x5000).guest_gdt_pointer ≡ 0x9000)
        × ((intermediate no_words no_words 0x1000 0x9000 23 8 0x5000).guest_gdt_limit ≡ 23)
        × ((intermediate no_words no_words 0x1000 0x9000 23 8 0x5000).guest_tr ≡ 8))
    × (os_task_present no_words no_words 0x1000 0x9000 23 8 0x5000 ≡ false
        → ((j : ℕ)
            → 8 * j ≤ 23
            → (intermediate no_words no_words 0x1000 0x9000 23 8 0x5000).words j ≡ no_words j)
          × ((intermediate no_words no_words 0x1000 0x9000 23 8 0x5000).guest_gdt_pointer ≡ 0x1000)
          × ((intermediate no_words no_words 0x1000 0x9000 23 8 0x5000).guest_tr + 15
              ≡ (intermediate no_words no_words 0x1000 0x9000 23 8 0x5000).guest_gdt_limit)
          × ((intermediate no_words no_words 0x1000 0x9000 23 8 0x5000).words
                ((intermediate no_words no_words 0x1000 0x9000 23 8 0x5000).guest_tr / 8)
              ≡ (task_state_segment 0x5000 tss_size).entry)
          × ((intermediate no_words no_words 0x1000 0x9000 23 8 0x5000).words
                ((intermediate no_words no_words 0x1000 0x9000 23 8 0x5000).guest_tr / 8 + 1)
              ≡ (task_state_segment 0x5000 tss_size).extended))
initialize_intermediate_gdt_lem_example =
    initialize_intermediate_gdt_lem no_words no_words 0x1000 0x9000 23 8 0x5000 refl (omega arith)

abbrev regions : Regions
regions = record { vmx = 0x1000; vmx_vmcs = 0x2000; epml4 = 0x3000; msr_bitmap = 0x4000 }

-- Bit 5 of the fixed registers is required, and no bit is forbidden.
abbrev fixed : ℕ → ℕ
fixed msr = if msr == 0x486 then 32 else 0xffffffff

initialize_vmx_lem_example :
    (let state = initialize_vmx (λ a. a) regions (initialize_vmx_msrs fixed no_words) 0x11 0x20 in
      (bit 5 state.host_cr0 ≡ (bit 5 0x11 && bit 5 (fixed 0x487) || bit 5 (fixed 0x486)))
      × (bit 5 state.host_cr4 ≡ (bit 5 0x20 && bit 5 (fixed 0x489) || bit 5 (fixed 0x488))))
initialize_vmx_lem_example =
    initialize_vmx_lem (λ a. a) regions fixed no_words 0x11 0x20 5 (omega arith)

abbrev cpu : Cpu
cpu = record {
  cr0 = 0x11;
  cr3 = 0x1000;
  cr4 = 0x20;
  gdt_base = 0x9000;
  gdt_limit = 23;
  tr = 8;
  ldtr = 0;
  idt_base = 0xa000;
  idt_limit = 4095;
  dr7 = 0x400;
  msr = no_words;
  vmx = false;
  interrupts = true;
}

abbrev steps : Steps
steps = record {
  cpuid = 0;
  module_map = success;
  protection = success;
  intermediate_gdt = 0x5000;
  intermediate_gdt_limit = 39;
  guest_tr = 24;
  host_cr0 = 0x31;
  host_cr3 = 0x7000;
  host_cr4 = 0x2020;
}

-- A processor that refuses `vmclear`.
abbrev refuses : Answers
refuses = record { vmxon_fails = false; vmclear_fails = true; vmptrld_fails = false }

enter_root_mode_lem_example : enter_root_mode refuses 0x31 0x2020 cpu ≡ (
    if is_success (first_error (root_errors refuses))
    then (success, in_root 0x31 0x2020 cpu)
    else (first_error (root_errors refuses), cpu))
enter_root_mode_lem_example = enter_root_mode_lem refuses 0x31 0x2020 cpu refl
