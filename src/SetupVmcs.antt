-- ===== src/SetupVmcs.antt =====
-- hypervisor/src/hypervisor/hypervisor.cpp: `setup_vmcs`, and the fields that `vm_launch` writes.
pub mod Table
pub mod Paging
pub mod State
use zpp_hypervisor.Common.{ℕ, ◌-◌, List, [], ◌∷◌, ◌++◌}
use zpp_hypervisor.Word.{◌<<<◌, ◌>>>◌, ◌|||◌}
use zpp_hypervisor.MemoryType.{code, write_back}
use zpp_hypervisor.EptPointer.{set_memory_type, set_page_walk_length, set_page_number}
use zpp_hypervisor.SegmentDescriptor.{
  SegmentDescriptor, from_memory, limit, vmx_access_rights, context_dependent_base,
}
use zpp_hypervisor.VmxState.{adjust_msr, cached_vmx_msr}
use zpp_hypervisor.Context.{Context}
use zpp_hypervisor.Vmcs.{Vmcs, VmcsError, run}
use zpp_hypervisor.Vmcs.ControlWords
use zpp_hypervisor.Vmcs.ControlQuads
use zpp_hypervisor.Vmcs.ControlLongs
use zpp_hypervisor.Vmcs.ControlNaturals
use zpp_hypervisor.Vmcs.GuestWords
use zpp_hypervisor.Vmcs.GuestQuads
use zpp_hypervisor.Vmcs.GuestLongs
use zpp_hypervisor.Vmcs.GuestNaturals
use zpp_hypervisor.Vmcs.HostWords
use zpp_hypervisor.Vmcs.HostNaturals

-- What `setup_vmcs` reads: the fields of the hypervisor, the addresses of its arrays, and memory.
pub record Hypervisor : Type 0 where
  pub next_virtual_processor : ℕ
  pub vmx_msrs : ℕ → ℕ
  pub epml4_physical : ℕ
  pub msr_bitmap_physical : ℕ
  pub intermediate_gdt : ℕ → ℕ
  pub load : ℕ → ℕ
  pub host_cs : ℕ
  pub host_tr : ℕ
  pub guest_tr : ℕ
  pub guest_ldtr : ℕ
  pub ia32_gs_base : ℕ
  pub fs_data : ℕ
  pub gs_data : ℕ
  pub host_tss : ℕ
  pub guest_gdt_limit : ℕ
  pub guest_gdt_pointer : ℕ
  pub host_gdt : ℕ
  pub idtr_limit : ℕ
  pub idtr_base : ℕ
  pub host_idt : ℕ
  pub guest_cr0 : ℕ
  pub host_cr0 : ℕ
  pub guest_cr3 : ℕ
  pub host_cr3 : ℕ
  pub guest_cr4 : ℕ
  pub host_cr4 : ℕ
  pub ia32_debug_control : ℕ
  pub guest_dr7 : ℕ

-- `vmx::processor_based_contorls_2` and the `true_` registers of hypervisor/include/zpp/x64/intel/msr.h.
abbrev pub processor_based_controls_2 : ℕ
processor_based_controls_2 = 0x48b

abbrev pub true_pin_based_controls : ℕ
true_pin_based_controls = 0x48d

abbrev pub true_processor_based_controls : ℕ
true_processor_based_controls = 0x48e

abbrev pub true_exit_controls : ℕ
true_exit_controls = 0x48f

abbrev pub true_entry_controls : ℕ
true_entry_controls = 0x490

-- The controls of hypervisor/include/zpp/x64/intel/vmx.h.
abbrev pub secondary_controls : ℕ
secondary_controls = 1 <<< 1 ||| 1 <<< 5 ||| 1 <<< 3 ||| 1 <<< 12 ||| 1 <<< 20 ||| 1 <<< 22

abbrev pub primary_controls : ℕ
primary_controls = 1 <<< 31 ||| 1 <<< 28

abbrev pub host_address_space_size : ℕ
host_address_space_size = 1 <<< 9

abbrev pub ia_32e_mode_guest : ℕ
ia_32e_mode_guest = 1 <<< 9

abbrev pub eptp : Hypervisor → ℕ
eptp h =
    set_page_number (h.epml4_physical >>> 12)
      (set_page_walk_length 4 (set_memory_type (code write_back) 0))

abbrev pub adjusted : Hypervisor → ℕ → ℕ → ℕ
adjusted h msr value = adjust_msr (cached_vmx_msr h.vmx_msrs msr) value

abbrev pub selected : Hypervisor → ℕ → SegmentDescriptor
selected h selector =
    from_memory h.load (h.intermediate_gdt (h.next_virtual_processor - 1)) selector

-- The calls of `setup_vmcs`, in their order: up to the controls, the segments, and the rest.
abbrev pub set_controls : Hypervisor → List (Vmcs → VmcsError × Vmcs)
set_controls h =
    GuestQuads.set_vmcs_link_pointer 0xffffffffffffffff
    ∷ ControlWords.set_vpid h.next_virtual_processor
    ∷ ControlQuads.set_ept_pointer (eptp h)
    ∷ ControlQuads.set_msr_bitmap h.msr_bitmap_physical
    ∷ ControlLongs.set_secondary_processor_based_vm_execution_controls
        (adjusted h processor_based_controls_2 secondary_controls)
    ∷ ControlLongs.set_pin_based_vm_execution_controls (adjusted h true_pin_based_controls 0)
    ∷ ControlLongs.set_primary_processor_based_vm_execution_controls
        (adjusted h true_processor_based_controls primary_controls)
    ∷ ControlLongs.set_vm_exit_controls (adjusted h true_exit_controls host_address_space_size)
    ∷ ControlLongs.set_vm_entry_controls (adjusted h true_entry_controls ia_32e_mode_guest)
    ∷ []

abbrev pub set_segments : Hypervisor → Context → List (Vmcs → VmcsError × Vmcs)
set_segments h c =
    GuestWords.set_guest_cs_selector c.cs
    ∷ GuestLongs.set_guest_cs_limit (limit (selected h c.cs))
    ∷ GuestLongs.set_guest_cs_access_rights (vmx_access_rights (selected h c.cs))
    ∷ GuestNaturals.set_guest_cs_base (context_dependent_base (selected h c.cs))
    ∷ HostWords.set_host_cs_selector h.host_cs
    ∷ GuestWords.set_guest_ds_selector c.ds
    ∷ GuestLongs.set_guest_ds_limit (limit (selected h c.ds))
    ∷ GuestLongs.set_guest_ds_access_rights (vmx_access_rights (selected h c.ds))
    ∷ GuestNaturals.set_guest_ds_base (context_dependent_base (selected h c.ds))
    ∷ HostWords.set_host_ds_selector 0
    ∷ GuestWords.set_guest_es_selector c.es
    ∷ GuestLongs.set_guest_es_limit (limit (selected h c.es))
    ∷ GuestLongs.set_guest_es_access_rights (vmx_access_rights (selected h c.es))
    ∷ GuestNaturals.set_guest_es_base (context_dependent_base (selected h c.es))
    ∷ HostWords.set_host_es_selector 0
    ∷ GuestWords.set_guest_fs_selector c.fs
    ∷ GuestLongs.set_guest_fs_limit (limit (selected h c.fs))
    ∷ GuestLongs.set_guest_fs_access_rights (vmx_access_rights (selected h c.fs))
    ∷ GuestNaturals.set_guest_fs_base (context_dependent_base (selected h c.fs))
    ∷ HostNaturals.set_host_fs_base h.fs_data
    ∷ HostWords.set_host_fs_selector 0
    ∷ GuestWords.set_guest_gs_selector c.gs
    ∷ GuestLongs.set_guest_gs_limit (limit (selected h c.gs))
    ∷ GuestLongs.set_guest_gs_access_rights (vmx_access_rights (selected h c.gs))
    ∷ GuestNaturals.set_guest_gs_base h.ia32_gs_base
    ∷ HostNaturals.set_host_gs_base h.gs_data
    ∷ HostWords.set_host_gs_selector 0
    ∷ GuestWords.set_guest_ss_selector c.ss
    ∷ GuestLongs.set_guest_ss_limit (limit (selected h c.ss))
    ∷ GuestLongs.set_guest_ss_access_rights (vmx_access_rights (selected h c.ss))
    ∷ GuestNaturals.set_guest_ss_base (context_dependent_base (selected h c.ss))
    ∷ HostWords.set_host_ss_selector 0
    ∷ []

abbrev pub set_system_segments : Hypervisor → List (Vmcs → VmcsError × Vmcs)
set_system_segments h =
    GuestWords.set_guest_tr_selector h.guest_tr
    ∷ GuestLongs.set_guest_tr_limit (limit (selected h h.guest_tr))
    ∷ GuestLongs.set_guest_tr_access_rights (vmx_access_rights (selected h h.guest_tr))
    ∷ GuestNaturals.set_guest_tr_base (context_dependent_base (selected h h.guest_tr))
    ∷ HostNaturals.set_host_tr_base h.host_tss
    ∷ HostWords.set_host_tr_selector h.host_tr
    ∷ GuestWords.set_guest_ldtr_selector h.guest_ldtr
    ∷ GuestLongs.set_guest_ldtr_limit (limit (selected h h.guest_ldtr))
    ∷ GuestLongs.set_guest_ldtr_access_rights (vmx_access_rights (selected h h.guest_ldtr))
    ∷ GuestNaturals.set_guest_ldtr_base (context_dependent_base (selected h h.guest_ldtr))
    ∷ GuestLongs.set_guest_gdtr_limit h.guest_gdt_limit
    ∷ GuestNaturals.set_guest_gdtr_base h.guest_gdt_pointer
    ∷ HostNaturals.set_host_gdtr_base h.host_gdt
    ∷ GuestLongs.set_guest_idtr_limit h.idtr_limit
    ∷ GuestNaturals.set_guest_idtr_base h.idtr_base
    ∷ HostNaturals.set_host_idtr_base h.host_idt
    ∷ []

abbrev pub set_registers : Hypervisor → Context → List (Vmcs → VmcsError × Vmcs)
set_registers h c =
    ControlNaturals.set_cr0_read_shadow h.guest_cr0
    ∷ GuestNaturals.set_guest_cr0 h.host_cr0
    ∷ HostNaturals.set_host_cr0 h.host_cr0
    ∷ GuestNaturals.set_guest_cr3 h.guest_cr3
    ∷ HostNaturals.set_host_cr3 h.host_cr3
    ∷ ControlNaturals.set_cr4_read_shadow h.guest_cr4
    ∷ GuestNaturals.set_guest_cr4 h.host_cr4
    ∷ HostNaturals.set_host_cr4 h.host_cr4
    ∷ GuestQuads.set_guest_ia32_debugctl h.ia32_debug_control
    ∷ GuestNaturals.set_guest_dr7 h.guest_dr7
    ∷ GuestNaturals.set_guest_rflags c.rflags
    ∷ []

unfoldable pub setup_vmcs : Hypervisor → Context → Vmcs → Vmcs
setup_vmcs h c s =
    run (set_registers h c)
      (run (set_system_segments h) (run (set_segments h c) (run (set_controls h) s)))

-- What `vm_launch` writes to the VMCS; the addresses are those of `vm_exit_entry` and of the contexts
-- on the stack for VM exits.
unfoldable pub write_entries : ℕ → ℕ → Context → Vmcs → Vmcs
write_entries vm_exit_entry host_rsp c s =
    run
      (HostNaturals.set_host_rip vm_exit_entry
        ∷ HostNaturals.set_host_rsp host_rsp
        ∷ GuestNaturals.set_guest_rip c.rip
        ∷ GuestNaturals.set_guest_rsp c.rsp
        ∷ [])
      s

-- The VMCS that the guest is launched with.
abbrev pub launch_vmcs : ℕ → ℕ → Hypervisor → Context → Vmcs → Vmcs
launch_vmcs vm_exit_entry host_rsp h c s = write_entries vm_exit_entry host_rsp c (setup_vmcs h c s)
