-- ===== src/VmExit/Run.antt =====
-- hypervisor/src/hypervisor/hypervisor.cpp: the runs of the guest and the handler, of any length.
use zpp_hypervisor.Common.{ℕ, ◌+◌, ◌/◌, ◌%◌, ◌^◌, ◌≡◌, refl, sym, ap, ◌∙◌, subst}
use zpp_hypervisor.VmxState.{cached_vmx_msr}
use zpp_hypervisor.Context.{Context}
use zpp_hypervisor.Vmcs.{Vmcs}
use zpp_hypervisor.Vmcs.Fields
use zpp_hypervisor.SetupVmcs.{
  Hypervisor, launch_vmcs, processor_based_controls_2, true_processor_based_controls,
}
use zpp_hypervisor.SetupVmcs.Table.{rows, Accepts, launch_vmcs-assigned}
use zpp_hypervisor.SetupVmcs.Paging.{paging, can_set, paging-launch_vmcs}
use zpp_hypervisor.SetupVmcs.State.{host_state}
use zpp_hypervisor.VmExit.{Machine, CpuidResult}
use zpp_hypervisor.VmExit.Handler.{IsReady, resumes, handle_lem}
use zpp_hypervisor.VmExit.Guest.{
  Kept, World, guest, vmm, machine, Step, resume, Reach, Reach-Kept, Kept-IsReady, is_guest_field,
}

Kept-paging : (s t : Vmcs) → Kept s t → paging t ≡ paging s
unfolding paging is_guest_field
Kept-paging s t k =
    rw
      (
        k.fields Fields.primary_processor_based_vm_execution_controls refl,
        k.fields Fields.secondary_processor_based_vm_execution_controls refl,
        k.fields Fields.ept_pointer refl,
      )
      refl

Kept-host_state : (s t : Vmcs) → Kept s t → host_state t ≡ host_state s
unfolding host_state is_guest_field
Kept-host_state s t k =
    rw
      (
        k.fields Fields.host_rip refl,
        k.fields Fields.host_rsp refl,
        k.fields Fields.host_cr0 refl,
        k.fields Fields.host_cr3 refl,
        k.fields Fields.host_cr4 refl,
        k.fields Fields.host_cs_selector refl,
        k.fields Fields.host_ds_selector refl,
        k.fields Fields.host_es_selector refl,
        k.fields Fields.host_fs_selector refl,
        k.fields Fields.host_gs_selector refl,
        k.fields Fields.host_ss_selector refl,
        k.fields Fields.host_tr_selector refl,
        k.fields Fields.host_fs_base refl,
        k.fields Fields.host_gs_base refl,
        k.fields Fields.host_tr_base refl,
        k.fields Fields.host_gdtr_base refl,
        k.fields Fields.host_idtr_base refl,
      )
      refl

launch_vmcs-IsReady :
    (vm_exit_entry host_rsp : ℕ) (h : Hypervisor) (c : Context) (s : Vmcs)
    → Accepts (rows vm_exit_entry host_rsp h c) s
    → IsReady s
    → IsReady (launch_vmcs vm_exit_entry host_rsp h c s)
unfolding IsReady
launch_vmcs-IsReady vm_exit_entry host_rsp h c s accepts ready =
    subst IsReady (sym (launch_vmcs-assigned vm_exit_entry host_rsp h c s accepts)) ready

-- From a launch with a current VMCS that accepts the fields written and has those that the handler
-- uses, through any sequence of guest runs, which change only the guest's fields, and of handled
-- exits, the guest's paging stays what setup_vmcs chose: the extended page tables at
-- epml4_physical, write back, four levels, on where the processor allows or requires the controls;
-- and the host's state stays that of the launch.
pub paging-Reach :
    (cpuid : ℕ → ℕ → CpuidResult) (vmresume vm_exit_entry host_rsp : ℕ) (h : Hypervisor)
    (c : Context) (s : Vmcs) (m : Machine) (w : World)
    → Accepts (rows vm_exit_entry host_rsp h c) s
    → IsReady s
    → m.vmcs ≡ launch_vmcs vm_exit_entry host_rsp h c s
    → Reach cpuid vmresume (guest m) w
    → (paging (machine w).vmcs ≡ record {
      is_secondary = can_set 31 (cached_vmx_msr h.vmx_msrs true_processor_based_controls);
      is_ept = can_set 1 (cached_vmx_msr h.vmx_msrs processor_based_controls_2);
      memory_type = 6;
      levels = 4;
      root_page = h.epml4_physical / 2 ^ 12 % 2 ^ 40;
    })
      × (host_state (machine w).vmcs ≡ host_state (launch_vmcs vm_exit_entry host_rsp h c s))
unfolding machine
paging-Reach cpuid vmresume vm_exit_entry host_rsp h c s m w accepts ready launched reach =
    let start =
      subst IsReady (sym launched)
        (launch_vmcs-IsReady vm_exit_entry host_rsp h c s accepts ready) in
    let kept = Reach-Kept cpuid vmresume reach start in
    (
      Kept-paging m.vmcs (machine w).vmcs kept
          ∙ ap paging launched
          ∙ paging-launch_vmcs vm_exit_entry host_rsp h c s accepts,
      Kept-host_state m.vmcs (machine w).vmcs kept ∙ ap host_state launched,
    )

-- At every VM exit that is reached from a start with a current VMCS that has the fields the handler
-- uses, the handler resumes the guest through vmresume with its instruction pointer advanced by the
-- instruction's length.
pub Reach-resume :
    (cpuid : ℕ → ℕ → CpuidResult) (vmresume : ℕ) (start m : Machine)
    → IsReady start.vmcs
    → Reach cpuid vmresume (guest start) (vmm m)
    → (m' : Machine) × Step cpuid vmresume (vmm m) (guest m')
      × (m'.context.rip ≡ vmresume)
      × (m'.vmcs.fields Fields.guest_rip
          ≡ (m.vmcs.fields Fields.guest_rip + m.vmcs.fields Fields.vm_exit_instruction_length)
            % 2 ^ 64)
unfolding resumes machine
Reach-resume cpuid vmresume start m ready reach =
    let now = Kept-IsReady start.vmcs m.vmcs (Reach-Kept cpuid vmresume reach ready) ready in
    (
      resumes cpuid vmresume m,
      resume m (resumes cpuid vmresume m) (handle_lem cpuid vmresume m now),
      refl,
      refl,
    )
