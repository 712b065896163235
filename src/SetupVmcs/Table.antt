-- ===== src/SetupVmcs/Table.antt =====
-- hypervisor/src/hypervisor/hypervisor.cpp: the VMCS after `setup_vmcs` as a table of fields and
-- values.
use zpp_hypervisor.Common.{ℕ, true, List, [], ◌∷◌, ◌++◌, update, ◌≡◌, refl, ap, ◌∙◌}
use zpp_hypervisor.SegmentDescriptor.{limit, vmx_access_rights, context_dependent_base}
use zpp_hypervisor.Context.{Context}
use zpp_hypervisor.Vmcs.{Vmcs, VmcsError, narrow, write, run}
use zpp_hypervisor.Vmcs.Accessors.{write-fields}
use zpp_hypervisor.Vmcs.Fields
use zpp_hypervisor.SetupVmcs.{
  Hypervisor, adjusted, eptp, selected, setup_vmcs, write_entries, launch_vmcs,
  processor_based_controls_2, true_pin_based_controls, true_processor_based_controls,
  true_exit_controls, true_entry_controls, secondary_controls, primary_controls,
  host_address_space_size, ia_32e_mode_guest,
}

-- The fields, by the last row that has them.
unfoldable pub assigned : List (ℕ × ℕ) → (ℕ → ℕ) → ℕ → ℕ
assigned [] fields = fields
assigned ((n, v) ∷ rest) fields = assigned rest (update fields n (narrow n v))

calls : List (ℕ × ℕ) → List (Vmcs → VmcsError × Vmcs)
calls [] = []
calls ((n, v) ∷ rest) = write n v ∷ calls rest

abbrev controls : Hypervisor → List (ℕ × ℕ)
controls h =
    (Fields.vmcs_link_pointer, 0xffffffffffffffff)
    ∷ (Fields.vpid, h.next_virtual_processor)
    ∷ (Fields.ept_pointer, (eptp h))
    ∷ (Fields.msr_bitmap, h.msr_bitmap_physical)
    ∷ (
      Fields.secondary_processor_based_vm_execution_controls,
      (adjusted h processor_based_controls_2 secondary_controls),
    )
    ∷ (Fields.pin_based_vm_execution_controls, (adjusted h true_pin_based_controls 0))
    ∷ (
      Fields.primary_processor_based_vm_execution_controls,
      (adjusted h true_processor_based_controls primary_controls),
    )
    ∷ (Fields.vm_exit_controls, (adjusted h true_exit_controls host_address_space_size))
    ∷ (Fields.vm_entry_controls, (adjusted h true_entry_controls ia_32e_mode_guest))
    ∷ []

abbrev segments : Hypervisor → Context → List (ℕ × ℕ)
segments h c =
    (Fields.guest_cs_selector, c.cs)
    ∷ (Fields.guest_cs_limit, (limit (selected h c.cs)))
    ∷ (Fields.guest_cs_access_rights, (vmx_access_rights (selected h c.cs)))
    ∷ (Fields.guest_cs_base, (context_dependent_base (selected h c.cs)))
    ∷ (Fields.host_cs_selector, h.host_cs)
    ∷ (Fields.guest_ds_selector, c.ds)
    ∷ (Fields.guest_ds_limit, (limit (selected h c.ds)))
    ∷ (Fields.guest_ds_access_rights, (vmx_access_rights (selected h c.ds)))
    ∷ (Fields.guest_ds_base, (context_dependent_base (selected h c.ds)))
    ∷ (Fields.host_ds_selector, 0)
    ∷ (Fields.guest_es_selector, c.es)
    ∷ (Fields.guest_es_limit, (limit (selected h c.es)))
    ∷ (Fields.guest_es_access_rights, (vmx_access_rights (selected h c.es)))
    ∷ (Fields.guest_es_base, (context_dependent_base (selected h c.es)))
    ∷ (Fields.host_es_selector, 0)
    ∷ (Fields.guest_fs_selector, c.fs)
    ∷ (Fields.guest_fs_limit, (limit (selected h c.fs)))
    ∷ (Fields.guest_fs_access_rights, (vmx_access_rights (selected h c.fs)))
    ∷ (Fields.guest_fs_base, (context_dependent_base (selected h c.fs)))
    ∷ (Fields.host_fs_base, h.fs_data)
    ∷ (Fields.host_fs_selector, 0)
    ∷ (Fields.guest_gs_selector, c.gs)
    ∷ (Fields.guest_gs_limit, (limit (selected h c.gs)))
    ∷ (Fields.guest_gs_access_rights, (vmx_access_rights (selected h c.gs)))
    ∷ (Fields.guest_gs_base, h.ia32_gs_base)
    ∷ (Fields.host_gs_base, h.gs_data)
    ∷ (Fields.host_gs_selector, 0)
    ∷ (Fields.guest_ss_selector, c.ss)
    ∷ (Fields.guest_ss_limit, (limit (selected h c.ss)))
    ∷ (Fields.guest_ss_access_rights, (vmx_access_rights (selected h c.ss)))
    ∷ (Fields.guest_ss_base, (context_dependent_base (selected h c.ss)))
    ∷ (Fields.host_ss_selector, 0)
    ∷ []

abbrev system_segments : Hypervisor → List (ℕ × ℕ)
system_segments h =
    (Fields.guest_tr_selector, h.guest_tr)
    ∷ (Fields.guest_tr_limit, (limit (selected h h.guest_tr)))
    ∷ (Fields.guest_tr_access_rights, (vmx_access_rights (selected h h.guest_tr)))
    ∷ (Fields.guest_tr_base, (context_dependent_base (selected h h.guest_tr)))
    ∷ (Fields.host_tr_base, h.host_tss)
    ∷ (Fields.host_tr_selector, h.host_tr)
    ∷ (Fields.guest_ldtr_selector, h.guest_ldtr)
    ∷ (Fields.guest_ldtr_limit, (limit (selected h h.guest_ldtr)))
    ∷ (Fields.guest_ldtr_access_rights, (vmx_access_rights (selected h h.guest_ldtr)))
    ∷ (Fields.guest_ldtr_base, (context_dependent_base (selected h h.guest_ldtr)))
    ∷ (Fields.guest_gdtr_limit, h.guest_gdt_limit)
    ∷ (Fields.guest_gdtr_base, h.guest_gdt_pointer)
    ∷ (Fields.host_gdtr_base, h.host_gdt)
    ∷ (Fields.guest_idtr_limit, h.idtr_limit)
    ∷ (Fields.guest_idtr_base, h.idtr_base)
    ∷ (Fields.host_idtr_base, h.host_idt)
    ∷ []

abbrev registers : Hypervisor → Context → List (ℕ × ℕ)
registers h c =
    (Fields.cr0_read_shadow, h.guest_cr0)
    ∷ (Fields.guest_cr0, h.host_cr0)
    ∷ (Fields.host_cr0, h.host_cr0)
    ∷ (Fields.guest_cr3, h.guest_cr3)
    ∷ (Fields.host_cr3, h.host_cr3)
    ∷ (Fields.cr4_read_shadow, h.guest_cr4)
    ∷ (Fields.guest_cr4, h.host_cr4)
    ∷ (Fields.host_cr4, h.host_cr4)
    ∷ (Fields.guest_ia32_debugctl, h.ia32_debug_control)
    ∷ (Fields.guest_dr7, h.guest_dr7)
    ∷ (Fields.guest_rflags, c.rflags)
    ∷ []

abbrev entries : ℕ → ℕ → Context → List (ℕ × ℕ)
entries vm_exit_entry host_rsp c =
    (Fields.host_rip, vm_exit_entry)
    ∷ (Fields.host_rsp, host_rsp)
    ∷ (Fields.guest_rip, c.rip)
    ∷ (Fields.guest_rsp, c.rsp)
    ∷ []

unfoldable pub rows : ℕ → ℕ → Hypervisor → Context → List (ℕ × ℕ)
rows vm_exit_entry host_rsp h c =
    controls h
    ++ segments h c
    ++ system_segments h
    ++ registers h c
    ++ entries vm_exit_entry host_rsp c

launch_vmcs-calls :
    (vm_exit_entry host_rsp : ℕ) (h : Hypervisor) (c : Context) (s : Vmcs)
    → launch_vmcs vm_exit_entry host_rsp h c s ≡ run (calls (rows vm_exit_entry host_rsp h c)) s
unfolding setup_vmcs write_entries rows calls
launch_vmcs-calls vm_exit_entry host_rsp h c s = refl

-- A VMCS is current, and the fields of the rows can be written.
pub Accepts : List (ℕ × ℕ) → Vmcs → Type 0
Accepts [] s = s.is_current ≡ true
Accepts ((n, v) ∷ rest) s = (s.writable n ≡ true) × Accepts rest s

pub Accepts-all :
    (l : List (ℕ × ℕ)) (s : Vmcs)
    → s.is_current ≡ true
    → ((n : ℕ) → s.writable n ≡ true)
    → Accepts l s
unfolding Accepts
Accepts-all [] s current writable = current
Accepts-all ((n, v) ∷ rest) s current writable = (writable n, Accepts-all rest s current writable)

Accepts-is_current : (l : List (ℕ × ℕ)) (s : Vmcs) → Accepts l s → s.is_current ≡ true
unfolding Accepts
Accepts-is_current [] s h = h
Accepts-is_current ((n, v) ∷ rest) s h = Accepts-is_current rest s h.1

Accepts-update :
    (l : List (ℕ × ℕ)) (s : Vmcs) (f : ℕ → ℕ) → Accepts l s → Accepts l (record s { fields = f })
unfolding Accepts
Accepts-update [] s f h = h
Accepts-update ((n, v) ∷ rest) s f h = (h.0, Accepts-update rest s f h.1)

run-calls :
    (l : List (ℕ × ℕ)) (s : Vmcs)
    → Accepts l s
    → run (calls l) s ≡ record s { fields = assigned l s.fields }
unfolding calls assigned Accepts
run-calls [] s h = refl
run-calls ((n, v) ∷ l) s h =
    ap (run (calls l)) (write-fields n v s (Accepts-is_current l s h.1) h.0)
    ∙ run-calls l (record s { fields = update s.fields n (narrow n v) })
        (Accepts-update l s (update s.fields n (narrow n v)) h.1)

pub launch_vmcs-assigned :
    (vm_exit_entry host_rsp : ℕ) (h : Hypervisor) (c : Context) (s : Vmcs)
    → Accepts (rows vm_exit_entry host_rsp h c) s
    → launch_vmcs vm_exit_entry host_rsp h c s
      ≡ record s { fields = assigned (rows vm_exit_entry host_rsp h c) s.fields }
launch_vmcs-assigned vm_exit_entry host_rsp h c s accepts =
    launch_vmcs-calls vm_exit_entry host_rsp h c s
    ∙ run-calls (rows vm_exit_entry host_rsp h c) s accepts
