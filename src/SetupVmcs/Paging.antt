-- ===== src/SetupVmcs/Paging.antt =====
-- hypervisor/src/hypervisor/hypervisor.cpp, `setup_vmcs`: the extended page tables that the guest
-- is launched with.
use zpp_hypervisor.Common.{
  ℕ, ◌+◌, ◌/◌, ◌%◌, ◌^◌, Bool, true, ◌&&◌, ◌||◌, ◌==◌, ◌≡◌, refl, ap, ◌<◌, ◌*◌, ◌∙◌, arith,
}
use zpp_hypervisor.Word.{bit}
use zpp_hypervisor.EptPointer
use zpp_hypervisor.EptPointer.Forms.{
  memory_type-eq, page_walk_length-eq, page_number-eq, set_page_number-eq, set_memory_type-eq,
  set_page_walk_length-eq,
}
use zpp_hypervisor.VmxState.{adjust_msr, cached_vmx_msr}
use zpp_hypervisor.VmxState.Bits.{bit-adjust_msr}
use zpp_hypervisor.Context.{Context}
use zpp_hypervisor.Vmcs.{Vmcs, narrow}
use zpp_hypervisor.Vmcs.Fields
use zpp_hypervisor.SetupVmcs.{
  Hypervisor, eptp, launch_vmcs, primary_controls, secondary_controls, processor_based_controls_2,
  true_processor_based_controls,
}
use zpp_hypervisor.SetupVmcs.Table.{rows, assigned, Accepts, launch_vmcs-assigned}

-- The tables and the controls that a processor translates the guest's addresses with.
pub record Paging : Type 0 where
  pub is_secondary : Bool
  pub is_ept : Bool
  pub memory_type : ℕ
  pub levels : ℕ
  pub root_page : ℕ

unfoldable pub paging : Vmcs → Paging
paging s = record {
  is_secondary = bit 31 (s.fields Fields.primary_processor_based_vm_execution_controls);
  is_ept = bit 1 (s.fields Fields.secondary_processor_based_vm_execution_controls);
  memory_type = EptPointer.memory_type (s.fields Fields.ept_pointer);
  levels = EptPointer.page_walk_length (s.fields Fields.ept_pointer);
  root_page = EptPointer.page_number (s.fields Fields.ept_pointer);
}

-- A control is on if the processor lets it be on or requires it.
pub can_set : ℕ → ℕ → Bool
can_set k msr = bit (32 + k) msr || bit k msr

field-launch_vmcs :
    (vm_exit_entry host_rsp : ℕ) (h : Hypervisor) (c : Context) (s : Vmcs) (k : ℕ)
    → Accepts (rows vm_exit_entry host_rsp h c) s
    → (launch_vmcs vm_exit_entry host_rsp h c s).fields k
      ≡ assigned (rows vm_exit_entry host_rsp h c) s.fields k
field-launch_vmcs vm_exit_entry host_rsp h c s k accepts =
    ap (λ (x : Vmcs). x.fields k) (launch_vmcs-assigned vm_exit_entry host_rsp h c s accepts)

root : (p : ℕ) → ℕ
root p = p / 2 ^ 12 % 2 ^ 40 * 2 ^ 12 + 30

eptp_lem : (h : Hypervisor) → narrow Fields.ept_pointer (eptp h) ≡ root h.epml4_physical
unfolding root
eptp_lem h =
    let low : 30 / 2 ^ 52 * 2 ^ 52 + h.epml4_physical / 2 ^ 12 % 2 ^ 40 * 2 ^ 12 + 30 % 2 ^ 12
        ≡ root h.epml4_physical =
      omega arith in
    let whole : root h.epml4_physical % 2 ^ 64 ≡ root h.epml4_physical = omega arith in
    let type : EptPointer.set_memory_type 6 0 ≡ 6 = set_memory_type-eq 6 0 (omega arith) in
    let lengths : EptPointer.set_page_walk_length 4 6 ≡ 30 =
      set_page_walk_length-eq 4 6 (omega arith) in
    ap
      (λ x.
        EptPointer.set_page_number (h.epml4_physical / 2 ^ 12) (EptPointer.set_page_walk_length 4 x)
        % 2 ^ 64)
      type
    ∙ ap (λ x. EptPointer.set_page_number (h.epml4_physical / 2 ^ 12) x % 2 ^ 64) lengths
    ∙ ap (λ x. x % 2 ^ 64) (set_page_number-eq (h.epml4_physical / 2 ^ 12) 30 (omega arith) ∙ low)
    ∙ whole

control_bit :
    (k msr value field : ℕ)
    → k < 32
    → bit k value ≡ true
    → bit k (adjust_msr msr value % 2 ^ 32) ≡ bit k (adjust_msr msr value)
    → field ≡ adjust_msr msr value % 2 ^ 32
    → bit k field ≡ can_set k msr
unfolding can_set
control_bit k msr value field below asked half e =
    ap (bit k) e
    ∙ half
    ∙ bit-adjust_msr msr value k below
    ∙ ap (λ b. b && bit (32 + k) msr || bit k msr) asked

pub paging-launch_vmcs :
    (vm_exit_entry host_rsp : ℕ) (h : Hypervisor) (c : Context) (s : Vmcs)
    → Accepts (rows vm_exit_entry host_rsp h c) s
    → paging (launch_vmcs vm_exit_entry host_rsp h c s) ≡ record {
      is_secondary = can_set 31 (cached_vmx_msr h.vmx_msrs true_processor_based_controls);
      is_ept = can_set 1 (cached_vmx_msr h.vmx_msrs processor_based_controls_2);
      memory_type = 6;
      levels = 4;
      root_page = h.epml4_physical / 2 ^ 12 % 2 ^ 40;
    }
unfolding paging rows assigned root
paging-launch_vmcs vm_exit_entry host_rsp h c s accepts =
    let f : (k : ℕ)
        → (launch_vmcs vm_exit_entry host_rsp h c s).fields k
          ≡ assigned (rows vm_exit_entry host_rsp h c) s.fields k =
      λ k. field-launch_vmcs vm_exit_entry host_rsp h c s k accepts in
    let primary = cached_vmx_msr h.vmx_msrs true_processor_based_controls in
    let secondary = cached_vmx_msr h.vmx_msrs processor_based_controls_2 in
    let p = root h.epml4_physical in
    let type : p % 2 ^ 3 ≡ 6 = omega arith in
    let lengths : p / 2 ^ 3 % 2 ^ 3 + 1 ≡ 4 = omega arith in
    let page : p / 2 ^ 12 % 2 ^ 40 ≡ h.epml4_physical / 2 ^ 12 % 2 ^ 40 = omega arith in
    let e : (launch_vmcs vm_exit_entry host_rsp h c s).fields Fields.ept_pointer
        ≡ root h.epml4_physical =
      f Fields.ept_pointer ∙ eptp_lem h in
    rw
      (
        e,
        control_bit 31 primary primary_controls
            ((launch_vmcs vm_exit_entry host_rsp h c s).fields
              Fields.primary_processor_based_vm_execution_controls)
            (omega arith) refl (ap (λ t. t == 1) (omega arith))
            (f Fields.primary_processor_based_vm_execution_controls),
        control_bit 1 secondary secondary_controls
            ((launch_vmcs vm_exit_entry host_rsp h c s).fields
              Fields.secondary_processor_based_vm_execution_controls)
            (omega arith) refl (ap (λ t. t == 1) (omega arith))
            (f Fields.secondary_processor_based_vm_execution_controls),
        memory_type-eq (root h.epml4_physical),
        page_walk_length-eq (root h.epml4_physical),
        page_number-eq (root h.epml4_physical),
        type,
        lengths,
        page,
      )
      refl
