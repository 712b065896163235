-- ===== src/Vmcs/GuestLongs.antt =====
-- hypervisor/include/zpp/x64/intel/vmcs.h: the accessors of the guest's state of 32 bits.
use zpp_hypervisor.Common.{ℕ, List, [], ◌∷◌}
use zpp_hypervisor.Maybe.{Maybe}
use zpp_hypervisor.Vmcs.{Vmcs, VmcsError, Accessor, read, write}
use zpp_hypervisor.Vmcs.Fields

abbrev pub guest_es_limit : Vmcs → Maybe VmcsError ℕ
guest_es_limit s = read Fields.guest_es_limit s

abbrev pub set_guest_es_limit : ℕ → Vmcs → VmcsError × Vmcs
set_guest_es_limit value s = write Fields.guest_es_limit value s

abbrev pub guest_cs_limit : Vmcs → Maybe VmcsError ℕ
guest_cs_limit s = read Fields.guest_cs_limit s

abbrev pub set_guest_cs_limit : ℕ → Vmcs → VmcsError × Vmcs
set_guest_cs_limit value s = write Fields.guest_cs_limit value s

abbrev pub guest_ss_limit : Vmcs → Maybe VmcsError ℕ
guest_ss_limit s = read Fields.guest_ss_limit s

abbrev pub set_guest_ss_limit : ℕ → Vmcs → VmcsError × Vmcs
set_guest_ss_limit value s = write Fields.guest_ss_limit value s

abbrev pub guest_ds_limit : Vmcs → Maybe VmcsError ℕ
guest_ds_limit s = read Fields.guest_ds_limit s

abbrev pub set_guest_ds_limit : ℕ → Vmcs → VmcsError × Vmcs
set_guest_ds_limit value s = write Fields.guest_ds_limit value s

abbrev pub guest_fs_limit : Vmcs → Maybe VmcsError ℕ
guest_fs_limit s = read Fields.guest_fs_limit s

abbrev pub set_guest_fs_limit : ℕ → Vmcs → VmcsError × Vmcs
set_guest_fs_limit value s = write Fields.guest_fs_limit value s

abbrev pub guest_gs_limit : Vmcs → Maybe VmcsError ℕ
guest_gs_limit s = read Fields.guest_gs_limit s

abbrev pub set_guest_gs_limit : ℕ → Vmcs → VmcsError × Vmcs
set_guest_gs_limit value s = write Fields.guest_gs_limit value s

abbrev pub guest_ldtr_limit : Vmcs → Maybe VmcsError ℕ
guest_ldtr_limit s = read Fields.guest_ldtr_limit s

abbrev pub set_guest_ldtr_limit : ℕ → Vmcs → VmcsError × Vmcs
set_guest_ldtr_limit value s = write Fields.guest_ldtr_limit value s

abbrev pub guest_tr_limit : Vmcs → Maybe VmcsError ℕ
guest_tr_limit s = read Fields.guest_tr_limit s

abbrev pub set_guest_tr_limit : ℕ → Vmcs → VmcsError × Vmcs
set_guest_tr_limit value s = write Fields.guest_tr_limit value s

abbrev pub guest_gdtr_limit : Vmcs → Maybe VmcsError ℕ
guest_gdtr_limit s = read Fields.guest_gdtr_limit s

abbrev pub set_guest_gdtr_limit : ℕ → Vmcs → VmcsError × Vmcs
set_guest_gdtr_limit value s = write Fields.guest_gdtr_limit value s

abbrev pub guest_idtr_limit : Vmcs → Maybe VmcsError ℕ
guest_idtr_limit s = read Fields.guest_idtr_limit s

abbrev pub set_guest_idtr_limit : ℕ → Vmcs → VmcsError × Vmcs
set_guest_idtr_limit value s = write Fields.guest_idtr_limit value s

abbrev pub guest_es_access_rights : Vmcs → Maybe VmcsError ℕ
guest_es_access_rights s = read Fields.guest_es_access_rights s

abbrev pub set_guest_es_access_rights : ℕ → Vmcs → VmcsError × Vmcs
set_guest_es_access_rights value s = write Fields.guest_es_access_rights value s

abbrev pub guest_cs_access_rights : Vmcs → Maybe VmcsError ℕ
guest_cs_access_rights s = read Fields.guest_cs_access_rights s

abbrev pub set_guest_cs_access_rights : ℕ → Vmcs → VmcsError × Vmcs
set_guest_cs_access_rights value s = write Fields.guest_cs_access_rights value s

abbrev pub guest_ss_access_rights : Vmcs → Maybe VmcsError ℕ
guest_ss_access_rights s = read Fields.guest_ss_access_rights s

abbrev pub set_guest_ss_access_rights : ℕ → Vmcs → VmcsError × Vmcs
set_guest_ss_access_rights value s = write Fields.guest_ss_access_rights value s

abbrev pub guest_ds_access_rights : Vmcs → Maybe VmcsError ℕ
guest_ds_access_rights s = read Fields.guest_ds_access_rights s

abbrev pub set_guest_ds_access_rights : ℕ → Vmcs → VmcsError × Vmcs
set_guest_ds_access_rights value s = write Fields.guest_ds_access_rights value s

abbrev pub guest_fs_access_rights : Vmcs → Maybe VmcsError ℕ
guest_fs_access_rights s = read Fields.guest_fs_access_rights s

abbrev pub set_guest_fs_access_rights : ℕ → Vmcs → VmcsError × Vmcs
set_guest_fs_access_rights value s = write Fields.guest_fs_access_rights value s

abbrev pub guest_gs_access_rights : Vmcs → Maybe VmcsError ℕ
guest_gs_access_rights s = read Fields.guest_gs_access_rights s

abbrev pub set_guest_gs_access_rights : ℕ → Vmcs → VmcsError × Vmcs
set_guest_gs_access_rights value s = write Fields.guest_gs_access_rights value s

abbrev pub guest_ldtr_access_rights : Vmcs → Maybe VmcsError ℕ
guest_ldtr_access_rights s = read Fields.guest_ldtr_access_rights s

abbrev pub set_guest_ldtr_access_rights : ℕ → Vmcs → VmcsError × Vmcs
set_guest_ldtr_access_rights value s = write Fields.guest_ldtr_access_rights value s

abbrev pub guest_tr_access_rights : Vmcs → Maybe VmcsError ℕ
guest_tr_access_rights s = read Fields.guest_tr_access_rights s

abbrev pub set_guest_tr_access_rights : ℕ → Vmcs → VmcsError × Vmcs
set_guest_tr_access_rights value s = write Fields.guest_tr_access_rights value s

abbrev pub guest_interruptibility_state : Vmcs → Maybe VmcsError ℕ
guest_interruptibility_state s = read Fields.guest_interruptibility_state s

abbrev pub set_guest_interruptibility_state : ℕ → Vmcs → VmcsError × Vmcs
set_guest_interruptibility_state value s = write Fields.guest_interruptibility_state value s

abbrev pub guest_activity_state : Vmcs → Maybe VmcsError ℕ
guest_activity_state s = read Fields.guest_activity_state s

abbrev pub set_guest_activity_state : ℕ → Vmcs → VmcsError × Vmcs
set_guest_activity_state value s = write Fields.guest_activity_state value s

abbrev pub guest_smbase : Vmcs → Maybe VmcsError ℕ
guest_smbase s = read Fields.guest_smbase s

abbrev pub set_guest_smbase : ℕ → Vmcs → VmcsError × Vmcs
set_guest_smbase value s = write Fields.guest_smbase value s

abbrev pub guest_ia32_sysenter_cs : Vmcs → Maybe VmcsError ℕ
guest_ia32_sysenter_cs s = read Fields.guest_ia32_sysenter_cs s

abbrev pub set_guest_ia32_sysenter_cs : ℕ → Vmcs → VmcsError × Vmcs
set_guest_ia32_sysenter_cs value s = write Fields.guest_ia32_sysenter_cs value s

abbrev pub vmx_preemption_timer_value : Vmcs → Maybe VmcsError ℕ
vmx_preemption_timer_value s = read Fields.vmx_preemption_timer_value s

abbrev pub set_vmx_preemption_timer_value : ℕ → Vmcs → VmcsError × Vmcs
set_vmx_preemption_timer_value value s = write Fields.vmx_preemption_timer_value value s

-- The pairs, in the order of the encodings.
abbrev pub accessors : List Accessor
accessors =
    record { field = Fields.guest_es_limit; get = guest_es_limit; set = set_guest_es_limit }
    ∷ record { field = Fields.guest_cs_limit; get = guest_cs_limit; set = set_guest_cs_limit }
    ∷ record { field = Fields.guest_ss_limit; get = guest_ss_limit; set = set_guest_ss_limit }
    ∷ record { field = Fields.guest_ds_limit; get = guest_ds_limit; set = set_guest_ds_limit }
    ∷ record { field = Fields.guest_fs_limit; get = guest_fs_limit; set = set_guest_fs_limit }
    ∷ record { field = Fields.guest_gs_limit; get = guest_gs_limit; set = set_guest_gs_limit }
    ∷ record { field = Fields.guest_ldtr_limit; get = guest_ldtr_limit; set = set_guest_ldtr_limit }
    ∷ record { field = Fields.guest_tr_limit; get = guest_tr_limit; set = set_guest_tr_limit }
    ∷ record { field = Fields.guest_gdtr_limit; get = guest_gdtr_limit; set = set_guest_gdtr_limit }
    ∷ record { field = Fields.guest_idtr_limit; get = guest_idtr_limit; set = set_guest_idtr_limit }
    ∷ record {
      field = Fields.guest_es_access_rights;
      get = guest_es_access_rights;
      set = set_guest_es_access_rights;
    }
    ∷ record {
      field = Fields.guest_cs_access_rights;
      get = guest_cs_access_rights;
      set = set_guest_cs_access_rights;
    }
    ∷ record {
      field = Fields.guest_ss_access_rights;
      get = guest_ss_access_rights;
      set = set_guest_ss_access_rights;
    }
    ∷ record {
      field = Fields.guest_ds_access_rights;
      get = guest_ds_access_rights;
      set = set_guest_ds_access_rights;
    }
    ∷ record {
      field = Fields.guest_fs_access_rights;
      get = guest_fs_access_rights;
      set = set_guest_fs_access_rights;
    }
    ∷ record {
      field = Fields.guest_gs_access_rights;
      get = guest_gs_access_rights;
      set = set_guest_gs_access_rights;
    }
    ∷ record {
      field = Fields.guest_ldtr_access_rights;
      get = guest_ldtr_access_rights;
      set = set_guest_ldtr_access_rights;
    }
    ∷ record {
      field = Fields.guest_tr_access_rights;
      get = guest_tr_access_rights;
      set = set_guest_tr_access_rights;
    }
    ∷ record {
      field = Fields.guest_interruptibility_state;
      get = guest_interruptibility_state;
      set = set_guest_interruptibility_state;
    }
    ∷ record {
      field = Fields.guest_activity_state;
      get = guest_activity_state;
      set = set_guest_activity_state;
    }
    ∷ record { field = Fields.guest_smbase; get = guest_smbase; set = set_guest_smbase }
    ∷ record {
      field = Fields.guest_ia32_sysenter_cs;
      get = guest_ia32_sysenter_cs;
      set = set_guest_ia32_sysenter_cs;
    }
    ∷ record {
      field = Fields.vmx_preemption_timer_value;
      get = vmx_preemption_timer_value;
      set = set_vmx_preemption_timer_value;
    }
    ∷ []
