-- ===== src/Vmcs/GuestNaturals.antt =====
-- hypervisor/include/zpp/x64/intel/vmcs.h: the accessors of the guest's state of natural width.
use zpp_hypervisor.Common.{ℕ, List, [], ◌∷◌}
use zpp_hypervisor.Maybe.{Maybe}
use zpp_hypervisor.Vmcs.{Vmcs, VmcsError, Accessor, read, write}
use zpp_hypervisor.Vmcs.Fields

abbrev pub guest_cr0 : Vmcs → Maybe VmcsError ℕ
guest_cr0 s = read Fields.guest_cr0 s

abbrev pub set_guest_cr0 : ℕ → Vmcs → VmcsError × Vmcs
set_guest_cr0 value s = write Fields.guest_cr0 value s

abbrev pub guest_cr3 : Vmcs → Maybe VmcsError ℕ
guest_cr3 s = read Fields.guest_cr3 s

abbrev pub set_guest_cr3 : ℕ → Vmcs → VmcsError × Vmcs
set_guest_cr3 value s = write Fields.guest_cr3 value s

abbrev pub guest_cr4 : Vmcs → Maybe VmcsError ℕ
guest_cr4 s = read Fields.guest_cr4 s

abbrev pub set_guest_cr4 : ℕ → Vmcs → VmcsError × Vmcs
set_guest_cr4 value s = write Fields.guest_cr4 value s

abbrev pub guest_es_base : Vmcs → Maybe VmcsError ℕ
guest_es_base s = read Fields.guest_es_base s

abbrev pub set_guest_es_base : ℕ → Vmcs → VmcsError × Vmcs
set_guest_es_base value s = write Fields.guest_es_base value s

abbrev pub guest_cs_base : Vmcs → Maybe VmcsError ℕ
guest_cs_base s = read Fields.guest_cs_base s

abbrev pub set_guest_cs_base : ℕ → Vmcs → VmcsError × Vmcs
set_guest_cs_base value s = write Fields.guest_cs_base value s

abbrev pub guest_ss_base : Vmcs → Maybe VmcsError ℕ
guest_ss_base s = read Fields.guest_ss_base s

abbrev pub set_guest_ss_base : ℕ → Vmcs → VmcsError × Vmcs
set_guest_ss_base value s = write Fields.guest_ss_base value s

abbrev pub guest_ds_base : Vmcs → Maybe VmcsError ℕ
guest_ds_base s = read Fields.guest_ds_base s

abbrev pub set_guest_ds_base : ℕ → Vmcs → VmcsError × Vmcs
set_guest_ds_base value s = write Fields.guest_ds_base value s

abbrev pub guest_fs_base : Vmcs → Maybe VmcsError ℕ
guest_fs_base s = read Fields.guest_fs_base s

abbrev pub set_guest_fs_base : ℕ → Vmcs → VmcsError × Vmcs
set_guest_fs_base value s = write Fields.guest_fs_base value s

abbrev pub guest_gs_base : Vmcs → Maybe VmcsError ℕ
guest_gs_base s = read Fields.guest_gs_base s

abbrev pub set_guest_gs_base : ℕ → Vmcs → VmcsError × Vmcs
set_guest_gs_base value s = write Fields.guest_gs_base value s

abbrev pub guest_ldtr_base : Vmcs → Maybe VmcsError ℕ
guest_ldtr_base s = read Fields.guest_ldtr_base s

abbrev pub set_guest_ldtr_base : ℕ → Vmcs → VmcsError × Vmcs
set_guest_ldtr_base value s = write Fields.guest_ldtr_base value s

abbrev pub guest_tr_base : Vmcs → Maybe VmcsError ℕ
guest_tr_base s = read Fields.guest_tr_base s

abbrev pub set_guest_tr_base : ℕ → Vmcs → VmcsError × Vmcs
set_guest_tr_base value s = write Fields.guest_tr_base value s

abbrev pub guest_gdtr_base : Vmcs → Maybe VmcsError ℕ
guest_gdtr_base s = read Fields.guest_gdtr_base s

abbrev pub set_guest_gdtr_base : ℕ → Vmcs → VmcsError × Vmcs
set_guest_gdtr_base value s = write Fields.guest_gdtr_base value s

abbrev pub guest_idtr_base : Vmcs → Maybe VmcsError ℕ
guest_idtr_base s = read Fields.guest_idtr_base s

abbrev pub set_guest_idtr_base : ℕ → Vmcs → VmcsError × Vmcs
set_guest_idtr_base value s = write Fields.guest_idtr_base value s

abbrev pub guest_dr7 : Vmcs → Maybe VmcsError ℕ
guest_dr7 s = read Fields.guest_dr7 s

abbrev pub set_guest_dr7 : ℕ → Vmcs → VmcsError × Vmcs
set_guest_dr7 value s = write Fields.guest_dr7 value s

abbrev pub guest_rsp : Vmcs → Maybe VmcsError ℕ
guest_rsp s = read Fields.guest_rsp s

abbrev pub set_guest_rsp : ℕ → Vmcs → VmcsError × Vmcs
set_guest_rsp value s = write Fields.guest_rsp value s

abbrev pub guest_rip : Vmcs → Maybe VmcsError ℕ
guest_rip s = read Fields.guest_rip s

abbrev pub set_guest_rip : ℕ → Vmcs → VmcsError × Vmcs
set_guest_rip value s = write Fields.guest_rip value s

abbrev pub guest_rflags : Vmcs → Maybe VmcsError ℕ
guest_rflags s = read Fields.guest_rflags s

abbrev pub set_guest_rflags : ℕ → Vmcs → VmcsError × Vmcs
set_guest_rflags value s = write Fields.guest_rflags value s

abbrev pub guest_pending_debug_exceptions : Vmcs → Maybe VmcsError ℕ
guest_pending_debug_exceptions s = read Fields.guest_pending_debug_exceptions s

abbrev pub set_guest_pending_debug_exceptions : ℕ → Vmcs → VmcsError × Vmcs
set_guest_pending_debug_exceptions value s = write Fields.guest_pending_debug_exceptions value s

abbrev pub guest_ia32_sysenter_esp : Vmcs → Maybe VmcsError ℕ
guest_ia32_sysenter_esp s = read Fields.guest_ia32_sysenter_esp s

abbrev pub set_guest_ia32_sysenter_esp : ℕ → Vmcs → VmcsError × Vmcs
set_guest_ia32_sysenter_esp value s = write Fields.guest_ia32_sysenter_esp value s

abbrev pub guest_ia32_sysenter_eip : Vmcs → Maybe VmcsError ℕ
guest_ia32_sysenter_eip s = read Fields.guest_ia32_sysenter_eip s

abbrev pub set_guest_ia32_sysenter_eip : ℕ → Vmcs → VmcsError × Vmcs
set_guest_ia32_sysenter_eip value s = write Fields.guest_ia32_sysenter_eip value s

-- The pairs, in the order of the encodings.
abbrev pub accessors : List Accessor
accessors =
    record { field = Fields.guest_cr0; get = guest_cr0; set = set_guest_cr0 }
    ∷ record { field = Fields.guest_cr3; get = guest_cr3; set = set_guest_cr3 }
    ∷ record { field = Fields.guest_cr4; get = guest_cr4; set = set_guest_cr4 }
    ∷ record { field = Fields.guest_es_base; get = guest_es_base; set = set_guest_es_base }
    ∷ record { field = Fields.guest_cs_base; get = guest_cs_base; set = set_guest_cs_base }
    ∷ record { field = Fields.guest_ss_base; get = guest_ss_base; set = set_guest_ss_base }
    ∷ record { field = Fields.guest_ds_base; get = guest_ds_base; set = set_guest_ds_base }
    ∷ record { field = Fields.guest_fs_base; get = guest_fs_base; set = set_guest_fs_base }
    ∷ record { field = Fields.guest_gs_base; get = guest_gs_base; set = set_guest_gs_base }
    ∷ record { field = Fields.guest_ldtr_base; get = guest_ldtr_base; set = set_guest_ldtr_base }
    ∷ record { field = Fields.guest_tr_base; get = guest_tr_base; set = set_guest_tr_base }
    ∷ record { field = Fields.guest_gdtr_base; get = guest_gdtr_base; set = set_guest_gdtr_base }
    ∷ record { field = Fields.guest_idtr_base; get = guest_idtr_base; set = set_guest_idtr_base }
    ∷ record { field = Fields.guest_dr7; get = guest_dr7; set = set_guest_dr7 }
    ∷ record { field = Fields.guest_rsp; get = guest_rsp; set = set_guest_rsp }
    ∷ record { field = Fields.guest_rip; get = guest_rip; set = set_guest_rip }
    ∷ record { field = Fields.guest_rflags; get = guest_rflags; set = set_guest_rflags }
    ∷ record {
      field = Fields.guest_pending_debug_exceptions;
      get = guest_pending_debug_exceptions;
      set = set_guest_pending_debug_exceptions;
    }
    ∷ record {
      field = Fields.guest_ia32_sysenter_esp;
      get = guest_ia32_sysenter_esp;
      set = set_guest_ia32_sysenter_esp;
    }
    ∷ record {
      field = Fields.guest_ia32_sysenter_eip;
      get = guest_ia32_sysenter_eip;
      set = set_guest_ia32_sysenter_eip;
    }
    ∷ []
