-- ===== src/Vmcs/HostNaturals.antt =====
-- hypervisor/include/zpp/x64/intel/vmcs.h: the accessors of the host's state of natural width.
use zpp_hypervisor.Common.{ℕ, List, [], ◌∷◌}
use zpp_hypervisor.Maybe.{Maybe}
use zpp_hypervisor.Vmcs.{Vmcs, VmcsError, Accessor, read, write}
use zpp_hypervisor.Vmcs.Fields

abbrev pub host_cr0 : Vmcs → Maybe VmcsError ℕ
host_cr0 s = read Fields.host_cr0 s

abbrev pub set_host_cr0 : ℕ → Vmcs → VmcsError × Vmcs
set_host_cr0 value s = write Fields.host_cr0 value s

abbrev pub host_cr3 : Vmcs → Maybe VmcsError ℕ
host_cr3 s = read Fields.host_cr3 s

abbrev pub set_host_cr3 : ℕ → Vmcs → VmcsError × Vmcs
set_host_cr3 value s = write Fields.host_cr3 value s

abbrev pub host_cr4 : Vmcs → Maybe VmcsError ℕ
host_cr4 s = read Fields.host_cr4 s

abbrev pub set_host_cr4 : ℕ → Vmcs → VmcsError × Vmcs
set_host_cr4 value s = write Fields.host_cr4 value s

abbrev pub host_fs_base : Vmcs → Maybe VmcsError ℕ
host_fs_base s = read Fields.host_fs_base s

abbrev pub set_host_fs_base : ℕ → Vmcs → VmcsError × Vmcs
set_host_fs_base value s = write Fields.host_fs_base value s

abbrev pub host_gs_base : Vmcs → Maybe VmcsError ℕ
host_gs_base s = read Fields.host_gs_base s

abbrev pub set_host_gs_base : ℕ → Vmcs → VmcsError × Vmcs
set_host_gs_base value s = write Fields.host_gs_base value s

abbrev pub host_tr_base : Vmcs → Maybe VmcsError ℕ
host_tr_base s = read Fields.host_tr_base s

abbrev pub set_host_tr_base : ℕ → Vmcs → VmcsError × Vmcs
set_host_tr_base value s = write Fields.host_tr_base value s

abbrev pub host_gdtr_base : Vmcs → Maybe VmcsError ℕ
host_gdtr_base s = read Fields.host_gdtr_base s

abbrev pub set_host_gdtr_base : ℕ → Vmcs → VmcsError × Vmcs
set_host_gdtr_base value s = write Fields.host_gdtr_base value s

abbrev pub host_idtr_base : Vmcs → Maybe VmcsError ℕ
host_idtr_base s = read Fields.host_idtr_base s

abbrev pub set_host_idtr_base : ℕ → Vmcs → VmcsError × Vmcs
set_host_idtr_base value s = write Fields.host_idtr_base value s

abbrev pub host_ia32_sysenter_esp : Vmcs → Maybe VmcsError ℕ
host_ia32_sysenter_esp s = read Fields.host_ia32_sysenter_esp s

abbrev pub set_host_ia32_sysenter_esp : ℕ → Vmcs → VmcsError × Vmcs
set_host_ia32_sysenter_esp value s = write Fields.host_ia32_sysenter_esp value s

abbrev pub host_ia32_sysenter_eip : Vmcs → Maybe VmcsError ℕ
host_ia32_sysenter_eip s = read Fields.host_ia32_sysenter_eip s

abbrev pub set_host_ia32_sysenter_eip : ℕ → Vmcs → VmcsError × Vmcs
set_host_ia32_sysenter_eip value s = write Fields.host_ia32_sysenter_eip value s

abbrev pub host_rsp : Vmcs → Maybe VmcsError ℕ
host_rsp s = read Fields.host_rsp s

abbrev pub set_host_rsp : ℕ → Vmcs → VmcsError × Vmcs
set_host_rsp value s = write Fields.host_rsp value s

abbrev pub host_rip : Vmcs → Maybe VmcsError ℕ
host_rip s = read Fields.host_rip s

abbrev pub set_host_rip : ℕ → Vmcs → VmcsError × Vmcs
set_host_rip value s = write Fields.host_rip value s

-- The pairs, in the order of the encodings.
abbrev pub accessors : List Accessor
accessors =
    record { field = Fields.host_cr0; get = host_cr0; set = set_host_cr0 }
    ∷ record { field = Fields.host_cr3; get = host_cr3; set = set_host_cr3 }
    ∷ record { field = Fields.host_cr4; get = host_cr4; set = set_host_cr4 }
    ∷ record { field = Fields.host_fs_base; get = host_fs_base; set = set_host_fs_base }
    ∷ record { field = Fields.host_gs_base; get = host_gs_base; set = set_host_gs_base }
    ∷ record { field = Fields.host_tr_base; get = host_tr_base; set = set_host_tr_base }
    ∷ record { field = Fields.host_gdtr_base; get = host_gdtr_base; set = set_host_gdtr_base }
    ∷ record { field = Fields.host_idtr_base; get = host_idtr_base; set = set_host_idtr_base }
    ∷ record {
      field = Fields.host_ia32_sysenter_esp;
      get = host_ia32_sysenter_esp;
      set = set_host_ia32_sysenter_esp;
    }
    ∷ record {
      field = Fields.host_ia32_sysenter_eip;
      get = host_ia32_sysenter_eip;
      set = set_host_ia32_sysenter_eip;
    }
    ∷ record { field = Fields.host_rsp; get = host_rsp; set = set_host_rsp }
    ∷ record { field = Fields.host_rip; get = host_rip; set = set_host_rip }
    ∷ []
