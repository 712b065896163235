-- ===== src/Vmcs/GuestQuads.antt =====
-- hypervisor/include/zpp/x64/intel/vmcs.h: the accessors of the guest's state of 64 bits.
use zpp_hypervisor.Common.{ℕ, List, [], ◌∷◌}
use zpp_hypervisor.Maybe.{Maybe}
use zpp_hypervisor.Vmcs.{Vmcs, VmcsError, Accessor, read, write}
use zpp_hypervisor.Vmcs.Fields

abbrev pub vmcs_link_pointer : Vmcs → Maybe VmcsError ℕ
vmcs_link_pointer s = read Fields.vmcs_link_pointer s

abbrev pub set_vmcs_link_pointer : ℕ → Vmcs → VmcsError × Vmcs
set_vmcs_link_pointer value s = write Fields.vmcs_link_pointer value s

abbrev pub guest_ia32_debugctl : Vmcs → Maybe VmcsError ℕ
guest_ia32_debugctl s = read Fields.guest_ia32_debugctl s

abbrev pub set_guest_ia32_debugctl : ℕ → Vmcs → VmcsError × Vmcs
set_guest_ia32_debugctl value s = write Fields.guest_ia32_debugctl value s

abbrev pub guest_ia32_pat : Vmcs → Maybe VmcsError ℕ
guest_ia32_pat s = read Fields.guest_ia32_pat s

abbrev pub set_guest_ia32_pat : ℕ → Vmcs → VmcsError × Vmcs
set_guest_ia32_pat value s = write Fields.guest_ia32_pat value s

abbrev pub guest_ia32_efer : Vmcs → Maybe VmcsError ℕ
guest_ia32_efer s = read Fields.guest_ia32_efer s

abbrev pub set_guest_ia32_efer : ℕ → Vmcs → VmcsError × Vmcs
set_guest_ia32_efer value s = write Fields.guest_ia32_efer value s

abbrev pub guest_ia32_perf_global_ctrl : Vmcs → Maybe VmcsError ℕ
guest_ia32_perf_global_ctrl s = read Fields.guest_ia32_perf_global_ctrl s

abbrev pub set_guest_ia32_perf_global_ctrl : ℕ → Vmcs → VmcsError × Vmcs
set_guest_ia32_perf_global_ctrl value s = write Fields.guest_ia32_perf_global_ctrl value s

abbrev pub guest_pdpte_0 : Vmcs → Maybe VmcsError ℕ
guest_pdpte_0 s = read Fields.guest_pdpte_0 s

abbrev pub set_guest_pdpte_0 : ℕ → Vmcs → VmcsError × Vmcs
set_guest_pdpte_0 value s = write Fields.guest_pdpte_0 value s

abbrev pub guest_pdpte_1 : Vmcs → Maybe VmcsError ℕ
guest_pdpte_1 s = read Fields.guest_pdpte_1 s

abbrev pub set_guest_pdpte_1 : ℕ → Vmcs → VmcsError × Vmcs
set_guest_pdpte_1 value s = write Fields.guest_pdpte_1 value s

abbrev pub guest_pdpte_2 : Vmcs → Maybe VmcsError ℕ
guest_pdpte_2 s = read Fields.guest_pdpte_2 s

abbrev pub set_guest_pdpte_2 : ℕ → Vmcs → VmcsError × Vmcs
set_guest_pdpte_2 value s = write Fields.guest_pdpte_2 value s

abbrev pub guest_pdpte_3 : Vmcs → Maybe VmcsError ℕ
guest_pdpte_3 s = read Fields.guest_pdpte_3 s

abbrev pub set_guest_pdpte_3 : ℕ → Vmcs → VmcsError × Vmcs
set_guest_pdpte_3 value s = write Fields.guest_pdpte_3 value s

abbrev pub guest_ia32_bndcfgs : Vmcs → Maybe VmcsError ℕ
guest_ia32_bndcfgs s = read Fields.guest_ia32_bndcfgs s

abbrev pub set_guest_ia32_bndcfgs : ℕ → Vmcs → VmcsError × Vmcs
set_guest_ia32_bndcfgs value s = write Fields.guest_ia32_bndcfgs value s

-- The pairs, in the order of the encodings.
abbrev pub accessors : List Accessor
accessors =
    record {
      field = Fields.vmcs_link_pointer;
      get = vmcs_link_pointer;
      set = set_vmcs_link_pointer;
    }
    ∷ record {
      field = Fields.guest_ia32_debugctl;
      get = guest_ia32_debugctl;
      set = set_guest_ia32_debugctl;
    }
    ∷ record { field = Fields.guest_ia32_pat; get = guest_ia32_pat; set = set_guest_ia32_pat }
    ∷ record { field = Fields.guest_ia32_efer; get = guest_ia32_efer; set = set_guest_ia32_efer }
    ∷ record {
      field = Fields.guest_ia32_perf_global_ctrl;
      get = guest_ia32_perf_global_ctrl;
      set = set_guest_ia32_perf_global_ctrl;
    }
    ∷ record { field = Fields.guest_pdpte_0; get = guest_pdpte_0; set = set_guest_pdpte_0 }
    ∷ record { field = Fields.guest_pdpte_1; get = guest_pdpte_1; set = set_guest_pdpte_1 }
    ∷ record { field = Fields.guest_pdpte_2; get = guest_pdpte_2; set = set_guest_pdpte_2 }
    ∷ record { field = Fields.guest_pdpte_3; get = guest_pdpte_3; set = set_guest_pdpte_3 }
    ∷ record {
      field = Fields.guest_ia32_bndcfgs;
      get = guest_ia32_bndcfgs;
      set = set_guest_ia32_bndcfgs;
    }
    ∷ []
