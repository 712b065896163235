-- ===== src/Vmcs/GuestWords.antt =====
-- hypervisor/include/zpp/x64/intel/vmcs.h: the accessors of the guest's state of 16 bits.
use zpp_hypervisor.Common.{ℕ, List, [], ◌∷◌}
use zpp_hypervisor.Maybe.{Maybe}
use zpp_hypervisor.Vmcs.{Vmcs, VmcsError, Accessor, read, write}
use zpp_hypervisor.Vmcs.Fields

abbrev pub guest_es_selector : Vmcs → Maybe VmcsError ℕ
guest_es_selector s = read Fields.guest_es_selector s

abbrev pub set_guest_es_selector : ℕ → Vmcs → VmcsError × Vmcs
set_guest_es_selector value s = write Fields.guest_es_selector value s

abbrev pub guest_cs_selector : Vmcs → Maybe VmcsError ℕ
guest_cs_selector s = read Fields.guest_cs_selector s

abbrev pub set_guest_cs_selector : ℕ → Vmcs → VmcsError × Vmcs
set_guest_cs_selector value s = write Fields.guest_cs_selector value s

abbrev pub guest_ss_selector : Vmcs → Maybe VmcsError ℕ
guest_ss_selector s = read Fields.guest_ss_selector s

abbrev pub set_guest_ss_selector : ℕ → Vmcs → VmcsError × Vmcs
set_guest_ss_selector value s = write Fields.guest_ss_selector value s

abbrev pub guest_ds_selector : Vmcs → Maybe VmcsError ℕ
guest_ds_selector s = read Fields.guest_ds_selector s

abbrev pub set_guest_ds_selector : ℕ → Vmcs → VmcsError × Vmcs
set_guest_ds_selector value s = write Fields.guest_ds_selector value s

abbrev pub guest_fs_selector : Vmcs → Maybe VmcsError ℕ
guest_fs_selector s = read Fields.guest_fs_selector s

abbrev pub set_guest_fs_selector : ℕ → Vmcs → VmcsError × Vmcs
set_guest_fs_selector value s = write Fields.guest_fs_selector value s

abbrev pub guest_gs_selector : Vmcs → Maybe VmcsError ℕ
guest_gs_selector s = read Fields.guest_gs_selector s

abbrev pub set_guest_gs_selector : ℕ → Vmcs → VmcsError × Vmcs
set_guest_gs_selector value s = write Fields.guest_gs_selector value s

abbrev pub guest_ldtr_selector : Vmcs → Maybe VmcsError ℕ
guest_ldtr_selector s = read Fields.guest_ldtr_selector s

abbrev pub set_guest_ldtr_selector : ℕ → Vmcs → VmcsError × Vmcs
set_guest_ldtr_selector value s = write Fields.guest_ldtr_selector value s

abbrev pub guest_tr_selector : Vmcs → Maybe VmcsError ℕ
guest_tr_selector s = read Fields.guest_tr_selector s

abbrev pub set_guest_tr_selector : ℕ → Vmcs → VmcsError × Vmcs
set_guest_tr_selector value s = write Fields.guest_tr_selector value s

abbrev pub guest_interrupt_status : Vmcs → Maybe VmcsError ℕ
guest_interrupt_status s = read Fields.guest_interrupt_status s

abbrev pub set_guest_interrupt_status : ℕ → Vmcs → VmcsError × Vmcs
set_guest_interrupt_status value s = write Fields.guest_interrupt_status value s

abbrev pub pml_index : Vmcs → Maybe VmcsError ℕ
pml_index s = read Fields.pml_index s

abbrev pub set_pml_index : ℕ → Vmcs → VmcsError × Vmcs
set_pml_index value s = write Fields.pml_index value s

-- The pairs, in the order of the encodings.
abbrev pub accessors : List Accessor
accessors =
    record {
      field = Fields.guest_es_selector;
      get = guest_es_selector;
      set = set_guest_es_selector;
    }
    ∷ record {
      field = Fields.guest_cs_selector;
      get = guest_cs_selector;
      set = set_guest_cs_selector;
    }
    ∷ record {
      field = Fields.guest_ss_selector;
      get = guest_ss_selector;
      set = set_guest_ss_selector;
    }
    ∷ record {
      field = Fields.guest_ds_selector;
      get = guest_ds_selector;
      set = set_guest_ds_selector;
    }
    ∷ record {
      field = Fields.guest_fs_selector;
      get = guest_fs_selector;
      set = set_guest_fs_selector;
    }
    ∷ record {
      field = Fields.guest_gs_selector;
      get = guest_gs_selector;
      set = set_guest_gs_selector;
    }
    ∷ record {
      field = Fields.guest_ldtr_selector;
      get = guest_ldtr_selector;
      set = set_guest_ldtr_selector;
    }
    ∷ record {
      field = Fields.guest_tr_selector;
      get = guest_tr_selector;
      set = set_guest_tr_selector;
    }
    ∷ record {
      field = Fields.guest_interrupt_status;
      get = guest_interrupt_status;
      set = set_guest_interrupt_status;
    }
    ∷ record { field = Fields.pml_index; get = pml_index; set = set_pml_index }
    ∷ []
