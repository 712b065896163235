-- ===== src/Vmcs/ControlNaturals.antt =====
-- hypervisor/include/zpp/x64/intel/vmcs.h: the accessors of the control fields of natural width.
use zpp_hypervisor.Common.{ℕ, List, [], ◌∷◌}
use zpp_hypervisor.Maybe.{Maybe}
use zpp_hypervisor.Vmcs.{Vmcs, VmcsError, Accessor, read, write}
use zpp_hypervisor.Vmcs.Fields

abbrev pub cr0_guest_host_mask : Vmcs → Maybe VmcsError ℕ
cr0_guest_host_mask s = read Fields.cr0_guest_host_mask s

abbrev pub set_cr0_guest_host_mask : ℕ → Vmcs → VmcsError × Vmcs
set_cr0_guest_host_mask value s = write Fields.cr0_guest_host_mask value s

abbrev pub cr4_guest_host_mask : Vmcs → Maybe VmcsError ℕ
cr4_guest_host_mask s = read Fields.cr4_guest_host_mask s

abbrev pub set_cr4_guest_host_mask : ℕ → Vmcs → VmcsError × Vmcs
set_cr4_guest_host_mask value s = write Fields.cr4_guest_host_mask value s

abbrev pub cr0_read_shadow : Vmcs → Maybe VmcsError ℕ
cr0_read_shadow s = read Fields.cr0_read_shadow s

abbrev pub set_cr0_read_shadow : ℕ → Vmcs → VmcsError × Vmcs
set_cr0_read_shadow value s = write Fields.cr0_read_shadow value s

abbrev pub cr4_read_shadow : Vmcs → Maybe VmcsError ℕ
cr4_read_shadow s = read Fields.cr4_read_shadow s

abbrev pub set_cr4_read_shadow : ℕ → Vmcs → VmcsError × Vmcs
set_cr4_read_shadow value s = write Fields.cr4_read_shadow value s

abbrev pub cr3_target_value_0 : Vmcs → Maybe VmcsError ℕ
cr3_target_value_0 s = read Fields.cr3_target_value_0 s

abbrev pub set_cr3_target_value_0 : ℕ → Vmcs → VmcsError × Vmcs
set_cr3_target_value_0 value s = write Fields.cr3_target_value_0 value s

abbrev pub cr3_target_value_1 : Vmcs → Maybe VmcsError ℕ
cr3_target_value_1 s = read Fields.cr3_target_value_1 s

abbrev pub set_cr3_target_value_1 : ℕ → Vmcs → VmcsError × Vmcs
set_cr3_target_value_1 value s = write Fields.cr3_target_value_1 value s

abbrev pub cr3_target_value_2 : Vmcs → Maybe VmcsError ℕ
cr3_target_value_2 s = read Fields.cr3_target_value_2 s

abbrev pub set_cr3_target_value_2 : ℕ → Vmcs → VmcsError × Vmcs
set_cr3_target_value_2 value s = write Fields.cr3_target_value_2 value s

abbrev pub cr3_target_value_3 : Vmcs → Maybe VmcsError ℕ
cr3_target_value_3 s = read Fields.cr3_target_value_3 s

abbrev pub set_cr3_target_value_3 : ℕ → Vmcs → VmcsError × Vmcs
set_cr3_target_value_3 value s = write Fields.cr3_target_value_3 value s

-- The pairs, in the order of the encodings.
abbrev pub accessors : List Accessor
accessors =
    record {
      field = Fields.cr0_guest_host_mask;
      get = cr0_guest_host_mask;
      set = set_cr0_guest_host_mask;
    }
    ∷ record {
      field = Fields.cr4_guest_host_mask;
      get = cr4_guest_host_mask;
      set = set_cr4_guest_host_mask;
    }
    ∷ record { field = Fields.cr0_read_shadow; get = cr0_read_shadow; set = set_cr0_read_shadow }
    ∷ record { field = Fields.cr4_read_shadow; get = cr4_read_shadow; set = set_cr4_read_shadow }
    ∷ record {
      field = Fields.cr3_target_value_0;
      get = cr3_target_value_0;
      set = set_cr3_target_value_0;
    }
    ∷ record {
      field = Fields.cr3_target_value_1;
      get = cr3_target_value_1;
      set = set_cr3_target_value_1;
    }
    ∷ record {
      field = Fields.cr3_target_value_2;
      get = cr3_target_value_2;
      set = set_cr3_target_value_2;
    }
    ∷ record {
      field = Fields.cr3_target_value_3;
      get = cr3_target_value_3;
      set = set_cr3_target_value_3;
    }
    ∷ []
