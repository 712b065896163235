-- ===== src/Vmcs/ControlLongs.antt =====
-- hypervisor/include/zpp/x64/intel/vmcs.h: the accessors of the control fields of 32 bits.
use zpp_hypervisor.Common.{ℕ, List, [], ◌∷◌}
use zpp_hypervisor.Maybe.{Maybe}
use zpp_hypervisor.Vmcs.{Vmcs, VmcsError, Accessor, read, write}
use zpp_hypervisor.Vmcs.Fields

abbrev pub pin_based_vm_execution_controls : Vmcs → Maybe VmcsError ℕ
pin_based_vm_execution_controls s = read Fields.pin_based_vm_execution_controls s

abbrev pub set_pin_based_vm_execution_controls : ℕ → Vmcs → VmcsError × Vmcs
set_pin_based_vm_execution_controls value s = write Fields.pin_based_vm_execution_controls value s

abbrev pub primary_processor_based_vm_execution_controls : Vmcs → Maybe VmcsError ℕ
primary_processor_based_vm_execution_controls s =
    read Fields.primary_processor_based_vm_execution_controls s

abbrev pub set_primary_processor_based_vm_execution_controls : ℕ → Vmcs → VmcsError × Vmcs
set_primary_processor_based_vm_execution_controls value s =
    write Fields.primary_processor_based_vm_execution_controls value s

abbrev pub exception_bitmap : Vmcs → Maybe VmcsError ℕ
exception_bitmap s = read Fields.exception_bitmap s

abbrev pub set_exception_bitmap : ℕ → Vmcs → VmcsError × Vmcs
set_exception_bitmap value s = write Fields.exception_bitmap value s

abbrev pub page_fault_error_code_mask : Vmcs → Maybe VmcsError ℕ
page_fault_error_code_mask s = read Fields.page_fault_error_code_mask s

abbrev pub set_page_fault_error_code_mask : ℕ → Vmcs → VmcsError × Vmcs
set_page_fault_error_code_mask value s = write Fields.page_fault_error_code_mask value s

abbrev pub page_fault_error_code_match : Vmcs → Maybe VmcsError ℕ
page_fault_error_code_match s = read Fields.page_fault_error_code_match s

abbrev pub set_page_fault_error_code_match : ℕ → Vmcs → VmcsError × Vmcs
set_page_fault_error_code_match value s = write Fields.page_fault_error_code_match value s

abbrev pub cr3_target_count : Vmcs → Maybe VmcsError ℕ
cr3_target_count s = read Fields.cr3_target_count s

abbrev pub set_cr3_target_count : ℕ → Vmcs → VmcsError × Vmcs
set_cr3_target_count value s = write Fields.cr3_target_count value s

abbrev pub vm_exit_controls : Vmcs → Maybe VmcsError ℕ
vm_exit_controls s = read Fields.vm_exit_controls s

abbrev pub set_vm_exit_controls : ℕ → Vmcs → VmcsError × Vmcs
set_vm_exit_controls value s = write Fields.vm_exit_controls value s

abbrev pub vm_exit_msr_store_count : Vmcs → Maybe VmcsError ℕ
vm_exit_msr_store_count s = read Fields.vm_exit_msr_store_count s

abbrev pub set_vm_exit_msr_store_count : ℕ → Vmcs → VmcsError × Vmcs
set_vm_exit_msr_store_count value s = write Fields.vm_exit_msr_store_count value s

abbrev pub vm_exit_msr_load_count : Vmcs → Maybe VmcsError ℕ
vm_exit_msr_load_count s = read Fields.vm_exit_msr_load_count s

abbrev pub set_vm_exit_msr_load_count : ℕ → Vmcs → VmcsError × Vmcs
set_vm_exit_msr_load_count value s = write Fields.vm_exit_msr_load_count value s

abbrev pub vm_entry_controls : Vmcs → Maybe VmcsError ℕ
vm_entry_controls s = read Fields.vm_entry_controls s

abbrev pub set_vm_entry_controls : ℕ → Vmcs → VmcsError × Vmcs
set_vm_entry_controls value s = write Fields.vm_entry_controls value s

abbrev pub vm_entry_msr_load_count : Vmcs → Maybe VmcsError ℕ
vm_entry_msr_load_count s = read Fields.vm_entry_msr_load_count s

abbrev pub set_vm_entry_msr_load_count : ℕ → Vmcs → VmcsError × Vmcs
set_vm_entry_msr_load_count value s = write Fields.vm_entry_msr_load_count value s

abbrev pub vm_entry_interruption_information_field : Vmcs → Maybe VmcsError ℕ
vm_entry_interruption_information_field s = read Fields.vm_entry_interruption_information_field s

abbrev pub set_vm_entry_interruption_information_field : ℕ → Vmcs → VmcsError × Vmcs
set_vm_entry_interruption_information_field value s =
    write Fields.vm_entry_interruption_information_field value s

abbrev pub vm_entry_exception_error_code : Vmcs → Maybe VmcsError ℕ
vm_entry_exception_error_code s = read Fields.vm_entry_exception_error_code s

abbrev pub set_vm_entry_exception_error_code : ℕ → Vmcs → VmcsError × Vmcs
set_vm_entry_exception_error_code value s = write Fields.vm_entry_exception_error_code value s

abbrev pub vm_entry_instruction_length : Vmcs → Maybe VmcsError ℕ
vm_entry_instruction_length s = read Fields.vm_entry_instruction_length s

abbrev pub set_vm_entry_instruction_length : ℕ → Vmcs → VmcsError × Vmcs
set_vm_entry_instruction_length value s = write Fields.vm_entry_instruction_length value s

abbrev pub trr_threshold : Vmcs → Maybe VmcsError ℕ
trr_threshold s = read Fields.trr_threshold s

abbrev pub set_trr_threshold : ℕ → Vmcs → VmcsError × Vmcs
set_trr_threshold value s = write Fields.trr_threshold value s

abbrev pub secondary_processor_based_vm_execution_controls : Vmcs → Maybe VmcsError ℕ
secondary_processor_based_vm_execution_controls s =
    read Fields.secondary_processor_based_vm_execution_controls s

abbrev pub set_secondary_processor_based_vm_execution_controls : ℕ → Vmcs → VmcsError × Vmcs
set_secondary_processor_based_vm_execution_controls value s =
    write Fields.secondary_processor_based_vm_execution_controls value s

abbrev pub ple_gap : Vmcs → Maybe VmcsError ℕ
ple_gap s = read Fields.ple_gap s

abbrev pub set_ple_gap : ℕ → Vmcs → VmcsError × Vmcs
set_ple_gap value s = write Fields.ple_gap value s

abbrev pub ple_window : Vmcs → Maybe VmcsError ℕ
ple_window s = read Fields.ple_window s

abbrev pub set_ple_window : ℕ → Vmcs → VmcsError × Vmcs
set_ple_window value s = write Fields.ple_window value s

-- The pairs, in the order of the encodings.
abbrev pub accessors : List Accessor
accessors =
    record {
      field = Fields.pin_based_vm_execution_controls;
      get = pin_based_vm_execution_controls;
      set = set_pin_based_vm_execution_controls;
    }
    ∷ record {
      field = Fields.primary_processor_based_vm_execution_controls;
      get = primary_processor_based_vm_execution_controls;
      set = set_primary_processor_based_vm_execution_controls;
    }
    ∷ record { field = Fields.exception_bitmap; get = exception_bitmap; set = set_exception_bitmap }
    ∷ record {
      field = Fields.page_fault_error_code_mask;
      get = page_fault_error_code_mask;
      set = set_page_fault_error_code_mask;
    }
    ∷ record {
      field = Fields.page_fault_error_code_match;
      get = page_fault_error_code_match;
      set = set_page_fault_error_code_match;
    }
    ∷ record { field = Fields.cr3_target_count; get = cr3_target_count; set = set_cr3_target_count }
    ∷ record { field = Fields.vm_exit_controls; get = vm_exit_controls; set = set_vm_exit_controls }
    ∷ record {
      field = Fields.vm_exit_msr_store_count;
      get = vm_exit_msr_store_count;
      set = set_vm_exit_msr_store_count;
    }
    ∷ record {
      field = Fields.vm_exit_msr_load_count;
      get = vm_exit_msr_load_count;
      set = set_vm_exit_msr_load_count;
    }
    ∷ record {
      field = Fields.vm_entry_controls;
      get = vm_entry_controls;
      set = set_vm_entry_controls;
    }
    ∷ record {
      field = Fields.vm_entry_msr_load_count;
      get = vm_entry_msr_load_count;
      set = set_vm_entry_msr_load_count;
    }
    ∷ record {
      field = Fields.vm_entry_interruption_information_field;
      get = vm_entry_interruption_information_field;
      set = set_vm_entry_interruption_information_field;
    }
    ∷ record {
      field = Fields.vm_entry_exception_error_code;
      get = vm_entry_exception_error_code;
      set = set_vm_entry_exception_error_code;
    }
    ∷ record {
      field = Fields.vm_entry_instruction_length;
      get = vm_entry_instruction_length;
      set = set_vm_entry_instruction_length;
    }
    ∷ record { field = Fields.trr_threshold; get = trr_threshold; set = set_trr_threshold }
    ∷ record {
      field = Fields.secondary_processor_based_vm_execution_controls;
      get = secondary_processor_based_vm_execution_controls;
      set = set_secondary_processor_based_vm_execution_controls;
    }
    ∷ record { field = Fields.ple_gap; get = ple_gap; set = set_ple_gap }
    ∷ record { field = Fields.ple_window; get = ple_window; set = set_ple_window }
    ∷ []
