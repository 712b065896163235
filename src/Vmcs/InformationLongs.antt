-- ===== src/Vmcs/InformationLongs.antt =====
-- hypervisor/include/zpp/x64/intel/vmcs.h: the getters of 32 bits for what a VM exit reports.
use zpp_hypervisor.Common.{ℕ, List, [], ◌∷◌}
use zpp_hypervisor.Maybe.{Maybe}
use zpp_hypervisor.Vmcs.{Vmcs, VmcsError, Accessor, read, write}
use zpp_hypervisor.Vmcs.Fields

abbrev pub vm_instruction_error : Vmcs → Maybe VmcsError ℕ
vm_instruction_error s = read Fields.vm_instruction_error s

abbrev pub set_vm_instruction_error : ℕ → Vmcs → VmcsError × Vmcs
set_vm_instruction_error value s = write Fields.vm_instruction_error value s

abbrev pub exit_reason : Vmcs → Maybe VmcsError ℕ
exit_reason s = read Fields.exit_reason s

abbrev pub set_exit_reason : ℕ → Vmcs → VmcsError × Vmcs
set_exit_reason value s = write Fields.exit_reason value s

abbrev pub vm_exit_interruption_information : Vmcs → Maybe VmcsError ℕ
vm_exit_interruption_information s = read Fields.vm_exit_interruption_information s

abbrev pub set_vm_exit_interruption_information : ℕ → Vmcs → VmcsError × Vmcs
set_vm_exit_interruption_information value s = write Fields.vm_exit_interruption_information value s

abbrev pub vm_exit_interruption_error_code : Vmcs → Maybe VmcsError ℕ
vm_exit_interruption_error_code s = read Fields.vm_exit_interruption_error_code s

abbrev pub set_vm_exit_interruption_error_code : ℕ → Vmcs → VmcsError × Vmcs
set_vm_exit_interruption_error_code value s = write Fields.vm_exit_interruption_error_code value s

abbrev pub idt_vectoring_information_field : Vmcs → Maybe VmcsError ℕ
idt_vectoring_information_field s = read Fields.idt_vectoring_information_field s

abbrev pub set_idt_vectoring_information_field : ℕ → Vmcs → VmcsError × Vmcs
set_idt_vectoring_information_field value s = write Fields.idt_vectoring_information_field value s

abbrev pub idt_vectoring_error_code : Vmcs → Maybe VmcsError ℕ
idt_vectoring_error_code s = read Fields.idt_vectoring_error_code s

abbrev pub set_idt_vectoring_error_code : ℕ → Vmcs → VmcsError × Vmcs
set_idt_vectoring_error_code value s = write Fields.idt_vectoring_error_code value s

abbrev pub vm_exit_instruction_length : Vmcs → Maybe VmcsError ℕ
vm_exit_instruction_length s = read Fields.vm_exit_instruction_length s

abbrev pub set_vm_exit_instruction_length : ℕ → Vmcs → VmcsError × Vmcs
set_vm_exit_instruction_length value s = write Fields.vm_exit_instruction_length value s

abbrev pub vm_exit_instruction_information : Vmcs → Maybe VmcsError ℕ
vm_exit_instruction_information s = read Fields.vm_exit_instruction_information s

abbrev pub set_vm_exit_instruction_information : ℕ → Vmcs → VmcsError × Vmcs
set_vm_exit_instruction_information value s = write Fields.vm_exit_instruction_information value s

-- The pairs, in the order of the encodings.
abbrev pub accessors : List Accessor
accessors =
    record {
      field = Fields.vm_instruction_error;
      get = vm_instruction_error;
      set = set_vm_instruction_error;
    }
    ∷ record { field = Fields.exit_reason; get = exit_reason; set = set_exit_reason }
    ∷ record {
      field = Fields.vm_exit_interruption_information;
      get = vm_exit_interruption_information;
      set = set_vm_exit_interruption_information;
    }
    ∷ record {
      field = Fields.vm_exit_interruption_error_code;
      get = vm_exit_interruption_error_code;
      set = set_vm_exit_interruption_error_code;
    }
    ∷ record {
      field = Fields.idt_vectoring_information_field;
      get = idt_vectoring_information_field;
      set = set_idt_vectoring_information_field;
    }
    ∷ record {
      field = Fields.idt_vectoring_error_code;
      get = idt_vectoring_error_code;
      set = set_idt_vectoring_error_code;
    }
    ∷ record {
      field = Fields.vm_exit_instruction_length;
      get = vm_exit_instruction_length;
      set = set_vm_exit_instruction_length;
    }
    ∷ record {
      field = Fields.vm_exit_instruction_information;
      get = vm_exit_instruction_information;
      set = set_vm_exit_instruction_information;
    }
    ∷ []
