-- ===== src/Vmcs/Fields/Information.antt =====
-- hypervisor/include/zpp/x64/intel/vmcs_fields.h: the encodings of the read-only fields that report a VM exit.
use zpp_hypervisor.Common.{ℕ}

abbrev pub guest_physical_address : ℕ
guest_physical_address = 0x2400

abbrev pub vm_instruction_error : ℕ
vm_instruction_error = 0x4400

abbrev pub exit_reason : ℕ
exit_reason = 0x4402

abbrev pub vm_exit_interruption_information : ℕ
vm_exit_interruption_information = 0x4404

abbrev pub vm_exit_interruption_error_code : ℕ
vm_exit_interruption_error_code = 0x4406

abbrev pub idt_vectoring_information_field : ℕ
idt_vectoring_information_field = 0x4408

abbrev pub idt_vectoring_error_code : ℕ
idt_vectoring_error_code = 0x440a

abbrev pub vm_exit_instruction_length : ℕ
vm_exit_instruction_length = 0x440c

abbrev pub vm_exit_instruction_information : ℕ
vm_exit_instruction_information = 0x440e
