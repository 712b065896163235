-- ===== src/Vmcs/Fields/Control.antt =====
-- hypervisor/include/zpp/x64/intel/vmcs_fields.h: the encodings of the control fields.
use zpp_hypervisor.Common.{ℕ}

abbrev pub vpid : ℕ
vpid = 0x0

abbrev pub posted_interrupt_notification_vector : ℕ
posted_interrupt_notification_vector = 0x2

abbrev pub eptp_index : ℕ
eptp_index = 0x4

abbrev pub io_bitmap_a : ℕ
io_bitmap_a = 0x2000

abbrev pub io_bitmap_b : ℕ
io_bitmap_b = 0x2002

abbrev pub msr_bitmap : ℕ
msr_bitmap = 0x2004

abbrev pub vm_exit_msr_store_address : ℕ
vm_exit_msr_store_address = 0x2006

abbrev pub vm_exit_msr_load_address : ℕ
vm_exit_msr_load_address = 0x2008

abbrev pub vm_entry_msr_load_address : ℕ
vm_entry_msr_load_address = 0x200a

abbrev pub excecutive_vmcs_pointer : ℕ
excecutive_vmcs_pointer = 0x200c

abbrev pub pml_address : ℕ
pml_address = 0x200e

abbrev pub tsc_offset : ℕ
tsc_offset = 0x2010

abbrev pub virtual_apic_address : ℕ
virtual_apic_address = 0x2012

abbrev pub apic_access_address : ℕ
apic_access_address = 0x2014

abbrev pub posted_interrupt_descriptor_address : ℕ
posted_interrupt_descriptor_address = 0x2016

abbrev pub vm_function_controls : ℕ
vm_function_controls = 0x2018

abbrev pub ept_pointer : ℕ
ept_pointer = 0x201a

abbrev pub eio_exit_bitmap_0 : ℕ
eio_exit_bitmap_0 = 0x201c

abbrev pub eio_exit_bitmap_1 : ℕ
eio_exit_bitmap_1 = 0x201e

abbrev pub eio_exit_bitmap_2 : ℕ
eio_exit_bitmap_2 = 0x2020

abbrev pub eio_exit_bitmap_3 : ℕ
eio_exit_bitmap_3 = 0x2022

abbrev pub eptp_list_address : ℕ
eptp_list_address = 0x2024

abbrev pub vmread_bitmap_address : ℕ
vmread_bitmap_address = 0x2026

abbrev pub vmwrite_bitmap_address : ℕ
vmwrite_bitmap_address = 0x2028

abbrev pub virtualization_exception_information_address : ℕ
virtualization_exception_information_address = 0x202a

abbrev pub xss_exiting_bitmap : ℕ
xss_exiting_bitmap = 0x202c

abbrev pub encls_exiting_bitmap : ℕ
encls_exiting_bitmap = 0x202e

abbrev pub sub_page_permission_table_pointer : ℕ
sub_page_permission_table_pointer = 0x2030

abbrev pub tsc_multiplier : ℕ
tsc_multiplier = 0x2032

abbrev pub pin_based_vm_execution_controls : ℕ
pin_based_vm_execution_controls = 0x4000

abbrev pub primary_processor_based_vm_execution_controls : ℕ
primary_processor_based_vm_execution_controls = 0x4002

abbrev pub exception_bitmap : ℕ
exception_bitmap = 0x4004

abbrev pub page_fault_error_code_mask : ℕ
page_fault_error_code_mask = 0x4006

abbrev pub page_fault_error_code_match : ℕ
page_fault_error_code_match = 0x4008

abbrev pub cr3_target_count : ℕ
cr3_target_count = 0x400a

abbrev pub vm_exit_controls : ℕ
vm_exit_controls = 0x400c

abbrev pub vm_exit_msr_store_count : ℕ
vm_exit_msr_store_count = 0x400e

abbrev pub vm_exit_msr_load_count : ℕ
vm_exit_msr_load_count = 0x4010

abbrev pub vm_entry_controls : ℕ
vm_entry_controls = 0x4012

abbrev pub vm_entry_msr_load_count : ℕ
vm_entry_msr_load_count = 0x4014

abbrev pub vm_entry_interruption_information_field : ℕ
vm_entry_interruption_information_field = 0x4016

abbrev pub vm_entry_exception_error_code : ℕ
vm_entry_exception_error_code = 0x4018

abbrev pub vm_entry_instruction_length : ℕ
vm_entry_instruction_length = 0x401a

abbrev pub trr_threshold : ℕ
trr_threshold = 0x401c

abbrev pub secondary_processor_based_vm_execution_controls : ℕ
secondary_processor_based_vm_execution_controls = 0x401e

abbrev pub ple_gap : ℕ
ple_gap = 0x4020

abbrev pub ple_window : ℕ
ple_window = 0x4022

abbrev pub cr0_guest_host_mask : ℕ
cr0_guest_host_mask = 0x6000

abbrev pub cr4_guest_host_mask : ℕ
cr4_guest_host_mask = 0x6002

abbrev pub cr0_read_shadow : ℕ
cr0_read_shadow = 0x6004

abbrev pub cr4_read_shadow : ℕ
cr4_read_shadow = 0x6006

abbrev pub cr3_target_value_0 : ℕ
cr3_target_value_0 = 0x6008

abbrev pub cr3_target_value_1 : ℕ
cr3_target_value_1 = 0x600a

abbrev pub cr3_target_value_2 : ℕ
cr3_target_value_2 = 0x600c

abbrev pub cr3_target_value_3 : ℕ
cr3_target_value_3 = 0x600e
