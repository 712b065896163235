-- ===== src/Vmcs/ControlQuads.antt =====
-- hypervisor/include/zpp/x64/intel/vmcs.h: the accessors of the control fields of 64 bits.
use zpp_hypervisor.Common.{ℕ, List, [], ◌∷◌}
use zpp_hypervisor.Maybe.{Maybe}
use zpp_hypervisor.Vmcs.{Vmcs, VmcsError, Accessor, read, write}
use zpp_hypervisor.Vmcs.Fields

abbrev pub io_bitmap_a : Vmcs → Maybe VmcsError ℕ
io_bitmap_a s = read Fields.io_bitmap_a s

abbrev pub set_io_bitmap_a : ℕ → Vmcs → VmcsError × Vmcs
set_io_bitmap_a value s = write Fields.io_bitmap_a value s

abbrev pub io_bitmap_b : Vmcs → Maybe VmcsError ℕ
io_bitmap_b s = read Fields.io_bitmap_b s

abbrev pub set_io_bitmap_b : ℕ → Vmcs → VmcsError × Vmcs
set_io_bitmap_b value s = write Fields.io_bitmap_b value s

abbrev pub msr_bitmap : Vmcs → Maybe VmcsError ℕ
msr_bitmap s = read Fields.msr_bitmap s

abbrev pub set_msr_bitmap : ℕ → Vmcs → VmcsError × Vmcs
set_msr_bitmap value s = write Fields.msr_bitmap value s

abbrev pub vm_exit_msr_store_address : Vmcs → Maybe VmcsError ℕ
vm_exit_msr_store_address s = read Fields.vm_exit_msr_store_address s

abbrev pub set_vm_exit_msr_store_address : ℕ → Vmcs → VmcsError × Vmcs
set_vm_exit_msr_store_address value s = write Fields.vm_exit_msr_store_address value s

abbrev pub vm_exit_msr_load_address : Vmcs → Maybe VmcsError ℕ
vm_exit_msr_load_address s = read Fields.vm_exit_msr_load_address s

abbrev pub set_vm_exit_msr_load_address : ℕ → Vmcs → VmcsError × Vmcs
set_vm_exit_msr_load_address value s = write Fields.vm_exit_msr_load_address value s

abbrev pub vm_entry_msr_load_address : Vmcs → Maybe VmcsError ℕ
vm_entry_msr_load_address s = read Fields.vm_entry_msr_load_address s

abbrev pub set_vm_entry_msr_load_address : ℕ → Vmcs → VmcsError × Vmcs
set_vm_entry_msr_load_address value s = write Fields.vm_entry_msr_load_address value s

abbrev pub excecutive_vmcs_pointer : Vmcs → Maybe VmcsError ℕ
excecutive_vmcs_pointer s = read Fields.excecutive_vmcs_pointer s

abbrev pub set_excecutive_vmcs_pointer : ℕ → Vmcs → VmcsError × Vmcs
set_excecutive_vmcs_pointer value s = write Fields.excecutive_vmcs_pointer value s

abbrev pub pml_address : Vmcs → Maybe VmcsError ℕ
pml_address s = read Fields.pml_address s

abbrev pub set_pml_address : ℕ → Vmcs → VmcsError × Vmcs
set_pml_address value s = write Fields.pml_address value s

abbrev pub tsc_offset : Vmcs → Maybe VmcsError ℕ
tsc_offset s = read Fields.tsc_offset s

abbrev pub set_tsc_offset : ℕ → Vmcs → VmcsError × Vmcs
set_tsc_offset value s = write Fields.tsc_offset value s

abbrev pub virtual_apic_address : Vmcs → Maybe VmcsError ℕ
virtual_apic_address s = read Fields.virtual_apic_address s

abbrev pub set_virtual_apic_address : ℕ → Vmcs → VmcsError × Vmcs
set_virtual_apic_address value s = write Fields.virtual_apic_address value s

abbrev pub apic_access_address : Vmcs → Maybe VmcsError ℕ
apic_access_address s = read Fields.apic_access_address s

abbrev pub set_apic_access_address : ℕ → Vmcs → VmcsError × Vmcs
set_apic_access_address value s = write Fields.apic_access_address value s

abbrev pub posted_interrupt_descriptor_address : Vmcs → Maybe VmcsError ℕ
posted_interrupt_descriptor_address s = read Fields.posted_interrupt_descriptor_address s

abbrev pub set_posted_interrupt_descriptor_address : ℕ → Vmcs → VmcsError × Vmcs
set_posted_interrupt_descriptor_address value s =
    write Fields.posted_interrupt_descriptor_address value s

abbrev pub vm_function_controls : Vmcs → Maybe VmcsError ℕ
vm_function_controls s = read Fields.vm_function_controls s

abbrev pub set_vm_function_controls : ℕ → Vmcs → VmcsError × Vmcs
set_vm_function_controls value s = write Fields.vm_function_controls value s

abbrev pub ept_pointer : Vmcs → Maybe VmcsError ℕ
ept_pointer s = read Fields.ept_pointer s

abbrev pub set_ept_pointer : ℕ → Vmcs → VmcsError × Vmcs
set_ept_pointer value s = write Fields.ept_pointer value s

abbrev pub eio_exit_bitmap_0 : Vmcs → Maybe VmcsError ℕ
eio_exit_bitmap_0 s = read Fields.eio_exit_bitmap_0 s

abbrev pub set_eio_exit_bitmap_0 : ℕ → Vmcs → VmcsError × Vmcs
set_eio_exit_bitmap_0 value s = write Fields.eio_exit_bitmap_0 value s

abbrev pub eio_exit_bitmap_1 : Vmcs → Maybe VmcsError ℕ
eio_exit_bitmap_1 s = read Fields.eio_exit_bitmap_1 s

abbrev pub set_eio_exit_bitmap_1 : ℕ → Vmcs → VmcsError × Vmcs
set_eio_exit_bitmap_1 value s = write Fields.eio_exit_bitmap_1 value s

abbrev pub eio_exit_bitmap_2 : Vmcs → Maybe VmcsError ℕ
eio_exit_bitmap_2 s = read Fields.eio_exit_bitmap_2 s

abbrev pub set_eio_exit_bitmap_2 : ℕ → Vmcs → VmcsError × Vmcs
set_eio_exit_bitmap_2 value s = write Fields.eio_exit_bitmap_2 value s

abbrev pub eio_exit_bitmap_3 : Vmcs → Maybe VmcsError ℕ
eio_exit_bitmap_3 s = read Fields.eio_exit_bitmap_3 s

abbrev pub set_eio_exit_bitmap_3 : ℕ → Vmcs → VmcsError × Vmcs
set_eio_exit_bitmap_3 value s = write Fields.eio_exit_bitmap_3 value s

abbrev pub eptp_list_address : Vmcs → Maybe VmcsError ℕ
eptp_list_address s = read Fields.eptp_list_address s

abbrev pub set_eptp_list_address : ℕ → Vmcs → VmcsError × Vmcs
set_eptp_list_address value s = write Fields.eptp_list_address value s

abbrev pub vmread_bitmap_address : Vmcs → Maybe VmcsError ℕ
vmread_bitmap_address s = read Fields.vmread_bitmap_address s

abbrev pub set_vmread_bitmap_address : ℕ → Vmcs → VmcsError × Vmcs
set_vmread_bitmap_address value s = write Fields.vmread_bitmap_address value s

abbrev pub vmwrite_bitmap_address : Vmcs → Maybe VmcsError ℕ
vmwrite_bitmap_address s = read Fields.vmwrite_bitmap_address s

abbrev pub set_vmwrite_bitmap_address : ℕ → Vmcs → VmcsError × Vmcs
set_vmwrite_bitmap_address value s = write Fields.vmwrite_bitmap_address value s

abbrev pub virtualization_exception_information_address : Vmcs → Maybe VmcsError ℕ
virtualization_exception_information_address s =
    read Fields.virtualization_exception_information_address s

abbrev pub set_virtualization_exception_information_address : ℕ → Vmcs → VmcsError × Vmcs
set_virtualization_exception_information_address value s =
    write Fields.virtualization_exception_information_address value s

abbrev pub xss_exiting_bitmap : Vmcs → Maybe VmcsError ℕ
xss_exiting_bitmap s = read Fields.xss_exiting_bitmap s

abbrev pub set_xss_exiting_bitmap : ℕ → Vmcs → VmcsError × Vmcs
set_xss_exiting_bitmap value s = write Fields.xss_exiting_bitmap value s

abbrev pub encls_exiting_bitmap : Vmcs → Maybe VmcsError ℕ
encls_exiting_bitmap s = read Fields.encls_exiting_bitmap s

abbrev pub set_encls_exiting_bitmap : ℕ → Vmcs → VmcsError × Vmcs
set_encls_exiting_bitmap value s = write Fields.encls_exiting_bitmap value s

abbrev pub sub_page_permission_table_pointer : Vmcs → Maybe VmcsError ℕ
sub_page_permission_table_pointer s = read Fields.sub_page_permission_table_pointer s

abbrev pub set_sub_page_permission_table_pointer : ℕ → Vmcs → VmcsError × Vmcs
set_sub_page_permission_table_pointer value s =
    write Fields.sub_page_permission_table_pointer value s

abbrev pub tsc_multiplier : Vmcs → Maybe VmcsError ℕ
tsc_multiplier s = read Fields.tsc_multiplier s

abbrev pub set_tsc_multiplier : ℕ → Vmcs → VmcsError × Vmcs
set_tsc_multiplier value s = write Fields.tsc_multiplier value s

-- The pairs, in the order of the encodings.
abbrev pub accessors : List Accessor
accessors =
    record { field = Fields.io_bitmap_a; get = io_bitmap_a; set = set_io_bitmap_a }
    ∷ record { field = Fields.io_bitmap_b; get = io_bitmap_b; set = set_io_bitmap_b }
    ∷ record { field = Fields.msr_bitmap; get = msr_bitmap; set = set_msr_bitmap }
    ∷ record {
      field = Fields.vm_exit_msr_store_address;
      get = vm_exit_msr_store_address;
      set = set_vm_exit_msr_store_address;
    }
    ∷ record {
      field = Fields.vm_exit_msr_load_address;
      get = vm_exit_msr_load_address;
      set = set_vm_exit_msr_load_address;
    }
    ∷ record {
      field = Fields.vm_entry_msr_load_address;
      get = vm_entry_msr_load_address;
      set = set_vm_entry_msr_load_address;
    }
    ∷ record {
      field = Fields.excecutive_vmcs_pointer;
      get = excecutive_vmcs_pointer;
      set = set_excecutive_vmcs_pointer;
    }
    ∷ record { field = Fields.pml_address; get = pml_address; set = set_pml_address }
    ∷ record { field = Fields.tsc_offset; get = tsc_offset; set = set_tsc_offset }
    ∷ record {
      field = Fields.virtual_apic_address;
      get = virtual_apic_address;
      set = set_virtual_apic_address;
    }
    ∷ record {
      field = Fields.apic_access_address;
      get = apic_access_address;
      set = set_apic_access_address;
    }
    ∷ record {
      field = Fields.posted_interrupt_descriptor_address;
      get = posted_interrupt_descriptor_address;
      set = set_posted_interrupt_descriptor_address;
    }
    ∷ record {
      field = Fields.vm_function_controls;
      get = vm_function_controls;
      set = set_vm_function_controls;
    }
    ∷ record { field = Fields.ept_pointer; get = ept_pointer; set = set_ept_pointer }
    ∷ record {
      field = Fields.eio_exit_bitmap_0;
      get = eio_exit_bitmap_0;
      set = set_eio_exit_bitmap_0;
    }
    ∷ record {
      field = Fields.eio_exit_bitmap_1;
      get = eio_exit_bitmap_1;
      set = set_eio_exit_bitmap_1;
    }
    ∷ record {
      field = Fields.eio_exit_bitmap_2;
      get = eio_exit_bitmap_2;
      set = set_eio_exit_bitmap_2;
    }
    ∷ record {
      field = Fields.eio_exit_bitmap_3;
      get = eio_exit_bitmap_3;
      set = set_eio_exit_bitmap_3;
    }
    ∷ record {
      field = Fields.eptp_list_address;
      get = eptp_list_address;
      set = set_eptp_list_address;
    }
    ∷ record {
      field = Fields.vmread_bitmap_address;
      get = vmread_bitmap_address;
      set = set_vmread_bitmap_address;
    }
    ∷ record {
      field = Fields.vmwrite_bitmap_address;
      get = vmwrite_bitmap_address;
      set = set_vmwrite_bitmap_address;
    }
    ∷ record {
      field = Fields.virtualization_exception_information_address;
      get = virtualization_exception_information_address;
      set = set_virtualization_exception_information_address;
    }
    ∷ record {
      field = Fields.xss_exiting_bitmap;
      get = xss_exiting_bitmap;
      set = set_xss_exiting_bitmap;
    }
    ∷ record {
      field = Fields.encls_exiting_bitmap;
      get = encls_exiting_bitmap;
      set = set_encls_exiting_bitmap;
    }
    ∷ record {
      field = Fields.sub_page_permission_table_pointer;
      get = sub_page_permission_table_pointer;
      set = set_sub_page_permission_table_pointer;
    }
    ∷ record { field = Fields.tsc_multiplier; get = tsc_multiplier; set = set_tsc_multiplier }
    ∷ []
