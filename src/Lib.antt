-- ===== src/Lib.antt =====
-- A model of zpp_hypervisor: a thin hypervisor for x64 that is loaded below a running operating
-- system, hides its own memory from it, and lets it run on as a guest.
--
-- The parts and how they work together. A loader puts the ELF image into memory and calls it on every
-- processor. `main` (hypervisor/src/hypervisor/hypervisor.cpp) reads the operating system's page table,
-- copies what it needs into a page table of its own, records where the module's pages are in physical
-- memory, fills the extended page tables so that the guest sees all memory as it is, takes the rights
-- to the module's pages away, turns VMX on, fills the VMCS and launches the guest. Each VM exit of the
-- guest comes back to a handler, which resumes it.
--
-- - Common, Word: shared helpers. Machine words are native numbers below 2 ^ 64; `u64` is the
--   wrap-around, and Word.Fields and Word.Bits say what masks and shifts do.
-- - Pte, Epte, EptPointer, MtrrCapabilities, MtrrVariableBase, MtrrVariableMask, VirtualAddress,
--   SegmentEntry, MemoryType: the classes with bit fields (hypervisor/include/zpp/x64/pte.h,
--   virtual_address.h, segment_descriptor.h, memory_type.h, intel/ept.h, intel/ept_pointer.h,
--   intel/mtrr.h). A getter keeps its name, its setter is `set_` and the name. Each has a child Forms,
--   with the calls as arithmetic, and a child Refine, with the record of fields.
-- - SegmentDescriptor: the whole descriptor, `initialize_host_gdt`, `initialize_intermediate_gdt`.
-- - PageTable: the host page table (x64/page_table.h, x64/detail/page_table.h,
--   hypervisor/src/x64/page_table.cpp). PageTable.Host is `initialize_host_page_table`.
-- - OsPageTable: the operating system's table (hypervisor/src/x64/os_page_table.cpp), against the
--   processor's own walk. Memory is a function from addresses to words.
-- - SmallMap: hypervisor/include/zpp/small_map.h. The storage is an array of the template's capacity.
-- - ModulePages: `initialize_module_physical_to_virtual`.
-- - ExtendedPaging: `initialize_mtrrs`, `initialize_ept`, `protect_module`, `unprotect_guest_memory`.
--   View and Initialize.Upper are the specification: what the guest sees of each page.
-- - VmxState: `adjust_msr`, `initialize_vmx_msrs`, `initialize_vmx`.
-- - ScopeGuard, Launch: scope_guard.h, and `main` and `enter_root_mode` as far as the registers of the
--   processor are concerned. Launch.Stacks is `launch_on_cpu`.
-- - Maybe, Context: maybe.h, and the registers of hypervisor/include/zpp/x64/context.h.
-- - Vmcs: the fields of hypervisor/include/zpp/x64/intel/vmcs_fields.h and the accessors of vmcs.h, in
--   one module for each kind and width. A getter keeps its name, its setter is `set_` and the name.
-- - SetupVmcs: `setup_vmcs` and what `vm_launch` writes. Table has the fields as a table of values;
--   Paging and State say what the processor makes of them.
-- - VmExit: the handler in `main`. Guest is the step relation of the guest and the handler, where the
--   processor may change the guest's fields and no others; Run is what holds in every reachable state.
-- - Crt: hypervisor/src/crt/crt.cpp, on a memory of bytes.
-- - ElfFile: hypervisor/include/zpp/elf_file.h. Structures reads the headers from bytes. The file and
--   the allocated memory are two functions from addresses to bytes, since `load` writes to the second.
--   RelocationTables is the dynamic table and the loops over the relocations.
--   ModuleRegion is `elf_image_base` and `initialize_module_region`.
-- - Loader: `zpp_load_elf` of loader/src/main.cpp. LinuxLoader: linux_loader/src/main.c.
-- - ErrorCode: the errors, and the outcomes of a step. A read or write outside an array, or through
--   the end of a map, is the outcome `fault`.
-- - Examples: the theorems on concrete inputs.
--
-- Bounds and fuel. Loops over ranges recurse on the number of rounds left. The binary search has the
-- map's size as fuel, which is more than the width of the interval; the loop over a mask of 40 bits
-- has 40 rounds, and `none` if they were not enough; the copy constructor's loop takes any number. The loops of `strlen`, of the search of the
-- dynamic table and of `elf_image_base` have no bound of their own: they take fuel, and one more round
-- than there are bytes, entries or pages before the end is enough.
--
-- Not modelled: the UEFI application and the Windows driver, which call the interfaces of their
-- systems, the assignments of `small_map`, which do not compile, the return of `main` after a VM
-- exit without a current VMCS, and the wrappers of single instructions in assembly. What the
-- processor answers, the memory that the operating system's table stands in, and the words that a
-- descriptor table is copied to, are parameters.
pub mod Common
pub mod Word
pub mod MemoryType
pub mod Pte
pub mod Epte
pub mod Crt
pub mod ElfFile
pub mod EptPointer
pub mod MtrrCapabilities
pub mod MtrrVariableBase
pub mod MtrrVariableMask
pub mod VirtualAddress
pub mod SegmentEntry
pub mod SegmentDescriptor
pub mod PageTable
pub mod OsPageTable
pub mod SetupVmcs
pub mod SmallMap
pub mod Context
pub mod ErrorCode
pub mod ExtendedPaging
pub mod ModulePages
pub mod ScopeGuard
pub mod VmExit
pub mod VmxState
pub mod Launch
pub mod LinuxLoader
pub mod Loader
pub mod Maybe
pub mod Vmcs
pub mod Examples
