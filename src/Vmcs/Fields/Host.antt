-- ===== src/Vmcs/Fields/Host.antt =====
-- hypervisor/include/zpp/x64/intel/vmcs_fields.h: the encodings of the host's state.
use zpp_hypervisor.Common.{ℕ}

abbrev pub host_es_selector : ℕ
host_es_selector = 0xc00

abbrev pub host_cs_selector : ℕ
host_cs_selector = 0xc02

abbrev pub host_ss_selector : ℕ
host_ss_selector = 0xc04

abbrev pub host_ds_selector : ℕ
host_ds_selector = 0xc06

abbrev pub host_fs_selector : ℕ
host_fs_selector = 0xc08

abbrev pub host_gs_selector : ℕ
host_gs_selector = 0xc0a

abbrev pub host_tr_selector : ℕ
host_tr_selector = 0xc0c

abbrev pub host_ia32_pat : ℕ
host_ia32_pat = 0x2c00

abbrev pub host_ia32_efer : ℕ
host_ia32_efer = 0x2c02

abbrev pub host_ia32_perf_global_ctrl : ℕ
host_ia32_perf_global_ctrl = 0x2c04

abbrev pub host_ia32_sysenter_cs : ℕ
host_ia32_sysenter_cs = 0x4c00

abbrev pub host_cr0 : ℕ
host_cr0 = 0x6c00

abbrev pub host_cr3 : ℕ
host_cr3 = 0x6c02

abbrev pub host_cr4 : ℕ
host_cr4 = 0x6c04

abbrev pub host_fs_base : ℕ
host_fs_base = 0x6c06

abbrev pub host_gs_base : ℕ
host_gs_base = 0x6c08

abbrev pub host_tr_base : ℕ
host_tr_base = 0x6c0a

abbrev pub host_gdtr_base : ℕ
host_gdtr_base = 0x6c0c

abbrev pub host_idtr_base : ℕ
host_idtr_base = 0x6c0e

abbrev pub host_ia32_sysenter_esp : ℕ
host_ia32_sysenter_esp = 0x6c10

abbrev pub host_ia32_sysenter_eip : ℕ
host_ia32_sysenter_eip = 0x6c12

abbrev pub host_rsp : ℕ
host_rsp = 0x6c14

abbrev pub host_rip : ℕ
host_rip = 0x6c16
