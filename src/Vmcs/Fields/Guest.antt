-- ===== src/Vmcs/Fields/Guest.antt =====
-- hypervisor/include/zpp/x64/intel/vmcs_fields.h: the encodings of the guest's state.
use zpp_hypervisor.Common.{ℕ}

abbrev pub guest_es_selector : ℕ
guest_es_selector = 0x800

abbrev pub guest_cs_selector : ℕ
guest_cs_selector = 0x802

abbrev pub guest_ss_selector : ℕ
guest_ss_selector = 0x804

abbrev pub guest_ds_selector : ℕ
guest_ds_selector = 0x806

abbrev pub guest_fs_selector : ℕ
guest_fs_selector = 0x808

abbrev pub guest_gs_selector : ℕ
guest_gs_selector = 0x80a

abbrev pub guest_ldtr_selector : ℕ
guest_ldtr_selector = 0x80c

abbrev pub guest_tr_selector : ℕ
guest_tr_selector = 0x80e

abbrev pub guest_interrupt_status : ℕ
guest_interrupt_status = 0x810

abbrev pub pml_index : ℕ
pml_index = 0x812

abbrev pub vmcs_link_pointer : ℕ
vmcs_link_pointer = 0x2800

abbrev pub guest_ia32_debugctl : ℕ
guest_ia32_debugctl = 0x2802

abbrev pub guest_ia32_pat : ℕ
guest_ia32_pat = 0x2804

abbrev pub guest_ia32_efer : ℕ
guest_ia32_efer = 0x2806

abbrev pub guest_ia32_perf_global_ctrl : ℕ
guest_ia32_perf_global_ctrl = 0x2808

abbrev pub guest_pdpte_0 : ℕ
guest_pdpte_0 = 0x280a

abbrev pub guest_pdpte_1 : ℕ
guest_pdpte_1 = 0x280c

abbrev pub guest_pdpte_2 : ℕ
guest_pdpte_2 = 0x280e

abbrev pub guest_pdpte_3 : ℕ
guest_pdpte_3 = 0x2810

abbrev pub guest_ia32_bndcfgs : ℕ
guest_ia32_bndcfgs = 0x2812

abbrev pub guest_es_limit : ℕ
guest_es_limit = 0x4800

abbrev pub guest_cs_limit : ℕ
guest_cs_limit = 0x4802

abbrev pub guest_ss_limit : ℕ
guest_ss_limit = 0x4804

abbrev pub guest_ds_limit : ℕ
guest_ds_limit = 0x4806

abbrev pub guest_fs_limit : ℕ
guest_fs_limit = 0x4808

abbrev pub guest_gs_limit : ℕ
guest_gs_limit = 0x480a

abbrev pub guest_ldtr_limit : ℕ
guest_ldtr_limit = 0x480c

abbrev pub guest_tr_limit : ℕ
guest_tr_limit = 0x480e

abbrev pub guest_gdtr_limit : ℕ
guest_gdtr_limit = 0x4810

abbrev pub guest_idtr_limit : ℕ
guest_idtr_limit = 0x4812

abbrev pub guest_es_access_rights : ℕ
guest_es_access_rights = 0x4814

abbrev pub guest_cs_access_rights : ℕ
guest_cs_access_rights = 0x4816

abbrev pub guest_ss_access_rights : ℕ
guest_ss_access_rights = 0x4818

abbrev pub guest_ds_access_rights : ℕ
guest_ds_access_rights = 0x481a

abbrev pub guest_fs_access_rights : ℕ
guest_fs_access_rights = 0x481c

abbrev pub guest_gs_access_rights : ℕ
guest_gs_access_rights = 0x481e

abbrev pub guest_ldtr_access_rights : ℕ
guest_ldtr_access_rights = 0x4820

abbrev pub guest_tr_access_rights : ℕ
guest_tr_access_rights = 0x4822

abbrev pub guest_interruptibility_state : ℕ
guest_interruptibility_state = 0x4824

abbrev pub guest_activity_state : ℕ
guest_activity_state = 0x4826

abbrev pub guest_smbase : ℕ
guest_smbase = 0x4828

abbrev pub guest_ia32_sysenter_cs : ℕ
guest_ia32_sysenter_cs = 0x482a

abbrev pub vmx_preemption_timer_value : ℕ
vmx_preemption_timer_value = 0x482e

abbrev pub guest_cr0 : ℕ
guest_cr0 = 0x6800

abbrev pub guest_cr3 : ℕ
guest_cr3 = 0x6802

abbrev pub guest_cr4 : ℕ
guest_cr4 = 0x6804

abbrev pub guest_es_base : ℕ
guest_es_base = 0x6806

abbrev pub guest_cs_base : ℕ
guest_cs_base = 0x6808

abbrev pub guest_ss_base : ℕ
guest_ss_base = 0x680a

abbrev pub guest_ds_base : ℕ
guest_ds_base = 0x680c

abbrev pub guest_fs_base : ℕ
guest_fs_base = 0x680e

abbrev pub guest_gs_base : ℕ
guest_gs_base = 0x6810

abbrev pub guest_ldtr_base : ℕ
guest_ldtr_base = 0x6812

abbrev pub guest_tr_base : ℕ
guest_tr_base = 0x6814

abbrev pub guest_gdtr_base : ℕ
guest_gdtr_base = 0x6816

abbrev pub guest_idtr_base : ℕ
guest_idtr_base = 0x6818

abbrev pub guest_dr7 : ℕ
guest_dr7 = 0x681a

abbrev pub guest_rsp : ℕ
guest_rsp = 0x681c

abbrev pub guest_rip : ℕ
guest_rip = 0x681e

abbrev pub guest_rflags : ℕ
guest_rflags = 0x6820

abbrev pub guest_pending_debug_exceptions : ℕ
guest_pending_debug_exceptions = 0x6822

abbrev pub guest_ia32_sysenter_esp : ℕ
guest_ia32_sysenter_esp = 0x6824

abbrev pub guest_ia32_sysenter_eip : ℕ
guest_ia32_sysenter_eip = 0x6826
