-- ===== src/SetupVmcs/State.antt =====
-- hypervisor/src/hypervisor/hypervisor.cpp, `setup_vmcs` and `vm_launch`: the state that the guest
-- is launched with, and the one that a VM exit comes back to.
use zpp_hypervisor.Common.{ℕ, ◌%◌, ◌^◌, List, [], ◌∷◌, ◌≡◌, ap}
use zpp_hypervisor.Word.{◌&&&◌, ◌|||◌, ~◌}
use zpp_hypervisor.Context.{Context}
use zpp_hypervisor.Vmcs.{Vmcs}
use zpp_hypervisor.Vmcs.Fields
use zpp_hypervisor.SetupVmcs.{Hypervisor, launch_vmcs}
use zpp_hypervisor.SetupVmcs.Table.{rows, assigned, Accepts, launch_vmcs-assigned}

-- What the processor loads at the entry of the guest, and the control registers as the guest reads
-- them: a bit that its mask gives to the host comes from the shadow.
pub record GuestState : Type 0 where
  pub rip : ℕ
  pub rsp : ℕ
  pub rflags : ℕ
  pub cr0 : ℕ
  pub cr3 : ℕ
  pub cr4 : ℕ
  pub dr7 : ℕ
  pub debug_control : ℕ
  pub selectors : List ℕ
  pub gs_base : ℕ
  pub gdt_base : ℕ
  pub gdt_limit : ℕ
  pub idt_base : ℕ
  pub idt_limit : ℕ

abbrev pub seen : ℕ → ℕ → ℕ → ℕ
seen register mask shadow = (register &&& ~ mask) ||| (shadow &&& mask)

unfoldable pub guest_state : Vmcs → GuestState
guest_state s = record {
  rip = s.fields Fields.guest_rip;
  rsp = s.fields Fields.guest_rsp;
  rflags = s.fields Fields.guest_rflags;
  cr0 =
      seen (s.fields Fields.guest_cr0) (s.fields Fields.cr0_guest_host_mask)
        (s.fields Fields.cr0_read_shadow);
  cr3 = s.fields Fields.guest_cr3;
  cr4 =
      seen (s.fields Fields.guest_cr4) (s.fields Fields.cr4_guest_host_mask)
        (s.fields Fields.cr4_read_shadow);
  dr7 = s.fields Fields.guest_dr7;
  debug_control = s.fields Fields.guest_ia32_debugctl;
  selectors =
      s.fields Fields.guest_cs_selector
      ∷ s.fields Fields.guest_ds_selector
      ∷ s.fields Fields.guest_es_selector
      ∷ s.fields Fields.guest_fs_selector
      ∷ s.fields Fields.guest_gs_selector
      ∷ s.fields Fields.guest_ss_selector
      ∷ s.fields Fields.guest_tr_selector
      ∷ s.fields Fields.guest_ldtr_selector
      ∷ [];
  gs_base = s.fields Fields.guest_gs_base;
  gdt_base = s.fields Fields.guest_gdtr_base;
  gdt_limit = s.fields Fields.guest_gdtr_limit;
  idt_base = s.fields Fields.guest_idtr_base;
  idt_limit = s.fields Fields.guest_idtr_limit;
}

-- With a current VMCS that accepts the fields written, the state that the guest is launched in is
-- the caller's: its instruction and stack pointer, flags, page table, debug state, selectors, gs
-- base and descriptor tables; its cr0 and cr4 read as the host's, except for the bits that the
-- untouched guest/host masks select from the shadow.
pub guest_state-launch_vmcs :
    (vm_exit_entry host_rsp : ℕ) (h : Hypervisor) (c : Context) (s : Vmcs)
    → Accepts (rows vm_exit_entry host_rsp h c) s
    → guest_state (launch_vmcs vm_exit_entry host_rsp h c s) ≡ record {
      rip = c.rip % 2 ^ 64;
      rsp = c.rsp % 2 ^ 64;
      rflags = c.rflags % 2 ^ 64;
      cr0 = seen (h.host_cr0 % 2 ^ 64) (s.fields Fields.cr0_guest_host_mask) (h.guest_cr0 % 2 ^ 64);
      cr3 = h.guest_cr3 % 2 ^ 64;
      cr4 = seen (h.host_cr4 % 2 ^ 64) (s.fields Fields.cr4_guest_host_mask) (h.guest_cr4 % 2 ^ 64);
      dr7 = h.guest_dr7 % 2 ^ 64;
      debug_control = h.ia32_debug_control % 2 ^ 64;
      selectors =
          c.cs % 2 ^ 16
          ∷ c.ds % 2 ^ 16
          ∷ c.es % 2 ^ 16
          ∷ c.fs % 2 ^ 16
          ∷ c.gs % 2 ^ 16
          ∷ c.ss % 2 ^ 16
          ∷ h.guest_tr % 2 ^ 16
          ∷ h.guest_ldtr % 2 ^ 16
          ∷ [];
      gs_base = h.ia32_gs_base % 2 ^ 64;
      gdt_base = h.guest_gdt_pointer % 2 ^ 64;
      gdt_limit = h.guest_gdt_limit % 2 ^ 32;
      idt_base = h.idtr_base % 2 ^ 64;
      idt_limit = h.idtr_limit % 2 ^ 32;
    }
unfolding guest_state rows assigned
guest_state-launch_vmcs vm_exit_entry host_rsp h c s accepts =
    ap guest_state (launch_vmcs-assigned vm_exit_entry host_rsp h c s accepts)

-- What the processor loads at a VM exit.
pub record HostState : Type 0 where
  pub rip : ℕ
  pub rsp : ℕ
  pub cr0 : ℕ
  pub cr3 : ℕ
  pub cr4 : ℕ
  pub selectors : List ℕ
  pub fs_base : ℕ
  pub gs_base : ℕ
  pub tr_base : ℕ
  pub gdt_base : ℕ
  pub idt_base : ℕ

unfoldable pub host_state : Vmcs → HostState
host_state s = record {
  rip = s.fields Fields.host_rip;
  rsp = s.fields Fields.host_rsp;
  cr0 = s.fields Fields.host_cr0;
  cr3 = s.fields Fields.host_cr3;
  cr4 = s.fields Fields.host_cr4;
  selectors =
      s.fields Fields.host_cs_selector
      ∷ s.fields Fields.host_ds_selector
      ∷ s.fields Fields.host_es_selector
      ∷ s.fields Fields.host_fs_selector
      ∷ s.fields Fields.host_gs_selector
      ∷ s.fields Fields.host_ss_selector
      ∷ s.fields Fields.host_tr_selector
      ∷ [];
  fs_base = s.fields Fields.host_fs_base;
  gs_base = s.fields Fields.host_gs_base;
  tr_base = s.fields Fields.host_tr_base;
  gdt_base = s.fields Fields.host_gdtr_base;
  idt_base = s.fields Fields.host_idtr_base;
}

-- With a current VMCS that accepts the fields written, a VM exit loads the address of
-- vm_exit_entry, the stack for exits, the host's control registers, code and task selectors, null
-- data selectors, and the bases of the host's own tables.
pub host_state-launch_vmcs :
    (vm_exit_entry host_rsp : ℕ) (h : Hypervisor) (c : Context) (s : Vmcs)
    → Accepts (rows vm_exit_entry host_rsp h c) s
    → host_state (launch_vmcs vm_exit_entry host_rsp h c s) ≡ record {
      rip = vm_exit_entry % 2 ^ 64;
      rsp = host_rsp % 2 ^ 64;
      cr0 = h.host_cr0 % 2 ^ 64;
      cr3 = h.host_cr3 % 2 ^ 64;
      cr4 = h.host_cr4 % 2 ^ 64;
      selectors = h.host_cs % 2 ^ 16 ∷ 0 ∷ 0 ∷ 0 ∷ 0 ∷ 0 ∷ h.host_tr % 2 ^ 16 ∷ [];
      fs_base = h.fs_data % 2 ^ 64;
      gs_base = h.gs_data % 2 ^ 64;
      tr_base = h.host_tss % 2 ^ 64;
      gdt_base = h.host_gdt % 2 ^ 64;
      idt_base = h.host_idt % 2 ^ 64;
    }
unfolding host_state rows assigned
host_state-launch_vmcs vm_exit_entry host_rsp h c s accepts =
    ap host_state (launch_vmcs-assigned vm_exit_entry host_rsp h c s accepts)
