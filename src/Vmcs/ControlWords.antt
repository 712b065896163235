-- ===== src/Vmcs/ControlWords.antt =====
-- hypervisor/include/zpp/x64/intel/vmcs.h: the accessors of the control fields of 16 bits.
use zpp_hypervisor.Common.{ℕ, List, [], ◌∷◌}
use zpp_hypervisor.Maybe.{Maybe}
use zpp_hypervisor.Vmcs.{Vmcs, VmcsError, Accessor, read, write}
use zpp_hypervisor.Vmcs.Fields

abbrev pub vpid : Vmcs → Maybe VmcsError ℕ
vpid s = read Fields.vpid s

abbrev pub set_vpid : ℕ → Vmcs → VmcsError × Vmcs
set_vpid value s = write Fields.vpid value s

abbrev pub posted_interrupt_notification_vector : Vmcs → Maybe VmcsError ℕ
posted_interrupt_notification_vector s = read Fields.posted_interrupt_notification_vector s

abbrev pub set_posted_interrupt_notification_vector : ℕ → Vmcs → VmcsError × Vmcs
set_posted_interrupt_notification_vector value s =
    write Fields.posted_interrupt_notification_vector value s

abbrev pub eptp_index : Vmcs → Maybe VmcsError ℕ
eptp_index s = read Fields.eptp_index s

abbrev pub set_eptp_index : ℕ → Vmcs → VmcsError × Vmcs
set_eptp_index value s = write Fields.eptp_index value s

-- The pairs, in the order of the encodings.
abbrev pub accessors : List Accessor
accessors =
    record { field = Fields.vpid; get = vpid; set = set_vpid }
    ∷ record {
      field = Fields.posted_interrupt_notification_vector;
      get = posted_interrupt_notification_vector;
      set = set_posted_interrupt_notification_vector;
    }
    ∷ record { field = Fields.eptp_index; get = eptp_index; set = set_eptp_index }
    ∷ []
