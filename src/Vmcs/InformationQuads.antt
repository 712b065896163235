-- ===== src/Vmcs/InformationQuads.antt =====
-- hypervisor/include/zpp/x64/intel/vmcs.h: the getters of 64 bits for what a VM exit reports.
use zpp_hypervisor.Common.{ℕ, List, [], ◌∷◌}
use zpp_hypervisor.Maybe.{Maybe}
use zpp_hypervisor.Vmcs.{Vmcs, VmcsError, Accessor, read, write}
use zpp_hypervisor.Vmcs.Fields

abbrev pub guest_physical_address : Vmcs → Maybe VmcsError ℕ
guest_physical_address s = read Fields.guest_physical_address s

abbrev pub set_guest_physical_address : ℕ → Vmcs → VmcsError × Vmcs
set_guest_physical_address value s = write Fields.guest_physical_address value s

-- The pairs, in the order of the encodings.
abbrev pub accessors : List Accessor
accessors =
    record {
      field = Fields.guest_physical_address;
      get = guest_physical_address;
      set = set_guest_physical_address;
    }
    ∷ []
