-- ===== src/Vmcs/HostLongs.antt =====
-- hypervisor/include/zpp/x64/intel/vmcs.h: the accessors of the host's state of 32 bits.
use zpp_hypervisor.Common.{ℕ, List, [], ◌∷◌}
use zpp_hypervisor.Maybe.{Maybe}
use zpp_hypervisor.Vmcs.{Vmcs, VmcsError, Accessor, read, write}
use zpp_hypervisor.Vmcs.Fields

abbrev pub host_ia32_sysenter_cs : Vmcs → Maybe VmcsError ℕ
host_ia32_sysenter_cs s = read Fields.host_ia32_sysenter_cs s

abbrev pub set_host_ia32_sysenter_cs : ℕ → Vmcs → VmcsError × Vmcs
set_host_ia32_sysenter_cs value s = write Fields.host_ia32_sysenter_cs value s

-- The pairs, in the order of the encodings.
abbrev pub accessors : List Accessor
accessors =
    record {
      field = Fields.host_ia32_sysenter_cs;
      get = host_ia32_sysenter_cs;
      set = set_host_ia32_sysenter_cs;
    }
    ∷ []
