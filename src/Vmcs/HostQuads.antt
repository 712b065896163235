-- ===== src/Vmcs/HostQuads.antt =====
-- hypervisor/include/zpp/x64/intel/vmcs.h: the accessors of the host's state of 64 bits.
use zpp_hypervisor.Common.{ℕ, List, [], ◌∷◌}
use zpp_hypervisor.Maybe.{Maybe}
use zpp_hypervisor.Vmcs.{Vmcs, VmcsError, Accessor, read, write}
use zpp_hypervisor.Vmcs.Fields

abbrev pub host_ia32_pat : Vmcs → Maybe VmcsError ℕ
host_ia32_pat s = read Fields.host_ia32_pat s

abbrev pub set_host_ia32_pat : ℕ → Vmcs → VmcsError × Vmcs
set_host_ia32_pat value s = write Fields.host_ia32_pat value s

abbrev pub host_ia32_efer : Vmcs → Maybe VmcsError ℕ
host_ia32_efer s = read Fields.host_ia32_efer s

abbrev pub set_host_ia32_efer : ℕ → Vmcs → VmcsError × Vmcs
set_host_ia32_efer value s = write Fields.host_ia32_efer value s

abbrev pub host_ia32_perf_global_ctrl : Vmcs → Maybe VmcsError ℕ
host_ia32_perf_global_ctrl s = read Fields.host_ia32_perf_global_ctrl s

abbrev pub set_host_ia32_perf_global_ctrl : ℕ → Vmcs → VmcsError × Vmcs
set_host_ia32_perf_global_ctrl value s = write Fields.host_ia32_perf_global_ctrl value s

-- The pairs, in the order of the encodings.
abbrev pub accessors : List Accessor
accessors =
    record { field = Fields.host_ia32_pat; get = host_ia32_pat; set = set_host_ia32_pat }
    ∷ record { field = Fields.host_ia32_efer; get = host_ia32_efer; set = set_host_ia32_efer }
    ∷ record {
      field = Fields.host_ia32_perf_global_ctrl;
      get = host_ia32_perf_global_ctrl;
      set = set_host_ia32_perf_global_ctrl;
    }
    ∷ []
