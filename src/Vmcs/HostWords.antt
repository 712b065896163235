-- ===== src/Vmcs/HostWords.antt =====
-- hypervisor/include/zpp/x64/intel/vmcs.h: the accessors of the host's state of 16 bits.
use zpp_hypervisor.Common.{ℕ, List, [], ◌∷◌}
use zpp_hypervisor.Maybe.{Maybe}
use zpp_hypervisor.Vmcs.{Vmcs, VmcsError, Accessor, read, write}
use zpp_hypervisor.Vmcs.Fields

abbrev pub host_es_selector : Vmcs → Maybe VmcsError ℕ
host_es_selector s = read Fields.host_es_selector s

abbrev pub set_host_es_selector : ℕ → Vmcs → VmcsError × Vmcs
set_host_es_selector value s = write Fields.host_es_selector value s

abbrev pub host_cs_selector : Vmcs → Maybe VmcsError ℕ
host_cs_selector s = read Fields.host_cs_selector s

abbrev pub set_host_cs_selector : ℕ → Vmcs → VmcsError × Vmcs
set_host_cs_selector value s = write Fields.host_cs_selector value s

abbrev pub host_ss_selector : Vmcs → Maybe VmcsError ℕ
host_ss_selector s = read Fields.host_ss_selector s

abbrev pub set_host_ss_selector : ℕ → Vmcs → VmcsError × Vmcs
set_host_ss_selector value s = write Fields.host_ss_selector value s

abbrev pub host_ds_selector : Vmcs → Maybe VmcsError ℕ
host_ds_selector s = read Fields.host_ds_selector s

abbrev pub set_host_ds_selector : ℕ → Vmcs → VmcsError × Vmcs
set_host_ds_selector value s = write Fields.host_ds_selector value s

abbrev pub host_fs_selector : Vmcs → Maybe VmcsError ℕ
host_fs_selector s = read Fields.host_fs_selector s

abbrev pub set_host_fs_selector : ℕ → Vmcs → VmcsError × Vmcs
set_host_fs_selector value s = write Fields.host_fs_selector value s

abbrev pub host_gs_selector : Vmcs → Maybe VmcsError ℕ
host_gs_selector s = read Fields.host_gs_selector s

abbrev pub set_host_gs_selector : ℕ → Vmcs → VmcsError × Vmcs
set_host_gs_selector value s = write Fields.host_gs_selector value s

abbrev pub host_tr_selector : Vmcs → Maybe VmcsError ℕ
host_tr_selector s = read Fields.host_tr_selector s

abbrev pub set_host_tr_selector : ℕ → Vmcs → VmcsError × Vmcs
set_host_tr_selector value s = write Fields.host_tr_selector value s

-- The pairs, in the order of the encodings.
abbrev pub accessors : List Accessor
accessors =
    record { field = Fields.host_es_selector; get = host_es_selector; set = set_host_es_selector }
    ∷ record { field = Fields.host_cs_selector; get = host_cs_selector; set = set_host_cs_selector }
    ∷ record { field = Fields.host_ss_selector; get = host_ss_selector; set = set_host_ss_selector }
    ∷ record { field = Fields.host_ds_selector; get = host_ds_selector; set = set_host_ds_selector }
    ∷ record { field = Fields.host_fs_selector; get = host_fs_selector; set = set_host_fs_selector }
    ∷ record { field = Fields.host_gs_selector; get = host_gs_selector; set = set_host_gs_selector }
    ∷ record { field = Fields.host_tr_selector; get = host_tr_selector; set = set_host_tr_selector }
    ∷ []
