-- ===== src/ExtendedPaging/Isolation.antt =====
-- hypervisor/src/hypervisor/hypervisor.cpp: the guest's memory once `initialize_ept` and
-- `protect_module` have run.
use zpp_hypervisor.Common.{ℕ, ◌+◌, ◌*◌, ◌^◌, Bool, not}
use zpp_hypervisor.Epte
use zpp_hypervisor.ExtendedPaging.Entries.{all_rights}
use zpp_hypervisor.ExtendedPaging.View.{Leaf}
use zpp_hypervisor.ExtendedPaging.Mtrrs.{Mtrr}
use zpp_hypervisor.ExtendedPaging.Initialize.{type_at}

-- What the guest sees of a page: its own frame, with all rights unless it is hidden.
abbrev pub guest_page : (ℕ → Mtrr) → Bool → ℕ → ℕ → ℕ → Leaf
guest_page mtrrs hidden a b c = record {
  allowed = all_rights (not hidden);
  frame = (a * 512 + b) * 512 + c;
  memory_type = type_at mtrrs ((a * 512 + b) * 2 ^ 21);
}
