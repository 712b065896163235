-- ===== src/VmExit/Guest.antt =====
-- hypervisor/src/hypervisor/hypervisor.cpp: the guest and the handler in turns. The guest runs
-- until the processor takes a VM exit, and the handler resumes it. What the processor does at an
-- exit is given by what it may change.
use mathlib.Core.Bool.{true≢false}
use zpp_hypervisor.Common.{
  ℕ, ◌+◌, ◌/◌, ◌%◌, ◌^◌, Bool, true, false, ◌||◌, ◌==◌, ◌≡◌, refl, sym, ap, ◌∙◌, update, subst,
  Bool-cases, inl, inr, ==_iff,
}
use zpp_hypervisor.Vmcs.{Vmcs}
use zpp_hypervisor.Vmcs.Fields
use zpp_hypervisor.VmExit.{Machine, CpuidResult, handle, resumed, Outcome, returned, undefined}
use zpp_hypervisor.VmExit.Handler.{IsReady, resumes, resumes-vmcs, handle_lem}

-- Bits 10 and 11 of an encoding: the read-only fields are of kind 1 and the guest's state of kind 2.
-- Of the others the processor changes one, the valid bit of the interruption for the entry.
unfoldable pub is_guest_field : ℕ → Bool
is_guest_field n =
    n / 2 ^ 10 % 4 == 1
    || n / 2 ^ 10 % 4 == 2
    || n == Fields.vm_entry_interruption_information_field

-- Two states of a VMCS that differ in those fields only.
pub record Kept (s t : Vmcs) : Type 0 where
  pub is_current : t.is_current ≡ s.is_current
  pub readable : t.readable ≡ s.readable
  pub writable : t.writable ≡ s.writable
  pub fields : (n : ℕ) → is_guest_field n ≡ false → t.fields n ≡ s.fields n

-- From the guest to an exit: the registers and the guest's fields are any, and the processor has
-- loaded the host's cr4.
pub record Exits (m m' : Machine) : Type 0 where
  pub kept : Kept m.vmcs m'.vmcs
  pub cr4 : m'.cr4 ≡ m.vmcs.fields Fields.host_cr4
  pub xcr : m'.xcr ≡ m.xcr

pub data World : Type 0 where
  guest vmm : Machine → World

unfoldable pub machine : World → Machine
machine (guest m) = m
machine (vmm m) = m

module _ (cpuid : ℕ → ℕ → CpuidResult) (vmresume : ℕ) where
  pub data Step : World → World → Type 0 where
    exit : (m m' : Machine) → Exits m m' → Step (guest m) (vmm m')
    resume : (m m' : Machine) → handle cpuid vmresume m ≡ resumed m' → Step (vmm m) (guest m')

  pub data Reach (w : World) : World → Type 0 where
    here : Reach w w
    next : {u v : World} → Reach w u → Step u v → Reach w v

Kept-refl : (s : Vmcs) → Kept s s
Kept-refl s = record { is_current = refl; readable = refl; writable = refl; fields = λ n e. refl }

pub Kept-trans : (s t u : Vmcs) → Kept s t → Kept t u → Kept s u
Kept-trans s t u p q = record {
  is_current = q.is_current ∙ p.is_current;
  readable = q.readable ∙ p.readable;
  writable = q.writable ∙ p.writable;
  fields = λ n e. q.fields n e ∙ p.fields n e;
}

-- A field of the guest may change.
pub Kept-update :
    (s : Vmcs) (k v : ℕ)
    → is_guest_field k ≡ true
    → Kept s (record s { fields = update s.fields k v })
Kept-update s k v guests = record {
  is_current = refl;
  readable = refl;
  writable = refl;
  fields = λ n e. elim (Bool-cases (k == n)) [
    | inl same ↦ absurd (true≢false (sym guests ∙ ap is_guest_field ((==_iff k n).0 same) ∙ e))
    | inr other ↦ rw (other) refl
  ];
}

pub Kept-IsReady : (s t : Vmcs) → Kept s t → IsReady s → IsReady t
unfolding IsReady
Kept-IsReady s t k (current, vpid, reason, rip, len, writable) = (
  k.is_current ∙ current,
  ap (λ (f : ℕ → Bool). f Fields.vpid) k.readable ∙ vpid,
  ap (λ (f : ℕ → Bool). f Fields.exit_reason) k.readable ∙ reason,
  ap (λ (f : ℕ → Bool). f Fields.guest_rip) k.readable ∙ rip,
  ap (λ (f : ℕ → Bool). f Fields.vm_exit_instruction_length) k.readable ∙ len,
  ap (λ (f : ℕ → Bool). f Fields.guest_rip) k.writable ∙ writable,
)

module _ (cpuid : ℕ → ℕ → CpuidResult) (vmresume : ℕ) where
  resumes-Kept : (m : Machine) → Kept m.vmcs (resumes cpuid vmresume m).vmcs
  unfolding is_guest_field
  resumes-Kept m = rw (resumes-vmcs cpuid vmresume m) (
      Kept-update m.vmcs Fields.guest_rip
        ((m.vmcs.fields Fields.guest_rip + m.vmcs.fields Fields.vm_exit_instruction_length)
          % 2 ^ 64)
        refl)

  resumed-injective : (m m' : Machine) → resumed m ≡ resumed m' → m ≡ m'
  resumed-injective m m' e =
      ap (λ (o : Outcome). elim o [ resumed x ↦ x | returned x ↦ x | undefined ↦ m ]) e

  Step-Kept :
      {u v : World}
      → Step cpuid vmresume u v
      → IsReady (machine u).vmcs
      → Kept (machine u).vmcs (machine v).vmcs
  unfolding machine
  Step-Kept (exit m m' e) ready = e.kept
  Step-Kept (resume m m' e) ready =
      let same : resumes cpuid vmresume m ≡ m' =
        resumed-injective (resumes cpuid vmresume m) m'
          (sym (handle_lem cpuid vmresume m ready) ∙ e) in
      subst (λ x. Kept m.vmcs x.vmcs) same (resumes-Kept m)

  pub Reach-Kept :
      {w v : World}
      → Reach cpuid vmresume w v
      → IsReady (machine w).vmcs
      → Kept (machine w).vmcs (machine v).vmcs
  Reach-Kept {w = w} here ready = Kept-refl (machine w).vmcs
  Reach-Kept {w = w} {v = v} (next {u = u} r s) ready =
      let before = Reach-Kept r ready in
      Kept-trans (machine w).vmcs (machine u).vmcs (machine v).vmcs before
        (Step-Kept s (Kept-IsReady (machine w).vmcs (machine u).vmcs before ready))
