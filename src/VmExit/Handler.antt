-- ===== src/VmExit/Handler.antt =====
-- hypervisor/src/hypervisor/hypervisor.cpp: the handler of VM exits and the guest's instruction
-- pointer.
use zpp_hypervisor.Common.{
  ℕ, ◌+◌, ◌/◌, ◌%◌, ◌^◌, Bool, true, false, ◌==◌, if◌then◌else◌, ◌≡◌, refl, sym, ap, ◌∙◌, arith,
  update, subst, not,
}
use zpp_hypervisor.Word.{u64, ◌<<<◌, ◌&&&◌, ◌|||◌, truthy}
use zpp_hypervisor.Word.Fields.{bit_and_mask}
use zpp_hypervisor.Vmcs.{Vmcs, read}
use zpp_hypervisor.Vmcs.Accessors.{read-fields, write-fields}
use zpp_hypervisor.Vmcs.GuestNaturals.{set_guest_rip}
use zpp_hypervisor.Vmcs.Fields
use zpp_hypervisor.VmExit.{
  Machine, CpuidResult, handle, handle_cpuid, handle_xsetbv, dispatch, basic, advance, resumed,
  undefined, taking, returned, Outcome, reason_cpuid, reason_xsetbv, reason_invd, handle_invd,
  xsetbv,
}

-- The fields that the handler uses can be read, and the guest's instruction pointer be written.
unfoldable pub IsReady : Vmcs → Type 0
IsReady s =
    (s.is_current ≡ true)
    × (s.readable Fields.vpid ≡ true)
    × (s.readable Fields.exit_reason ≡ true)
    × (s.readable Fields.guest_rip ≡ true)
    × (s.readable Fields.vm_exit_instruction_length ≡ true)
    × (s.writable Fields.guest_rip ≡ true)

-- A machine that goes on in the guest at `rip` and the length of the instruction further.
abbrev resumed_at : ℕ → Vmcs → ℕ → Machine → Machine
resumed_at vmresume s rip m = record m {
  vmcs = record s {
    fields =
        update s.fields Fields.guest_rip
          ((rip + s.fields Fields.vm_exit_instruction_length) % 2 ^ 64);
  };
  context = record m.context { rip = vmresume };
}

-- The machine as the handler leaves it.
unfoldable pub resumes : (ℕ → ℕ → CpuidResult) → ℕ → Machine → Machine
resumes cpuid vmresume m =
    let s = m.vmcs in
    let rip = s.fields Fields.guest_rip in
    resumed_at vmresume s rip (
      dispatch cpuid (s.fields Fields.exit_reason % 256)
        (record m { context = record m.context { rip = rip } }))

if_both {ℓ} :
    {A : Type 0} (P : A → Type ℓ) (b : Bool) (x y : A) → P x → P y → P (if b then x else y)
if_both P true x y p q = p
if_both P false x y p q = q

-- The emulation of an instruction leaves the VMCS and the instruction pointer alone.
dispatch-keeps :
    (cpuid : ℕ → ℕ → CpuidResult) (reason : ℕ) (m : Machine)
    → ((dispatch cpuid reason m).vmcs ≡ m.vmcs)
      × ((dispatch cpuid reason m).context.rip ≡ m.context.rip)
unfolding dispatch handle_cpuid handle_xsetbv
dispatch-keeps cpuid reason m =
    if_both Same (reason == reason_cpuid) (handle_cpuid cpuid m)
      (if reason == reason_xsetbv
        then handle_xsetbv m
        else if reason == reason_invd
        then handle_invd m
        else m)
      (refl, refl)
      (if_both Same (reason == reason_xsetbv) (handle_xsetbv m)
        (if reason == reason_invd then handle_invd m else m)
        (if_both (λ x. Same (xsetbv m.context.rcx (m.context.rax ||| m.context.rdx <<< 32) x))
          (not (truthy (m.cr4 &&& 1 <<< 18))) (record m { cr4 = m.cr4 ||| 1 <<< 18 }) m (refl, refl)
          (refl, refl))
        (if_both Same (reason == reason_invd) (handle_invd m) m (refl, refl) (refl, refl)))
  where
    Same : Machine → Type 0
    Same x = (x.vmcs ≡ m.vmcs) × (x.context.rip ≡ m.context.rip)

advance_lem :
    (vmresume : ℕ) (m : Machine)
    → IsReady m.vmcs
    → advance vmresume m ≡ resumed (resumed_at vmresume m.vmcs m.context.rip m)
unfolding advance IsReady
advance_lem vmresume m (current, vpid, reason, rip, len, writable) =
    let n = m.vmcs.fields Fields.vm_exit_instruction_length in
    let whole : (m.context.rip + n) % 2 ^ 64 % 2 ^ 64 ≡ (m.context.rip + n) % 2 ^ 64 =
      omega arith in
    ap
      (taking undefined (λ n.
        let to = u64 (m.context.rip + n) in
        resumed (record m {
          vmcs = (set_guest_rip to m.vmcs).1;
          context = record m.context { rip = vmresume };
        })))
      (read-fields Fields.vm_exit_instruction_length m.vmcs current len)
    ∙ ap (λ s. resumed (record m { vmcs = s; context = record m.context { rip = vmresume } }))
        (write-fields Fields.guest_rip (u64 (m.context.rip + n)) m.vmcs current writable
          ∙ ap (λ v. record m.vmcs { fields = update m.vmcs.fields Fields.guest_rip v }) whole)

pub handle_lem :
    (cpuid : ℕ → ℕ → CpuidResult) (vmresume : ℕ) (m : Machine)
    → IsReady m.vmcs
    → handle cpuid vmresume m ≡ resumed (resumes cpuid vmresume m)
unfolding handle IsReady resumes basic
handle_lem cpuid vmresume m (current, vpid, reason, rip, len, writable) =
    let start = record m { context = record m.context { rip = m.vmcs.fields Fields.guest_rip } } in
    let s = m.vmcs in
    let number = s.fields Fields.exit_reason in
    let go : ℕ → Outcome = λ at.
      advance vmresume
        (dispatch cpuid (basic number) (record m { context = record m.context { rip = at } })) in
    let reasoned : ℕ → Outcome = λ r.
      taking undefined
        (λ at.
          advance vmresume
            (dispatch cpuid (basic r) (record m { context = record m.context { rip = at } })))
        (read Fields.guest_rip s) in
    let d = dispatch cpuid (number % 256) start in
    let (vmcs, at) = dispatch-keeps cpuid (number % 256) start in
    ap (taking undefined (λ v. taking (returned m) reasoned (read Fields.exit_reason s)))
      (read-fields Fields.vpid s current vpid)
    ∙ ap (taking (returned m) reasoned) (read-fields Fields.exit_reason s current reason)
    ∙ ap (taking undefined go) (read-fields Fields.guest_rip s current rip)
    ∙ ap (λ r. advance vmresume (dispatch cpuid r start))
        (bit_and_mask 8 (number / 1) ∙ omega arith)
    ∙ advance_lem vmresume d (subst IsReady (sym vmcs) (current, vpid, reason, rip, len, writable))
    ∙ ap (λ s. resumed (resumed_at vmresume s d.context.rip d)) vmcs
    ∙ ap (λ x. resumed (resumed_at vmresume m.vmcs x d)) at

pub resumes-vmcs :
    (cpuid : ℕ → ℕ → CpuidResult) (vmresume : ℕ) (m : Machine)
    → (let s = m.vmcs in
        (resumes cpuid vmresume m).vmcs ≡ record s {
          fields =
              update s.fields Fields.guest_rip
                ((s.fields Fields.guest_rip + s.fields Fields.vm_exit_instruction_length) % 2 ^ 64);
        })
unfolding resumes
resumes-vmcs cpuid vmresume m = refl
