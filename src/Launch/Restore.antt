-- ===== src/Launch/Restore.antt =====
-- hypervisor/src/hypervisor/hypervisor.cpp, `main`: the processor's registers on each of its ways
-- out.
use zpp_hypervisor.Common.{
  ℕ, Bool, true, false, List, [], ◌∷◌, ◌==◌, not, if◌then◌else◌, ◌≡◌, refl, sym,
}
use zpp_hypervisor.ScopeGuard.{ScopeGuard, guard, unwind}
use zpp_hypervisor.ErrorCode.{
  ErrorCode, is_success, code, success, vmxon_failed, vmclear_failed, vmptrld_failed,
}
use zpp_hypervisor.Launch.{
  Cpu, Answers, Steps, Registers, Launched, returned, running, unlaunched, enter_root_mode,
  initialize_registers, load_intermediate_gdt, load_os_gdt, set_interrupts, write_cr3,
}

-- The first error of a sequence of steps.
abbrev pub first_error : List ErrorCode → ErrorCode
first_error [] = success
first_error (success ∷ es) = first_error es
first_error (e ∷ es) = e

-- The steps of `enter_root_mode`, in their order.
abbrev pub root_errors : Answers → List ErrorCode
root_errors a =
    (if a.vmxon_fails then vmxon_failed else success)
    ∷ (if a.vmclear_fails then vmclear_failed else success)
    ∷ (if a.vmptrld_fails then vmptrld_failed else success)
    ∷ []

-- The steps of `main`: those on the hypervisor's memory are only made on the first processor.
abbrev pub main_errors : Answers → Steps → List ErrorCode
main_errors a s =
    if s.cpuid == 0 then s.module_map ∷ s.protection ∷ root_errors a else root_errors a

abbrev pub in_root : ℕ → ℕ → Cpu → Cpu
in_root host_cr0 host_cr4 c = record c { cr0 = host_cr0; cr4 = host_cr4; vmx = true }

-- `enter_root_mode` returns the first error, with the registers as they were; without an error it
-- returns `success` with the host's control registers and VMX on. It is entered with VMX off.
pub enter_root_mode_lem :
    (a : Answers) (host_cr0 host_cr4 : ℕ) (c : Cpu)
    → c.vmx ≡ false
    → enter_root_mode a host_cr0 host_cr4 c ≡ (
        if is_success (first_error (root_errors a))
        then (success, in_root host_cr0 host_cr4 c)
        else (first_error (root_errors a), c))
unfolding enter_root_mode is_success code unwind
enter_root_mode_lem a x y c off =
    let same : record c { vmx = false } ≡ c = λ i. record c { vmx = sym off i } in
    by a.vmxon_fails a.vmclear_fails a.vmptrld_fails same
  where
    by :
        (p q r : Bool)
        → record c { vmx = false } ≡ c
        → (let b : Answers = record { vmxon_fails = p; vmclear_fails = q; vmptrld_fails = r } in
            enter_root_mode b x y c ≡ (
              if is_success (first_error (root_errors b))
              then (success, in_root x y c)
              else (first_error (root_errors b), c)))
    by true q r same = refl
    by false true r same = λ i. (vmclear_failed, same i)
    by false false true same = λ i. (vmptrld_failed, same i)
    by false false false same = refl

-- The processor with the intermediate GDT and the host's page table.
abbrev in_host : Steps → Cpu → Cpu
in_host s start =
    let c = set_interrupts false start in
    write_cr3 s.host_cr3 (load_intermediate_gdt s (initialize_registers c) c)

-- How `main` ends, by its first error.
abbrev pub outcome : ErrorCode → Bool → Steps → Cpu → Launched
outcome e launches s start =
    if not (is_success e)
    then returned e (record start { interrupts = true })
    else if launches
    then running (in_root s.host_cr0 s.host_cr4 (in_host s start))
    else unlaunched (in_root s.host_cr0 s.host_cr4 (in_host s start))

module _ (a : Answers) (launches : Bool) (s : Steps) (start : Cpu) (off : start.vmx ≡ false) where
  abbrev registers : Registers
  registers = initialize_registers (set_interrupts false start)

  abbrev guards : List (ScopeGuard Cpu)
  guards =
      guard (write_cr3 registers.guest_cr3)
      ∷ guard (load_os_gdt s registers)
      ∷ guard (set_interrupts true)
      ∷ []
