-- ===== src/LinuxLoader/Affinity.antt =====
-- linux_loader/src/main.c, `call_on_cpu`: the processors that the thread may run on, before, during
-- and after a call.
use zpp_hypervisor.Common.{
  ℕ, Bool, true, false, ◌≡◌, ◌⊎◌, inl, inr, refl, ap, ◌∙◌, ℤ, negsuc, Bool-cases,
}
use zpp_hypervisor.LinuxLoader.{Kernel, failed, call_and_restore, call_on_cpu}

module _ {S : Type 0} (kernel : Kernel S) (affinity : S → ℕ → Bool) where
  -- What the kernel documents of its functions: the first gives the affinity of the thread, and the
  -- second sets it, or fails and changes nothing.
  pub record Documented : Type 0 where
    pub get :
        (s : S)
        → failed (kernel.sched_getaffinity s).0 ≡ false
        → (kernel.sched_getaffinity s).1 ≡ affinity s
    pub set :
        (mask : ℕ → Bool) (s : S)
        → failed (kernel.sched_setaffinity mask s).0 ≡ false
        → affinity (kernel.sched_setaffinity mask s).1 ≡ mask
    pub keeps :
        (mask : ℕ → Bool) (s : S)
        → failed (kernel.sched_setaffinity mask s).0 ≡ true
        → (kernel.sched_setaffinity mask s).1 ≡ s

  -- Given that the kernel's functions read and set the thread's affinity or fail without a change,
  -- call_on_cpu of the Linux driver either returns -1 and leaves the system as it is, or calls the
  -- function with the affinity of that processor and then returns its result with the thread's
  -- affinity as before, or -1 if that cannot be restored.
  pub call_on_cpu_lem :
      (cpuid : ℕ) (function : S → ℤ × S) (s : S)
      → Documented
      → (call_on_cpu kernel cpuid function s ≡ (negsuc 0, s))
        ⊎ ((s' : S) × (affinity s' ≡ kernel.cpumask_of cpuid)
            × (((call_on_cpu kernel cpuid function s).0 ≡ (function s').0)
                  × (affinity (call_on_cpu kernel cpuid function s).1 ≡ affinity s)
                ⊎ (call_on_cpu kernel cpuid function s ≡ (negsuc 0, (function s').1))))
  unfolding call_on_cpu call_and_restore
  call_on_cpu_lem cpuid function s d =
      let moved = kernel.sched_setaffinity (kernel.cpumask_of cpuid) s in
      elim (Bool-cases (failed (kernel.sched_getaffinity s).0)) [
        | inl e ↦ inl (rw (e) refl)
        | inr got ↦ elim (Bool-cases (failed moved.0)) [
          | inl e ↦
              inl (rw (got, e) (ap (λ x. (negsuc 0, x)) (d.keeps (kernel.cpumask_of cpuid) s e)))
          | inr set ↦
              (let back =
                  kernel.sched_setaffinity (kernel.sched_getaffinity s).1 (function moved.1).1 in
                inr (
                  moved.1,
                  d.set (kernel.cpumask_of cpuid) s set,
                  elim (Bool-cases (failed back.0)) [
                    | inl e ↦ inr (
                        rw (got, set, e)
                          (ap (λ x. (negsuc 0, x))
                            (d.keeps (kernel.sched_getaffinity s).1 (function moved.1).1 e)))
                    | inr restored ↦ inl (
                        rw (got, set, restored)
                          (
                            refl,
                            d.set (kernel.sched_getaffinity s).1 (function moved.1).1 restored
                                ∙ d.get s got,
                          ))
                  ],
                ))
        ]
      ]
