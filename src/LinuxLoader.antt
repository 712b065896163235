-- ===== src/LinuxLoader.antt =====
-- linux_loader/src/main.c: the loader as a Linux driver. The kernel's functions are parameters; `S` is
-- the state of the system.
pub mod Affinity
use zpp_hypervisor.Common.{
  ℕ, Bool, true, ◌==◌, not, if◌then◌else◌, ltb, ℤ, pos, negsuc, Option, some, none,
}
use zpp_hypervisor.Word.{truthy}

-- The functions that `zpp_init` looks up, for the current thread, and `cpumask_of`. A mask is a test
-- of the number of a processor.
pub record Kernel (S : Type 0) : Type 0 where
  pub sched_getaffinity : S → ℤ × (ℕ → Bool)
  pub sched_setaffinity : (ℕ → Bool) → S → ℤ × S
  pub cpumask_of : ℕ → ℕ → Bool

-- The conversion of `long` to bool.
abbrev pub failed : ℤ → Bool
failed (pos n) = truthy n
failed (negsuc n) = true

-- By the result of `num_online_cpus`.
abbrev pub number_of_cpus : ℤ → ℕ
number_of_cpus (pos n) = n
number_of_cpus (negsuc n) = 0

module _ {S : Type 0} (kernel : Kernel S) where
  -- The end of `call_on_cpu`, from the call of the function.
  unfoldable pub call_and_restore : (S → ℤ × S) → (ℕ → Bool) → S → ℤ × S
  call_and_restore function previous_mask s =
      let (result, s₁) = function s in
      let (error, s₂) = kernel.sched_setaffinity previous_mask s₁ in
      if failed error then (negsuc 0, s₂) else (result, s₂)

  -- `call_on_cpu`; `function` is the function applied to its context.
  unfoldable pub call_on_cpu : ℕ → (S → ℤ × S) → S → ℤ × S
  call_on_cpu cpuid function s =
      let (error, previous_mask) = kernel.sched_getaffinity s in
      let (error', s₁) = kernel.sched_setaffinity (kernel.cpumask_of cpuid) s in
      if failed error
      then (negsuc 0, s)
      else if failed error'
      then (negsuc 0, s₁)
      else call_and_restore function previous_mask s₁

-- `-EFAULT` and `-EPERM`.
abbrev pub efault : ℤ
efault = negsuc 13

abbrev pub eperm : ℤ
eperm = negsuc 0

-- The end of `zpp_init`, by the result of `zpp_load_elf`.
abbrev pub init_result : ℤ → ℤ
init_result result = if failed result then efault else eperm
