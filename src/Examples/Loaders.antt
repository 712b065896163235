-- ===== src/Examples/Loaders.antt =====
-- A launch of two processors on their stacks, and a call on a processor of a Linux thread.
use zpp_hypervisor.Common.{
  ℕ, ◌+◌, ◌*◌, ◌%◌, ◌≤◌, ◌≡◌, ◌⊎◌, Bool, true, refl, List, [], ◌∷◌, some, get_elem?, ℤ, pos, negsuc,
  arith, ◌==◌,
}
use zpp_hypervisor.Context.{Context}
use zpp_hypervisor.ErrorCode.{ErrorCode, code}
use zpp_hypervisor.Launch.{Cpu, Answers, Steps, returned, main}
use zpp_hypervisor.Launch.Stacks.{
  Stacks, launch_each, launch_on_cpu_private_stack, stack_size, context_size,
}
use zpp_hypervisor.Launch.Stacks.Separate.{launch_each_lem}
use zpp_hypervisor.LinuxLoader.{Kernel, call_on_cpu}
use zpp_hypervisor.LinuxLoader.Affinity.{Documented, call_on_cpu_lem}

-- A caller at `rip`.
abbrev caller : ℕ → Context
caller rip = record {
  rax = 0;
  rbx = 0;
  rcx = 0;
  rdx = 0;
  rsp = 0x3000;
  rbp = 0;
  rsi = 0;
  rdi = 0;
  r8 = 0;
  r9 = 0;
  r10 = 0;
  r11 = 0;
  r12 = 0;
  r13 = 0;
  r14 = 0;
  r15 = 0;
  rip = rip;
  rflags = 2;
  xmm = λ i. 0;
  fxsave = λ i. 0;
  mxcsr = 0;
  cs = 0x10;
  ds = 0x18;
  es = 0x18;
  fs = 0;
  gs = 0;
  ss = 0x18;
}

abbrev callers : List Context
callers = caller 0x4000 ∷ caller 0x5000 ∷ []

abbrev stacks : Stacks
stacks = record { available_stack_index = 0; contexts = λ a. caller 0 }

launch_each_lem_example :
    (l : Context) × (get_elem? (launch_each 0x100000 0x70 0x80 callers stacks).0 1 ≡ some l)
    × (l.rip ≡ 0x80)
    × (l.rdi ≡ 0x70)
    × (0x100000 + stack_size * 1 ≤ l.rsp)
    × (l.rsp + 8 + context_size ≡ 0x100000 + stack_size * (1 + 1))
    × ((l.rsp + 8) % 16 ≡ 0)
    × ((a : Answers) (launches : Bool) (steps : Steps) (cpu cpu' : Cpu) (error : ErrorCode)
        → main a launches steps cpu ≡ returned error cpu'
        → launch_on_cpu_private_stack
            (main a launches steps cpu)
            l.rsi
            (launch_each 0x100000 0x70 0x80 callers stacks).1
          ≡ some (record (caller 0x5000) { rax = code error }))
launch_each_lem_example =
    launch_each_lem 0x100000 0x70 0x80 callers stacks 1 (caller 0x5000) refl (omega arith)
      (omega arith) refl refl

-- The state of the system is the mask of the thread.
abbrev kernel : Kernel (ℕ → Bool)
kernel = record {
  sched_getaffinity = λ mask. (pos 0, mask);
  sched_setaffinity = λ mask old. (pos 0, mask);
  cpumask_of = λ cpuid n. n == cpuid;
}

abbrev affinity : (ℕ → Bool) → ℕ → Bool
affinity mask = mask

documented : Documented kernel affinity
documented = record { get = λ s e. refl; set = λ mask s e. refl; keeps = λ mask s e. cc }

-- A function that succeeds.
abbrev function : (ℕ → Bool) → ℤ × (ℕ → Bool)
function mask = (pos 7, mask)

abbrev everywhere : ℕ → Bool
everywhere n = true

call_on_cpu_lem_example :
    (call_on_cpu kernel 2 function everywhere ≡ (negsuc 0, everywhere))
    ⊎ ((s : ℕ → Bool) × (affinity s ≡ kernel.cpumask_of 2)
        × (((call_on_cpu kernel 2 function everywhere).0 ≡ (function s).0)
              × (affinity (call_on_cpu kernel 2 function everywhere).1 ≡ everywhere)
            ⊎ (call_on_cpu kernel 2 function everywhere ≡ (negsuc 0, (function s).1))))
call_on_cpu_lem_example = call_on_cpu_lem kernel affinity 2 function everywhere documented
