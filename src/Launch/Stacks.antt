-- ===== src/Launch/Stacks.antt =====
-- hypervisor/src/hypervisor/hypervisor.cpp: `launch_on_cpu` and `launch_on_cpu_private_stack`. Each
-- processor starts `main` on a stack of its own, with a copy of its caller's context on top.
pub mod Separate
use zpp_hypervisor.Common.{ℕ, ◌+◌, ◌-◌, ◌*◌, List, [], ◌∷◌, Option, some, none, update}
use zpp_hypervisor.Word.{u64, sub64}
use zpp_hypervisor.Context.{Context}
use zpp_hypervisor.ErrorCode.{code}
use zpp_hypervisor.Launch.{Launched, returned, running, unlaunched}

-- `sizeof(stack)` of one processor, and `sizeof(x64::context)`.
abbrev pub stack_size : ℕ
stack_size = 512 * 1024

abbrev pub context_size : ℕ
context_size = 0x3a0

abbrev pub max_cpus : ℕ
max_cpus = 16

-- The index of the next stack, and the contexts in memory by their addresses.
pub record Stacks : Type 0 where
  pub available_stack_index : ℕ
  pub contexts : ℕ → Context

-- `stacks` and `this` are the addresses of the array of stacks and of the hypervisor, and
-- `private_stack` that of `launch_on_cpu_private_stack`. The result has the launch context.
unfoldable pub launch_on_cpu : ℕ → ℕ → ℕ → Context → Stacks → Context × Stacks
launch_on_cpu stacks this private_stack caller s =
    let stack = u64 (stacks + stack_size * s.available_stack_index) in
    let stack_top = sub64 (u64 (stack + stack_size)) context_size in
    (
      record caller { rip = private_stack; rsp = sub64 stack_top 8; rdi = this; rsi = stack_top },
      record {
        available_stack_index = s.available_stack_index + 1;
        contexts = update s.contexts stack_top caller;
      },
    )

-- The context that `launch_on_cpu_private_stack` restores, by how `main` ends: where it returns, it
-- has not written to the context, and where it does not, none is restored here.
unfoldable pub launch_on_cpu_private_stack : Launched → ℕ → Stacks → Option Context
launch_on_cpu_private_stack (returned error c) caller_context s =
    some (record (s.contexts caller_context) { rax = code error })
launch_on_cpu_private_stack (running c) caller_context s = none
launch_on_cpu_private_stack (unlaunched c) caller_context s = none

-- The launches of processors one after the other, with the launch contexts of all.
unfoldable pub launch_each : ℕ → ℕ → ℕ → List Context → Stacks → List Context × Stacks
launch_each stacks this private_stack [] s = ([], s)
launch_each stacks this private_stack (caller ∷ rest) s =
    let (launched, s') = launch_on_cpu stacks this private_stack caller s in
    let (later, s'') = launch_each stacks this private_stack rest s' in (launched ∷ later, s'')
