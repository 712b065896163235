-- ===== src/Launch/Stacks/Separate.antt =====
-- hypervisor/src/hypervisor/hypervisor.cpp: the stacks of several launches in turn, and the
-- contexts on top of them.
use zpp_hypervisor.Common.{
  ℕ, zero, suc, ◌+◌, ◌-◌, ◌*◌, ◌%◌, ◌^◌, ◌≤◌, ◌<◌, ◌≡◌, ◌≢◌, Bool, true, false, ◌==◌, if◌then◌else◌,
  List, [], ◌∷◌, length, get_elem?, Option, some, update, refl, sym, ap, ◌∙◌, arith, ==_ne, ==_iff,
  some-injective,
}
use zpp_hypervisor.Word.{u64, sub64}
use zpp_hypervisor.Context.{Context}
use zpp_hypervisor.ErrorCode.{ErrorCode, code}
use zpp_hypervisor.Launch.{Cpu, Answers, Steps, returned, main}
use zpp_hypervisor.Launch.Stacks.{
  Stacks, launch_on_cpu, launch_on_cpu_private_stack, launch_each, stack_size, context_size,
  max_cpus,
}

-- The top of the stack of index `i`, below its context.
abbrev pub top : ℕ → ℕ → ℕ
top stacks i = stacks + stack_size * (i + 1) - context_size

none≢some : {A : Type 0} {a : A} → Option.none ≢ some a
none≢some e = cc

self : (n : ℕ) → (n == n) ≡ true
self n = (==_iff n n).1 refl

module _ (stacks this private_stack : ℕ) where
  top_lem :
      (i : ℕ)
      → i < max_cpus
      → stacks + stack_size * max_cpus < 2 ^ 64
      → sub64 (u64 (u64 (stacks + stack_size * i) + stack_size)) context_size ≡ top stacks i
  top_lem i f room = omega (arith, f, room)

  launched : ℕ → Context → Context
  launched i caller = record caller {
    rip = private_stack;
    rsp = top stacks i - 8;
    rdi = this;
    rsi = top stacks i;
  }

  launch_on_cpu_lem :
      (caller : Context) (s : Stacks)
      → s.available_stack_index < max_cpus
      → stacks + stack_size * max_cpus < 2 ^ 64
      → launch_on_cpu stacks this private_stack caller s ≡ (
        launched s.available_stack_index caller,
        record {
          available_stack_index = s.available_stack_index + 1;
          contexts = update s.contexts (top stacks s.available_stack_index) caller;
        },
      )
  unfolding launch_on_cpu launched
  launch_on_cpu_lem caller s f room =
      let up = top_lem s.available_stack_index f room in
      let down : sub64 (top stacks s.available_stack_index) 8
          ≡ top stacks s.available_stack_index - 8 =
        omega (arith, f, room) in
      rw (up, down) refl

  -- The state behind one launch.
  after : Context → Stacks → Stacks
  after caller s = record {
    available_stack_index = s.available_stack_index + 1;
    contexts = update s.contexts (top stacks s.available_stack_index) caller;
  }

  launch_each-step :
      (caller : Context) (rest : List Context) (s : Stacks)
      → s.available_stack_index < max_cpus
      → stacks + stack_size * max_cpus < 2 ^ 64
      → launch_each stacks this private_stack (caller ∷ rest) s ≡ (
        launched s.available_stack_index caller
            ∷ (launch_each stacks this private_stack rest (after caller s)).0,
        (launch_each stacks this private_stack rest (after caller s)).1,
      )
  unfolding launch_each after
  launch_each-step caller rest s f room =
      ap
        (λ (r : Context × Stacks). (
          r.0 ∷ (launch_each stacks this private_stack rest r.1).0,
          (launch_each stacks this private_stack rest r.1).1,
        ))
        (launch_on_cpu_lem caller s f room)

  launch_each-keeps :
      (callers : List Context) (s : Stacks) (a : ℕ)
      → s.available_stack_index + length callers ≤ max_cpus
      → stacks + stack_size * max_cpus < 2 ^ 64
      → a < top stacks s.available_stack_index
      → (launch_each stacks this private_stack callers s).1.contexts a ≡ s.contexts a
  unfolding launch_each after
  launch_each-keeps [] s a f room low = refl
  launch_each-keeps (caller ∷ rest) s a f room low =
      let other : (top stacks s.available_stack_index == a) ≡ false =
        ==_ne (top stacks s.available_stack_index) a (λ e. omega (arith, e, low)) in
      ap (λ (r : List Context × Stacks). r.1.contexts a)
        (launch_each-step caller rest s (omega (arith, f)) room)
      ∙ launch_each-keeps rest (after caller s) a (omega (arith, f)) room (omega (arith, low))
      ∙ ap (λ b. if b then caller else s.contexts a) other

  launch_each-get_elem? :
      (callers : List Context) (s : Stacks) (j : ℕ) (c : Context)
      → s.available_stack_index + length callers ≤ max_cpus
      → stacks + stack_size * max_cpus < 2 ^ 64
      → get_elem? callers j ≡ some c
      → (get_elem? (launch_each stacks this private_stack callers s).0 j
          ≡ some (launched (s.available_stack_index + j) c))
        × ((launch_each stacks this private_stack callers s).1.contexts
              (top stacks (s.available_stack_index + j))
            ≡ c)
  unfolding after
  launch_each-get_elem? [] s j c f room e = absurd (none≢some e)
  launch_each-get_elem? (caller ∷ rest) s zero c f room e =
      let same : caller ≡ c = some-injective e in
      let at : s.available_stack_index + 0 ≡ s.available_stack_index = omega arith in
      let step = launch_each-step caller rest s (omega (arith, f)) room in
      (
        ap (λ (r : List Context × Stacks). get_elem? r.0 0) step
            ∙ ap (λ x. some (launched s.available_stack_index x)) same
            ∙ ap (λ x. some (launched x c)) (sym at),
        ap
              (λ x.
                (launch_each stacks this private_stack (caller ∷ rest) s).1.contexts (top stacks x))
              at
            ∙ ap (λ (r : List Context × Stacks). r.1.contexts (top stacks s.available_stack_index))
                step
            ∙ launch_each-keeps rest (after caller s) (top stacks s.available_stack_index)
                (omega (arith, f)) room (omega arith)
            ∙ ap (λ b. if b then caller else s.contexts (top stacks s.available_stack_index))
                (self (top stacks s.available_stack_index))
            ∙ same,
      )
  launch_each-get_elem? (caller ∷ rest) s (suc j) c f room e =
      let at : s.available_stack_index + suc j ≡ s.available_stack_index + 1 + j = omega arith in
      let step = launch_each-step caller rest s (omega (arith, f)) room in
      let (found, kept) =
        launch_each-get_elem? rest (after caller s) j c (omega (arith, f)) room e in
      (
        ap (λ (r : List Context × Stacks). get_elem? r.0 (suc j)) step
            ∙ found
            ∙ ap (λ x. some (launched x c)) (sym at),
        ap
              (λ x.
                (launch_each stacks this private_stack (caller ∷ rest) s).1.contexts (top stacks x))
              at
            ∙ ap
                (λ (r : List Context × Stacks).
                  r.1.contexts (top stacks (s.available_stack_index + 1 + j)))
                step
            ∙ kept,
      )

-- Up to max_cpus processors that are launched one after the other, from the first stack on, each
-- start launch_on_cpu_private_stack with an aligned stack pointer in a stack of their own, below
-- the copy of their caller's context, and where main returns an error, the context that is restored
-- is the caller's with the error's code in rax.
pub launch_each_lem :
    (stacks this private_stack : ℕ) (callers : List Context) (s : Stacks) (j : ℕ) (c : Context)
    → s.available_stack_index ≡ 0
    → length callers ≤ max_cpus
    → stacks + stack_size * max_cpus < 2 ^ 64
    → stacks % 16 ≡ 0
    → get_elem? callers j ≡ some c
    → (l : Context) × (get_elem? (launch_each stacks this private_stack callers s).0 j ≡ some l)
      × (l.rip ≡ private_stack)
      × (l.rdi ≡ this)
      × (stacks + stack_size * j ≤ l.rsp)
      × (l.rsp + 8 + context_size ≡ stacks + stack_size * (j + 1))
      × ((l.rsp + 8) % 16 ≡ 0)
      × ((a : Answers) (launches : Bool) (steps : Steps) (cpu cpu' : Cpu) (error : ErrorCode)
          → main a launches steps cpu ≡ returned error cpu'
          → launch_on_cpu_private_stack
              (main a launches steps cpu)
              l.rsi
              (launch_each stacks this private_stack callers s).1
            ≡ some (record c { rax = code error }))
unfolding launch_on_cpu_private_stack launched
launch_each_lem stacks this private_stack callers s j c start few room aligned e =
    let at : s.available_stack_index + j ≡ j = omega (arith, start) in
    let (found, kept) =
      launch_each-get_elem? stacks this private_stack callers s j c (omega (arith, start, few)) room
        e in
    (
      launched stacks this private_stack j c,
      found ∙ ap (λ x. some (launched stacks this private_stack x c)) at,
      refl,
      refl,
      omega arith,
      omega arith,
      omega (arith, aligned),
      λ a launches steps cpu cpu' error ends.
          ap
            (λ x.
              launch_on_cpu_private_stack x (top stacks j)
                (launch_each stacks this private_stack callers s).1)
            ends
          ∙ ap (λ (x : Context). some (record x { rax = code error }))
              (ap (λ x. (launch_each stacks this private_stack callers s).1.contexts (top stacks x))
                  (sym at)
                ∙ kept),
    )
