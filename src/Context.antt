-- ===== src/Context.antt =====
-- hypervisor/include/zpp/x64/context.h: the registers of a processor that a thread of execution has.
use zpp_hypervisor.Common.{ℕ}

-- `struct context`; `xmm` and `fxsave` are arrays, by the index of their words and bytes.
pub record Context : Type 0 where
  pub rax : ℕ
  pub rbx : ℕ
  pub rcx : ℕ
  pub rdx : ℕ
  pub rsp : ℕ
  pub rbp : ℕ
  pub rsi : ℕ
  pub rdi : ℕ
  pub r8 : ℕ
  pub r9 : ℕ
  pub r10 : ℕ
  pub r11 : ℕ
  pub r12 : ℕ
  pub r13 : ℕ
  pub r14 : ℕ
  pub r15 : ℕ
  pub rip : ℕ
  pub rflags : ℕ
  pub xmm : ℕ → ℕ
  pub fxsave : ℕ → ℕ
  pub mxcsr : ℕ
  pub cs : ℕ
  pub ds : ℕ
  pub es : ℕ
  pub fs : ℕ
  pub gs : ℕ
  pub ss : ℕ
