-- ===== src/ErrorCode.antt =====
-- hypervisor/include/zpp/hypervisor/hypervisor.h and hypervisor/include/zpp/maybe.h: the error codes
-- of the hypervisor, and the conversion of an error to bool.
use zpp_hypervisor.Common.{ℕ, Bool, true, ◌==◌, ◌≡◌, ◌↔◌, arith}

-- `enum class hypervisor::error`.
pub data ErrorCode : Type 0 where
  success vmxon_failed vmclear_failed vmptrld_failed : ErrorCode
  physical_to_virtual_capacity_error out_of_ept_entries : ErrorCode

-- `error::code()`, the underlying value.
unfoldable pub code : ErrorCode → ℕ
code success = 0
code vmxon_failed = 1
code vmclear_failed = 2
code vmptrld_failed = 3
code physical_to_virtual_capacity_error = 4
code out_of_ept_entries = 5

-- `error::operator bool`: the category compares the code with its success code.
unfoldable pub is_success : ErrorCode → Bool
unfolding code
is_success e = code e == 0

-- An error converts to true exactly if it is `success`.
pub is_success_iff : (e : ErrorCode) → (is_success e ≡ true) ↔ (e ≡ success)
unfolding is_success
is_success_iff success = ground arith
is_success_iff vmxon_failed = ground arith
is_success_iff vmclear_failed = ground arith
is_success_iff vmptrld_failed = ground arith
is_success_iff physical_to_virtual_capacity_error = ground arith
is_success_iff out_of_ept_entries = ground arith

-- A step of the hypervisor: it goes on, returns an error, or reads or writes where C++ leaves the
-- behaviour undefined (past an array, or through the iterator at the end of a map).
pub data Outcome (A : Type 0) : Type 0 where
  ok : A → Outcome A
  failed : ErrorCode → Outcome A
  fault : Outcome A
