-- ===== src/Vmcs.antt =====
-- hypervisor/include/zpp/x64/intel/vmcs.h: access to the VMCS of the processor. Behind `vmread` and
-- `vmwrite` of hypervisor/include/zpp/x64/intel/asm.h stands the processor: it has a current VMCS or
-- not, and a set of fields that can be read and one that can be written.
pub mod Fields
pub mod ControlWords
pub mod ControlQuads
pub mod ControlLongs
pub mod ControlNaturals
pub mod GuestWords
pub mod GuestQuads
pub mod GuestLongs
pub mod GuestNaturals
pub mod HostWords
pub mod HostQuads
pub mod HostLongs
pub mod HostNaturals
pub mod Accessors
pub mod InformationQuads
pub mod InformationLongs
use zpp_hypervisor.Common.{ℕ, List, [], ◌∷◌, ◌/◌, ◌%◌, ◌^◌, Bool, ◌==◌, not, if◌then◌else◌, update}
use zpp_hypervisor.Maybe.{Maybe, of_value, of_error}

-- `enum class vmcs_error`.
pub data VmcsError : Type 0 where
  success fail : VmcsError

pub record Vmcs : Type 0 where
  pub is_current : Bool
  pub readable : ℕ → Bool
  pub writable : ℕ → Bool
  pub fields : ℕ → ℕ

-- Bits 13 and 14 of an encoding tell how many bits of a value the field keeps.
abbrev pub width : ℕ → ℕ
width field =
    let kind = field / 2 ^ 13 % 4 in if kind == 0 then 16 else if kind == 2 then 32 else 64

abbrev pub narrow : ℕ → ℕ → ℕ
narrow field value = value % 2 ^ width field

-- The result of the wrapper, 1 where the processor sets the carry flag, and what it stores. The
-- processor sets that flag where no VMCS is current; for a field that it does not have it sets the
-- zero flag, which the wrappers do not test.
abbrev pub vmread : ℕ → ℕ → Vmcs → ℕ × ℕ
vmread field stored s =
    if not s.is_current
    then (1, stored)
    else if s.readable field
    then (0, s.fields field)
    else (0, stored)

abbrev pub vmwrite : ℕ → ℕ → Vmcs → ℕ × Vmcs
vmwrite field value s =
    if not s.is_current
    then (1, s)
    else if s.writable field
    then (0, record s { fields = update s.fields field (narrow field value) })
    else (0, s)

-- `vmcs::write` and `vmcs::read`.
abbrev pub write : ℕ → ℕ → Vmcs → VmcsError × Vmcs
write field value s =
    let (result, s') = vmwrite field value s in
    if not (result == 0) then (fail, s') else (success, s')

abbrev pub read : ℕ → Vmcs → Maybe VmcsError ℕ
read field s =
    let (result, stored) = vmread field 0 s in
    if not (result == 0) then of_error fail else of_value stored

-- Calls of setters whose results are discarded.
abbrev pub run : List (Vmcs → VmcsError × Vmcs) → Vmcs → Vmcs
run [] s = s
run (set ∷ rest) s = run rest (set s).1

-- The two accessors of a field.
pub record Accessor : Type 0 where
  pub field : ℕ
  pub get : Vmcs → Maybe VmcsError ℕ
  pub set : ℕ → Vmcs → VmcsError × Vmcs
