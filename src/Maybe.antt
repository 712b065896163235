-- ===== src/Maybe.antt =====
-- hypervisor/include/zpp/maybe.h: errors with their category, and a value or an error. `Text` is the
-- type of messages, `std::string_view`.
use zpp_hypervisor.Common.{ℕ, Bool, true, false, ◌==◌, Option, some, none}

-- `class error_category`, as `make_error_category` makes it.
pub record ErrorCategory (Text : Type 0) : Type 0 where
  pub name : Text
  pub message : ℕ → Text
  pub success_code : ℕ

module _ {Text : Type 0} where
  -- `error_category::success`.
  abbrev pub success : ErrorCategory Text → ℕ → Bool
  success c code = code == c.success_code

-- `class error`: the category and the code. An enumeration stands for its `int` values.
pub record Error (Text : Type 0) : Type 0 where
  pub category : ErrorCategory Text
  pub code : ℕ

module _ {Text : Type 0} where
  -- `error::message`.
  abbrev pub message : Error Text → Text
  message e = e.category.message e.code

  -- `error::operator bool`.
  abbrev pub is_success : Error Text → Bool
  is_success e = success e.category e.code

-- `class maybe`, a `std::variant` of the two.
pub data Maybe (E : Type 0) (A : Type 0) : Type 0 where
  of_value : A → Maybe E A
  of_error : E → Maybe E A

module _ {E : Type 0} {A : Type 0} where
  -- `maybe::operator bool`.
  abbrev pub has_value : Maybe E A → Bool
  has_value (of_value a) = true
  has_value (of_error e) = false

  -- `maybe::value`, which is undefined for an error.
  abbrev pub get_value : Maybe E A → Option A
  get_value (of_value a) = some a
  get_value (of_error e) = none

  -- `maybe::error`, which is undefined for a value.
  abbrev pub get_error : Maybe E A → Option E
  get_error (of_value a) = none
  get_error (of_error e) = some e
