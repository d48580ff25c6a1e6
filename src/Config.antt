-- ===== src/Config.antt =====
-- zw-lang/include/zwwm/lang/config.hpp: values, assignments and diagnostics of the configuration.
pub mod Parser
pub mod Checks
pub mod Settings
pub mod Animations
pub mod Validate
pub mod Environment
pub mod Imports
mod Tests
use Prim.Native.Char.{code}
use Prim.Native.String
use Prim.Native.String.{String}
use zwwm.Common.{
  ℕ, Bool, true, false, ◌&&◌, ◌||◌, Option, none, some, List, [], ◌∷◌, ◌==◌, if◌then◌else◌,
}
use zwwm.Common.Int.{ℤ}

-- The bytes of a literal, and the comparison of two strings. A `std::string` is a list of bytes.
unfoldable pub bytes : String → List ℕ
bytes String.[] = []
bytes (String.◌∷◌ c s) = code c ∷ bytes s

unfoldable pub same_text : List ℕ → List ℕ → Bool
same_text [] [] = true
same_text [] (d ∷ t) = false
same_text (c ∷ s) [] = false
same_text (c ∷ s) (d ∷ t) = c == d && same_text s t

pub record SourceLocation : Type 0 where
  pub line : ℕ
  pub column : ℕ

abbrev pub first_location : SourceLocation
first_location = record { line = 1; column = 1 }

pub data DiagnosticLevel : Type 0 where
  warning error : DiagnosticLevel

pub record Diagnostic : Type 0 where
  pub level : DiagnosticLevel
  pub location : SourceLocation
  pub message : List ℕ

-- `std::monostate` is null, and an object its names and values in order.
mutual
  pub data Value : Type 0 where
    null : Value
    text : List ℕ → Value
    boolean : Bool → Value
    integer : ℤ → Value
    reference : List ℕ → Value
    array : Values → Value
    list : Values → Value
    object : Fields → Value

  pub data Values : Type 0 where
    nil : Values
    cons : Value → Values → Values

  pub data Fields : Type 0 where
    end : Fields
    field : List ℕ → Value → Fields → Fields

pub record Assignment : Type 0 where
  pub location : SourceLocation
  pub key : List ℕ
  pub value : Value

pub record ParseResult : Type 0 where
  pub assignments : List Assignment
  pub diagnostics : List Diagnostic

abbrev pub is_error : DiagnosticLevel → Bool
is_error DiagnosticLevel.warning = false
is_error DiagnosticLevel.error = true

unfoldable pub has_errors : List Diagnostic → Bool
has_errors [] = false
has_errors (d ∷ ds) = is_error d.level || has_errors ds

-- ObjectValue::add and push_back.
unfoldable pub add : List ℕ → Value → Fields → Fields
add name v Fields.end = Fields.field name v Fields.end
add name v (Fields.field n w fs) = Fields.field n w (add name v fs)

unfoldable pub push_back : Value → Values → Values
push_back v Values.nil = Values.cons v Values.nil
push_back v (Values.cons w vs) = Values.cons w (push_back v vs)

unfoldable pub lookup_field : List ℕ → Fields → Option Value
lookup_field name Fields.end = none
lookup_field name (Fields.field n v fs) = if same_text n name then some v else lookup_field name fs

unfoldable pub find_assignment : List ℕ → List Assignment → Option Value
find_assignment key [] = none
find_assignment key (a ∷ rest) =
    if same_text a.key key then some a.value else find_assignment key rest
