-- ===== src/Config/Checks.antt =====
-- The tests of zw-lang/src/config.cpp that validate_config is made of. A check gives the diagnostics
-- that it pushes, in their order.
pub mod Ranges
pub mod Variables
use zwwm.Common.{
  ℕ, zero, suc, ◌+◌, ◌-◌, ◌*◌, ◌/◌, ◌%◌, Bool, true, false, not, ◌&&◌, ◌||◌, Option, none, some,
  List, [], ◌∷◌, ◌++◌, ltb, leb, ◌==◌, if◌then◌else◌, length,
}
use zwwm.Common.Int.{ℤ, pos, negsuc, ltb_ℤ}
use zwwm.Config.{
  SourceLocation, DiagnosticLevel, Diagnostic, Value, Values, Fields, Assignment, bytes, same_text,
  lookup_field,
}
use zwwm.Config.Parser.{is_digit, is_alpha}

abbrev pub error_of : SourceLocation → List ℕ → Diagnostic
error_of location message = record {
  level = DiagnosticLevel.error;
  location = location;
  message = message;
}

abbrev pub warning_of : SourceLocation → List ℕ → Diagnostic
warning_of location message = record {
  level = DiagnosticLevel.warning;
  location = location;
  message = message;
}

-- validation_error, unless the test holds.
unfoldable pub check : Bool → SourceLocation → List ℕ → List Diagnostic
check holds location message = if holds then [] else error_of location message ∷ []

-- A field that is there must pass the test.
unfoldable pub check_field :
    Fields → List ℕ → (Value → Bool) → SourceLocation → List ℕ → List Diagnostic
check_field fields name test location message = elim (lookup_field name fields) [
  | none ↦ []
  | some v ↦ check (test v) location message
]

-- The same test on several fields, with a message around the name of each.
unfoldable pub check_fields :
    Fields → List (List ℕ) → (Value → Bool) → SourceLocation → List ℕ → List ℕ → List Diagnostic
check_fields fields [] test location before behind = []
check_fields fields (name ∷ names) test location before behind =
    check_field fields name test location (before ++ (name ++ behind))
    ++ check_fields fields names test location before behind

unfoldable pub is_bool : Value → Bool
is_bool (Value.boolean b) = true
is_bool v = false

unfoldable pub is_object : Value → Bool
is_object (Value.object fields) = true
is_object v = false

unfoldable pub is_array : Value → Bool
is_array (Value.array vs) = true
is_array v = false

unfoldable pub is_text : Value → Bool
is_text (Value.text s) = true
is_text v = false

-- A string or a variable reference.
unfoldable pub is_path : Value → Bool
is_path (Value.text s) = true
is_path (Value.reference s) = true
is_path v = false

-- An integer from `minimum` to `maximum`.
unfoldable pub is_integer_in : ℤ → ℤ → Value → Bool
is_integer_in minimum maximum (Value.integer n) = not (ltb_ℤ n minimum) && not (ltb_ℤ maximum n)
is_integer_in minimum maximum v = false

abbrev pub int32_max : ℤ
int32_max = pos 2147483647

unfoldable pub is_nonnegative_integer : Value → Bool
is_nonnegative_integer v = is_integer_in (pos 0) int32_max v

unfoldable pub mem_text : List ℕ → List (List ℕ) → Bool
mem_text s [] = false
mem_text s (t ∷ ts) = same_text s t || mem_text s ts

-- One of some names.
unfoldable pub is_one_of : List (List ℕ) → Value → Bool
is_one_of names (Value.text s) = mem_text s names
is_one_of names v = false

-- What is before and behind the first of a character.
unfoldable pub split_at : ℕ → List ℕ → Option (List ℕ × List ℕ)
split_at c [] = none
split_at c (d ∷ s) =
    let later = split_at c s in
    if d == c
    then some ([], s)
    else elim later [ none ↦ none | some (before, behind) ↦ some (d ∷ before, behind) ]

unfoldable pub is_empty : List ℕ → Bool
is_empty [] = true
is_empty (c ∷ s) = false

-- `std::from_chars` of a `std::uint32_t` that reads the whole text: its value.
unfoldable pub digits : ℕ → List ℕ → Option ℕ
digits value [] = some value
digits value (c ∷ s) =
    let more = digits (value * 10 + (c - b'0')) s in if is_digit c then more else none

unfoldable pub is_size : List ℕ → Bool
is_size s = elim (digits 0 s) [
  | none ↦ false
  | some n ↦ not (is_empty s) && ltb 0 n && leb n 4294967295
]

-- `is_refresh` is `std::from_chars` of a double that reads the whole text and is above 0.
unfoldable pub is_mode_text : (List ℕ → Bool) → List ℕ → Bool
is_mode_text is_refresh s =
    if same_text s (bytes "preferred") then true else elim (split_at b'x' s) [
      | none ↦ false
      | some (width, rest) ↦ elim (split_at b'@' rest) [
        | none ↦ false
        | some (height, refresh) ↦
            not (is_empty refresh) && is_size width && is_size height && is_refresh refresh
      ]
    ]

unfoldable pub is_output_mode : (List ℕ → Bool) → Value → Bool
is_output_mode is_refresh (Value.text s) = is_mode_text is_refresh s
is_output_mode is_refresh v = false

unfoldable pub warn_unknown_fields :
    Fields → List (List ℕ) → SourceLocation → List ℕ → List Diagnostic
warn_unknown_fields Fields.end known location name = []
warn_unknown_fields (Fields.field n v fs) known location name =
    let warnings = warn_unknown_fields fs known location name in
    if mem_text n known
    then warnings
    else warning_of location (bytes "unknown " ++ (name ++ (bytes " setting: " ++ n))) ∷ warnings

unfoldable pub is_upper : ℕ → Bool
is_upper c = leb b'A' c && leb c b'Z'

unfoldable pub all_characters : (ℕ → Bool) → List ℕ → Bool
all_characters test [] = true
all_characters test (c ∷ s) = test c && all_characters test s

unfoldable pub is_uppercase_name : List ℕ → Bool
is_uppercase_name s =
    not (is_empty s) && all_characters (λ c. is_upper c || is_digit c || c == b'_') s

-- A shell identifier.
unfoldable pub is_variable_name : List ℕ → Bool
is_variable_name [] = false
is_variable_name (c ∷ s) =
    (is_alpha c || c == b'_') && all_characters (λ d. is_alpha d || is_digit d || d == b'_') s

-- The references in a value that are not among the variables.
unfoldable mutual
  pub check_variables : (List ℕ → Bool) → SourceLocation → Value → List Diagnostic
  check_variables defined location (Value.reference name) =
      check (defined name) location (bytes "undefined variable $" ++ name)
  check_variables defined location (Value.array vs) = check_values defined location vs
  check_variables defined location (Value.list vs) = check_values defined location vs
  check_variables defined location (Value.object fs) = check_in_fields defined location fs
  check_variables defined location v = []

  pub check_values : (List ℕ → Bool) → SourceLocation → Values → List Diagnostic
  check_values defined location Values.nil = []
  check_values defined location (Values.cons v vs) =
      check_variables defined location v ++ check_values defined location vs

  pub check_in_fields : (List ℕ → Bool) → SourceLocation → Fields → List Diagnostic
  check_in_fields defined location Fields.end = []
  check_in_fields defined location (Fields.field n v fs) =
      check_variables defined location v ++ check_in_fields defined location fs
