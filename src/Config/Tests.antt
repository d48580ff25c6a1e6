-- ===== src/Config/Tests.antt =====
-- Runs of zw-lang on concrete inputs, and its theorems at such inputs.
use zwwm.Common.{
  ℕ, ◌≡◌, refl, true, false, not, none, some, List, [], ◌∷◌, ◌++◌, ◌==◌, if◌then◌else◌, arith,
}
use zwwm.Common.Int.{pos}
use zwwm.Config.{
  first_location, Value, Values, Fields, Assignment, ParseResult, bytes, has_errors, lookup_field,
  same_text,
}
use zwwm.Config.Imports.{Files, parse_config_file}
use zwwm.Config.Imports.Included.{Included}
use zwwm.Config.Imports.Total.{parse_config_file-Included}
use zwwm.Config.Parser.{parse_config, is_digit, head}
use zwwm.Config.Parser.Reach.{small_numbers, leading_number}
use zwwm.Config.Parser.Total.{IsResult, parse_config-IsResult}
use zwwm.Config.Checks.{
  check_variables, check, check_field, check_fields, is_uppercase_name, all_characters, is_upper,
  is_empty, is_integer_in, warn_unknown_fields, mem_text,
}
use zwwm.Config.Settings.{validate_layout, layout_checks}
use zwwm.Config.Checks.Variables.{all_defined, check_variables-all_defined}
use zwwm.Config.Validate.{
  is_variable, validate_config, validate_all, validate_assignment, validate_setting, run_rules,
}
use zwwm.Config.Validate.Holds.{AllHold, validate_config-AllHold}

-- An object, a line without a key, and a list with a reference, an escape and an array.
abbrev source : List ℕ
source =
    bytes "layout = { master-count = 2 } -- two\n = 1\nbind = SUPER, $KEY, \"a\\nb\", [-5, true]\n"

source_small : small_numbers source ≡ true
unfolding small_numbers leading_number is_digit bytes
source_small = refl

parse_config-IsResult_example :
    (r : ParseResult) × (parse_config source ≡ some r) × IsResult source r
parse_config-IsResult_example = parse_config-IsResult source source_small

-- A variable, a reference to it, and a layout.
abbrev settings : List Assignment
settings =
    record { location = first_location; key = bytes "MOD"; value = Value.text (bytes "SUPER") }
    ∷ record {
      location = first_location;
      key = bytes "modifier";
      value = Value.reference (bytes "MOD");
    }
    ∷ record {
      location = first_location;
      key = bytes "layout";
      value =
          Value.object (Fields.field (bytes "master-ratio") (Value.integer (pos 60)) Fields.end);
    }
    ∷ []

check_variables-all_defined_example :
    has_errors (
      check_variables (is_variable settings) first_location (
        Value.list (
          Values.cons
            (Value.reference (bytes "MOD"))
            (Values.cons (Value.reference (bytes "KEY")) Values.nil))))
    ≡ not (
        all_defined (is_variable settings) (
          Value.list (
            Values.cons
              (Value.reference (bytes "MOD"))
              (Values.cons (Value.reference (bytes "KEY")) Values.nil))))
check_variables-all_defined_example =
    check_variables-all_defined (is_variable settings) first_location _

settings_valid : has_errors (validate_config (λ s. false) [] settings) ≡ false
unfolding has_errors validate_config validate_all validate_assignment validate_setting run_rules
    is_variable check_variables check check_field check_fields lookup_field same_text bytes
    is_uppercase_name all_characters is_upper is_digit is_empty is_integer_in validate_layout
    layout_checks warn_unknown_fields mem_text
settings_valid = refl

validate_config-AllHold_example : AllHold (λ s. false) (is_variable settings) settings
validate_config-AllHold_example = validate_config-AllHold (λ s. false) [] settings settings_valid

-- A file that imports another beside it, and one that imports itself.
abbrev files : Files
files = record {
  getenv = λ name. if same_text name (bytes "HOME") then some (bytes "/h") else none;
  canonical = λ path. path;
  contents = λ path.
      if same_text path (bytes "/h/a")
      then some (bytes "gap = 1\nimport = \"$HOME/b\"\nlast = 3\n")
      else if same_text path (bytes "/h/b")
      then some (bytes "gap = 2\n")
      else if same_text path (bytes "/h/c")
      then some (bytes "import = \"c\"\n")
      else none;
  is_relative = λ path. not (head path == b'/');
  beside = λ path child. bytes "/h/" ++ child;
}

abbrev known_files : List (List ℕ)
known_files = bytes "/h/a" ∷ bytes "/h/b" ∷ bytes "/h/c" ∷ []

opens : (path input : List ℕ) → files.contents path ≡ some input → mem_text path known_files ≡ true
unfolding mem_text
opens path input h = ground arith

small : (path input : List ℕ) → files.contents path ≡ some input → small_numbers input ≡ true
unfolding small_numbers leading_number is_digit bytes
small path input h = ground arith

parse_config_file-Included_example :
    (r : ParseResult) × (parse_config_file files 4 (bytes "/h/a") ≡ some r)
    × (has_errors r.diagnostics ≡ false → Included files (bytes "/h/a") r.assignments)
parse_config_file-Included_example =
    parse_config_file-Included files known_files opens small 4 (bytes "/h/a") (omega arith)
