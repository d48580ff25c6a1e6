-- ===== src/Config/Animations.antt =====
-- The settings `animations`, `output`, `outputs`, `environment` and `rule` of validate_config in
-- zw-lang/src/config.cpp.
use zwwm.Common.{
  ℕ, zero, suc, ◌+◌, ◌/◌, ◌%◌, Bool, false, ◌||◌, Option, none, some, List, [], ◌∷◌, ◌++◌, ◌==◌,
  if◌then◌else◌,
}
use zwwm.Common.Int.{pos}
use zwwm.Config.{SourceLocation, Diagnostic, Value, Fields, bytes, lookup_field}
use zwwm.Config.Checks.{
  check, check_field, check_fields, is_bool, is_object, is_path, is_integer_in, int32_max,
  is_nonnegative_integer, is_one_of, is_output_mode, warn_unknown_fields, is_variable_name,
  error_of,
}

-- `std::to_string` of a number below 10 ^ fuel.
unfoldable pub decimal : ℕ → ℕ → List ℕ
decimal zero n = []
decimal (suc fuel) n =
    let higher = decimal fuel (n / 10) in
    if n / 10 == 0 then (b'0' + n % 10) ∷ [] else higher ++ ((b'0' + n % 10) ∷ [])

unfoldable pub ranged_animation : Fields → SourceLocation → List ℕ → ℕ → ℕ → List Diagnostic
ranged_animation fs l name minimum maximum =
    check_field fs name (is_integer_in (pos minimum) (pos maximum)) l (
      bytes "animations."
      ++ (name
          ++ (bytes " must be an integer from "
              ++ (decimal 5 minimum ++ (bytes " to " ++ decimal 5 maximum)))))

unfoldable pub spring_checks : SourceLocation → Fields → List Diagnostic
spring_checks l fs =
    check_field fs (bytes "stiffness") (is_integer_in (pos 1) int32_max) l
      (bytes "animations.spring.stiffness must be a positive integer")
    ++ (check_field fs (bytes "damping") (is_integer_in (pos 0) int32_max) l
          (bytes "animations.spring.damping must be a nonnegative integer")
        ++ (check_field fs (bytes "mass-per-mille") (is_integer_in (pos 1) int32_max) l
              (bytes "animations.spring.mass-per-mille must be a positive integer")
            ++ warn_unknown_fields fs
                (bytes "stiffness" ∷ bytes "damping" ∷ bytes "mass-per-mille" ∷ []) l
                (bytes "animations.spring")))

unfoldable pub validate_spring : SourceLocation → Option Value → List Diagnostic
validate_spring l none = []
validate_spring l (some (Value.object fs)) = spring_checks l fs
validate_spring l (some v) = error_of l (bytes "animations.spring must be an object") ∷ []

abbrev pub bezier_names : List (List ℕ)
bezier_names = bytes "x1" ∷ bytes "y1" ∷ bytes "x2" ∷ bytes "y2" ∷ []

unfoldable pub validate_bezier : SourceLocation → Option Value → List Diagnostic
validate_bezier l none = []
validate_bezier l (some (Value.object fs)) =
    check_fields fs bezier_names (is_integer_in (pos 0) (pos 1000)) l
      (bytes "animations.cubic-bezier.") (bytes " must be an integer from 0 to 1000")
    ++ warn_unknown_fields fs bezier_names l (bytes "animations.cubic-bezier")
validate_bezier l (some v) = error_of l (bytes "animations.cubic-bezier must be an object") ∷ []

-- The calls of `ranged_animation`.
unfoldable pub ranged_checks : Fields → SourceLocation → List Diagnostic
ranged_checks fs l =
    ranged_animation fs l (bytes "open-scale-per-mille") 500 1000
    ++ (ranged_animation fs l (bytes "close-scale-per-mille") 500 1000
        ++ (ranged_animation fs l (bytes "open-offset-px") 0 4096
            ++ (ranged_animation fs l (bytes "close-offset-px") 0 4096
                ++ (ranged_animation fs l (bytes "tag-scale-per-mille") 500 1000
                    ++ (ranged_animation fs l (bytes "tag-parallax-per-mille") 0 1000
                        ++ (ranged_animation fs l (bytes "tag-fade-per-mille") 0 1000
                            ++ (ranged_animation fs l (bytes "tag-duration-ms") 0 10000
                                ++ (ranged_animation fs l (bytes "overview-duration-ms") 0 10000
                                    ++ (ranged_animation fs l (bytes "open-duration-ms") 0 10000
                                        ++ (ranged_animation fs l (bytes "close-duration-ms") 0
                                              10000
                                            ++ (ranged_animation fs l (bytes "move-duration-ms") 0
                                                  10000
                                                ++ ranged_animation fs l (bytes "fade-duration-ms")
                                                    0 10000)))))))))))

abbrev animation_fields : List (List ℕ)
animation_fields =
    bytes "enabled"
    ∷ bytes "duration-ms"
    ∷ bytes "open-duration-ms"
    ∷ bytes "close-duration-ms"
    ∷ bytes "move-duration-ms"
    ∷ bytes "fade-duration-ms"
    ∷ bytes "tag-duration-ms"
    ∷ bytes "spring"
    ∷ bytes "cubic-bezier"
    ∷ bytes "open-window"
    ∷ bytes "resize"
    ∷ bytes "close"
    ∷ bytes "open-scale-per-mille"
    ∷ bytes "close-scale-per-mille"
    ∷ bytes "open-offset-px"
    ∷ bytes "close-offset-px"
    ∷ bytes "tag-scale-per-mille"
    ∷ bytes "tag-parallax-per-mille"
    ∷ bytes "tag-fade-per-mille"
    ∷ bytes "tag-transition-axis"
    ∷ bytes "overview-duration-ms"
    ∷ []

unfoldable pub animation_checks : SourceLocation → Fields → List Diagnostic
animation_checks l fs =
    check_fields fs (bytes "enabled" ∷ bytes "open-window" ∷ bytes "resize" ∷ bytes "close" ∷ [])
      is_bool l (bytes "animations.") (bytes " must be a boolean")
    ++ (check_field fs (bytes "duration-ms") is_nonnegative_integer l
          (bytes "animations.duration-ms must be a nonnegative integer")
        ++ (ranged_checks fs l
            ++ (check_field fs (bytes "tag-transition-axis")
                  (is_one_of (bytes "horizontal" ∷ bytes "vertical" ∷ [])) l
                  (bytes "animations.tag-transition-axis must be horizontal or vertical")
                ++ (validate_spring l (lookup_field (bytes "spring") fs)
                    ++ (validate_bezier l (lookup_field (bytes "cubic-bezier") fs)
                        ++ warn_unknown_fields fs animation_fields l (bytes "animations"))))))

unfoldable pub validate_animations : SourceLocation → Value → List Diagnostic
validate_animations l (Value.object fs) = animation_checks l fs
validate_animations l v = error_of l (bytes "animations must be an object") ∷ []

unfoldable pub is_depth : Value → Bool
is_depth (Value.integer (pos n)) = n == 8 || n == 10
is_depth v = false

-- `prefix.substr(0, prefix.size() - 1)`.
unfoldable pub without_last : List ℕ → List ℕ
without_last [] = []
without_last (c ∷ []) = []
without_last (c ∷ d ∷ s) = c ∷ without_last (d ∷ s)

module _ (is_refresh : List ℕ → Bool) where
  unfoldable pub validate_output : Fields → SourceLocation → List ℕ → List Diagnostic
  validate_output fs l prefix =
      check_field fs (bytes "mode") (is_output_mode is_refresh) l
        (prefix ++ bytes "mode must be \"preferred\" or WIDTHxHEIGHT@HZ")
      ++ (check_field fs (bytes "scale-per-mille") (is_integer_in (pos 250) (pos 8000)) l
            (prefix ++ bytes "scale-per-mille must be an integer from 250 to 8000")
          ++ (check_field fs (bytes "bit-depth") is_depth l
                (prefix ++ bytes "bit-depth must be 8 or 10")
              ++ (check_field fs (bytes "transform")
                    (is_one_of (bytes "normal" ∷ bytes "90" ∷ bytes "180" ∷ bytes "270" ∷ [])) l
                    (prefix ++ bytes "transform must be \"normal\", \"90\", \"180\", or \"270\"")
                  ++ warn_unknown_fields fs
                      (bytes "mode"
                        ∷ bytes "scale-per-mille"
                        ∷ bytes "bit-depth"
                        ∷ bytes "transform"
                        ∷ [])
                      l (without_last prefix))))

  unfoldable pub validate_output_setting : SourceLocation → Value → List Diagnostic
  validate_output_setting l (Value.object fs) = validate_output fs l (bytes "output.")
  validate_output_setting l v = error_of l (bytes "output must be an object") ∷ []

  -- One entry of `outputs`.
  unfoldable pub output_entry : SourceLocation → List ℕ → Value → List Diagnostic
  output_entry l [] v = error_of l (bytes "outputs connector names must not be empty") ∷ []
  output_entry l (c ∷ name) (Value.object fs) =
      validate_output fs l (bytes "outputs." ++ ((c ∷ name) ++ bytes "."))
  output_entry l (c ∷ name) v =
      error_of l (bytes "outputs." ++ ((c ∷ name) ++ bytes " must be an object")) ∷ []

  unfoldable pub output_entries : SourceLocation → Fields → List Diagnostic
  output_entries l Fields.end = []
  output_entries l (Fields.field n v fs) = output_entry l n v ++ output_entries l fs

  unfoldable pub validate_outputs : SourceLocation → Value → List Diagnostic
  validate_outputs l (Value.object fs) = output_entries l fs
  validate_outputs l v = error_of l (bytes "outputs must be an object") ∷ []

unfoldable pub environment_entries : SourceLocation → Fields → List Diagnostic
environment_entries l Fields.end = []
environment_entries l (Fields.field n v fs) =
    check (is_variable_name n) l (bytes "environment variable names must be shell identifiers")
    ++ (check (is_path v) l (bytes "environment values must be strings or variable references")
        ++ environment_entries l fs)

unfoldable pub validate_environment : SourceLocation → Value → List Diagnostic
validate_environment l (Value.object fs) = environment_entries l fs
validate_environment l v = error_of l (bytes "environment must be an object") ∷ []

unfoldable pub is_object_field : Option Value → Bool
is_object_field none = false
is_object_field (some v) = is_object v

unfoldable pub rule_actions : SourceLocation → Option Value → List Diagnostic
rule_actions l (some (Value.object actions)) =
    check_fields actions
      (bytes "floating" ∷ bytes "centered" ∷ bytes "always-on-top" ∷ bytes "glass" ∷ []) is_bool l
      (bytes "rule.set.") (bytes " must be a boolean")
rule_actions l v = error_of l (bytes "rule.set must be an object") ∷ []

unfoldable pub validate_rule : SourceLocation → Value → List Diagnostic
validate_rule l (Value.object fs) =
    check (is_object_field (lookup_field (bytes "match") fs)) l
      (bytes "rule.match must be an object")
    ++ rule_actions l (lookup_field (bytes "set") fs)
validate_rule l v = error_of l (bytes "rule must be an object") ∷ []
