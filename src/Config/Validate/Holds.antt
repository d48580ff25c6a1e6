-- ===== src/Config/Validate/Holds.antt =====
-- What a configuration that validate_config accepts holds.
use zwwm.Common.{
  ℕ, ◌≡◌, refl, sym, ap, ◌∙◌, arith, Bool, true, false, List, [], ◌∷◌, if◌then◌else◌, Bool-cases,
  inl, inr,
}
use zwwm.Config.{SourceLocation, Diagnostic, Value, Assignment, bytes, same_text, has_errors}
use zwwm.Config.Checks.{is_uppercase_name, check_variables, all_characters, is_upper, is_empty}
use zwwm.Config.Checks.Ranges.{first_part, second_part, same_text_lem}
use zwwm.Config.Checks.Variables.{all_defined, check_variables-all_defined}
use zwwm.Config.Parser.{is_digit}
use zwwm.Config.Settings.{validate_layout, validate_overview}
use zwwm.Config.Animations.{validate_animations, validate_output_setting, validate_outputs}
use zwwm.Config.Validate.Integers.{
  IsObject, LayoutRanges, OverviewRanges, AnimationRanges, OutputRanges, AllOutputs,
}
use zwwm.Config.Validate.Checked.{layout_lem, overview_lem, animations_lem, output_lem, outputs_lem}
use zwwm.Config.Validate.{
  is_variable, validate_setting, validate_assignment, validate_all, validate_config,
}

module _ (is_refresh : List ℕ → Bool) where
  -- The requirements on an assignment, by its key.
  abbrev pub Holds : (List ℕ → Bool) → Assignment → Type 0
  Holds defined a =
      (a.key ≡ bytes "layout" → IsObject LayoutRanges a.value)
      × (a.key ≡ bytes "overview" → IsObject OverviewRanges a.value)
      × (a.key ≡ bytes "animations" → IsObject AnimationRanges a.value)
      × (a.key ≡ bytes "output" → IsObject OutputRanges a.value)
      × (a.key ≡ bytes "outputs" → IsObject AllOutputs a.value)
      × (¬ (a.key ≡ bytes "import") → all_defined defined a.value ≡ true)

  abbrev pub AllHold : (List ℕ → Bool) → List Assignment → Type 0
  AllHold defined [] = Unit
  AllHold defined (a ∷ rest) = Holds defined a × AllHold defined rest

  -- The checks of one key.
  at_key :
      (key named : List ℕ) (l : SourceLocation) (v : Value) (checks : List Diagnostic)
      → key ≡ named
      → validate_setting is_refresh named l v ≡ checks
      → has_errors (validate_setting is_refresh key l v) ≡ false
      → has_errors checks ≡ false
  at_key key named l v checks e f h =
      ap has_errors (sym f) ∙ ap (λ k. has_errors (validate_setting is_refresh k l v)) (sym e) ∙ h

  layout_key :
      (l : SourceLocation) (v : Value)
      → validate_setting is_refresh (bytes "layout") l v ≡ validate_layout l v
  unfolding validate_setting bytes same_text is_uppercase_name is_empty all_characters is_upper
      is_digit
  layout_key l v = refl

  overview_key :
      (l : SourceLocation) (v : Value)
      → validate_setting is_refresh (bytes "overview") l v ≡ validate_overview l v
  unfolding validate_setting bytes same_text is_uppercase_name is_empty all_characters is_upper
      is_digit
  overview_key l v = refl

  animations_key :
      (l : SourceLocation) (v : Value)
      → validate_setting is_refresh (bytes "animations") l v ≡ validate_animations l v
  unfolding validate_setting bytes same_text is_uppercase_name is_empty all_characters is_upper
      is_digit
  animations_key l v = refl

  output_key :
      (l : SourceLocation) (v : Value)
      → validate_setting is_refresh (bytes "output") l v ≡ validate_output_setting is_refresh l v
  unfolding validate_setting bytes same_text is_uppercase_name is_empty all_characters is_upper
      is_digit
  output_key l v = refl

  outputs_key :
      (l : SourceLocation) (v : Value)
      → validate_setting is_refresh (bytes "outputs") l v ≡ validate_outputs is_refresh l v
  unfolding validate_setting bytes same_text is_uppercase_name is_empty all_characters is_upper
      is_digit
  outputs_key l v = refl

  references_lem :
      (defined : List ℕ → Bool) (a : Assignment)
      → has_errors (
          if same_text a.key (bytes "import")
          then []
          else check_variables defined a.location a.value)
        ≡ false
      → ¬ (a.key ≡ bytes "import")
      → all_defined defined a.value ≡ true
  references_lem defined a h n = elim (Bool-cases (same_text a.key (bytes "import"))) [
    | inl e ↦ absurd (n (same_text_lem a.key (bytes "import") e))
    | inr e ↦ ground (arith, h, e, check_variables-all_defined defined a.location a.value)
  ]

  assignment_lem :
      (defined : List ℕ → Bool) (rules : List (Assignment → List Diagnostic)) (a : Assignment)
      → has_errors (validate_assignment is_refresh defined rules a) ≡ false
      → Holds defined a
  unfolding validate_assignment
  assignment_lem defined rules a h =
      let setting = second_part _ _ (second_part _ _ h) in
      (
        λ e. layout_lem a.location a.value (
            at_key a.key (bytes "layout") a.location a.value _ e (layout_key a.location a.value)
              setting),
        λ e. overview_lem a.location a.value (
            at_key a.key (bytes "overview") a.location a.value _ e (overview_key a.location a.value)
              setting),
        λ e. animations_lem a.location a.value (
            at_key a.key (bytes "animations") a.location a.value _ e
              (animations_key a.location a.value) setting),
        λ e. output_lem is_refresh a.location a.value (
            at_key a.key (bytes "output") a.location a.value _ e (output_key a.location a.value)
              setting),
        λ e. outputs_lem is_refresh a.location a.value (
            at_key a.key (bytes "outputs") a.location a.value _ e (outputs_key a.location a.value)
              setting),
        references_lem defined a (first_part _ _ h),
      )

  all_lem :
      (defined : List ℕ → Bool) (rules : List (Assignment → List Diagnostic))
      (config : List Assignment)
      → has_errors (validate_all is_refresh defined rules config) ≡ false
      → AllHold defined config
  unfolding validate_all
  all_lem defined rules [] h = tt
  all_lem defined rules (a ∷ rest) h = (
    assignment_lem defined rules a (first_part _ _ h),
    all_lem defined rules rest (second_part _ _ h),
  )

  -- If validate_config reports no error, then the settings of the layout, the overview, the animations,
  -- the output and each of the outputs are objects in which every integer that the code checks, those of
  -- the spring and of the Bezier curve included, lies in its range, and every variable that a value
  -- outside an import refers to is assigned; whatever rules the components add.
  pub validate_config-AllHold :
      (rules : List (Assignment → List Diagnostic)) (config : List Assignment)
      → has_errors (validate_config is_refresh rules config) ≡ false
      → AllHold (is_variable config) config
  unfolding validate_config
  validate_config-AllHold rules config h = all_lem (is_variable config) rules config h
