-- ===== src/Config/Validate.antt =====
-- validate_config of zw-lang/src/config.cpp. A rule of a component gives the diagnostics that it
-- pushes; `is_refresh` is the reading of a refresh rate by `std::from_chars`.
pub mod Integers
pub mod Checked
pub mod Holds
use zwwm.Common.{ℕ, Bool, true, false, not, ◌&&◌, ◌||◌, List, [], ◌∷◌, ◌++◌, ◌==◌, if◌then◌else◌}
use zwwm.Config.{SourceLocation, Diagnostic, Value, Assignment, bytes, same_text}
use zwwm.Config.Checks.{is_uppercase_name, check_variables, warning_of}
use zwwm.Config.Settings.{
  validate_import, validate_exec, validate_plugins, validate_plugin_settings, validate_bind,
  validate_shaders, validate_layout, validate_input, validate_keyboard, validate_overview,
}
use zwwm.Config.Animations.{
  validate_animations, validate_output_setting, validate_outputs, validate_environment,
  validate_rule,
}

-- The set of the variables, as its test.
unfoldable pub is_variable : List Assignment → List ℕ → Bool
is_variable [] name = false
is_variable (a ∷ rest) name =
    is_uppercase_name a.key && same_text a.key name || is_variable rest name

module _ (is_refresh : List ℕ → Bool) where
  -- The checks of the key, tried in this order; a variable has none.
  unfoldable pub validate_setting : List ℕ → SourceLocation → Value → List Diagnostic
  validate_setting key l v =
      if is_uppercase_name key
      then []
      else if same_text key (bytes "import")
      then validate_import l v
      else if same_text key (bytes "exec-sh-on-startup")
      then validate_exec l v
      else if same_text key (bytes "plugins")
      then validate_plugins l v
      else if same_text key (bytes "plugin-settings")
      then validate_plugin_settings l v
      else if same_text key (bytes "bind")
      then validate_bind l v
      else if same_text key (bytes "shaders")
      then validate_shaders l v
      else if same_text key (bytes "layout")
      then validate_layout l v
      else if same_text key (bytes "input")
      then validate_input l v
      else if same_text key (bytes "keyboard")
      then validate_keyboard l v
      else if same_text key (bytes "overview")
      then validate_overview l v
      else if same_text key (bytes "animations")
      then validate_animations l v
      else if same_text key (bytes "output")
      then validate_output_setting is_refresh l v
      else if same_text key (bytes "outputs")
      then validate_outputs is_refresh l v
      else if same_text key (bytes "environment")
      then validate_environment l v
      else if same_text key (bytes "rule")
      then validate_rule l v
      else warning_of l (bytes "unknown top-level setting: " ++ key) ∷ []

  unfoldable pub run_rules : List (Assignment → List Diagnostic) → Assignment → List Diagnostic
  run_rules [] a = []
  run_rules (rule ∷ rules) a = rule a ++ run_rules rules a

  unfoldable pub validate_assignment :
      (List ℕ → Bool) → List (Assignment → List Diagnostic) → Assignment → List Diagnostic
  validate_assignment defined rules a =
      (if same_text a.key (bytes "import") then [] else check_variables defined a.location a.value)
      ++ (run_rules rules a ++ validate_setting a.key a.location a.value)

  unfoldable pub validate_all :
      (List ℕ → Bool) → List (Assignment → List Diagnostic) → List Assignment → List Diagnostic
  validate_all defined rules [] = []
  validate_all defined rules (a ∷ rest) =
      validate_assignment defined rules a ++ validate_all defined rules rest

  unfoldable pub validate_config :
      List (Assignment → List Diagnostic) → List Assignment → List Diagnostic
  validate_config rules config = validate_all (is_variable config) rules config
