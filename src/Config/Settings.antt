-- ===== src/Config/Settings.antt =====
-- The settings that validate_config checks in zw-lang/src/config.cpp, one function for each key; the
-- animations are in Config/Animations.
use zwwm.Common.{ℕ, suc, Bool, true, false, not, ◌&&◌, List, [], ◌∷◌, ◌++◌, ◌==◌}
use zwwm.Common.Int.{pos}
use zwwm.Config.{SourceLocation, Diagnostic, Value, Values, Fields, bytes}
use zwwm.Config.Checks.{
  check, check_field, check_fields, is_bool, is_object, is_array, is_text, is_path, is_integer_in,
  int32_max, is_nonnegative_integer, is_one_of, is_empty, warn_unknown_fields, error_of,
}

unfoldable pub all_paths : Values → Bool
all_paths Values.nil = true
all_paths (Values.cons v vs) = is_path v && all_paths vs

unfoldable pub validate_import : SourceLocation → Value → List Diagnostic
validate_import l (Value.array vs) =
    check (all_paths vs) l (bytes "import paths must be strings or environment variable references")
validate_import l v = check (is_path v) l (bytes "import must be a path or an array of paths")

unfoldable pub validate_exec : SourceLocation → Value → List Diagnostic
validate_exec l v = check (is_array v) l (bytes "exec-sh-on-startup must be an array")

unfoldable pub plugin_paths : SourceLocation → Values → List Diagnostic
plugin_paths l Values.nil = []
plugin_paths l (Values.cons v vs) =
    check (is_path v) l (bytes "plugin paths must be strings or variable references")
    ++ plugin_paths l vs

unfoldable pub validate_plugins : SourceLocation → Value → List Diagnostic
validate_plugins l (Value.array vs) = plugin_paths l vs
validate_plugins l v = error_of l (bytes "plugins must be an array") ∷ []

unfoldable pub plugin_entries : SourceLocation → Fields → List Diagnostic
plugin_entries l Fields.end = []
plugin_entries l (Fields.field n v fs) =
    check (not (is_empty n) && is_object v) l
      (bytes "plugin-settings entries must have a nonempty name and an object value")
    ++ plugin_entries l fs

unfoldable pub validate_plugin_settings : SourceLocation → Value → List Diagnostic
validate_plugin_settings l (Value.object fs) = plugin_entries l fs
validate_plugin_settings l v = error_of l (bytes "plugin-settings must be an object") ∷ []

unfoldable pub count_values : Values → ℕ
count_values Values.nil = 0
count_values (Values.cons v vs) = suc (count_values vs)

abbrev pub is_list_of : ℕ → Value → Bool
is_list_of n (Value.list vs) = count_values vs == n
is_list_of n v = false

unfoldable pub validate_bind : SourceLocation → Value → List Diagnostic
validate_bind l v =
    check (is_list_of 4 v) l (bytes "bind must contain modifier, key, action, and argument")

unfoldable pub shader_entries : SourceLocation → Fields → List Diagnostic
shader_entries l Fields.end = []
shader_entries l (Fields.field n v fs) =
    check (is_object v) l (bytes "each shader must be an object") ++ shader_entries l fs

unfoldable pub validate_shaders : SourceLocation → Value → List Diagnostic
validate_shaders l (Value.object fs) = shader_entries l fs
validate_shaders l v = error_of l (bytes "shaders must be an object") ∷ []

unfoldable pub layout_checks : SourceLocation → Fields → List Diagnostic
layout_checks l fs =
    check_field fs (bytes "default")
      (is_one_of (bytes "master-stack" ∷ bytes "focus-fibonacci" ∷ bytes "endless-canvas" ∷ [])) l
      (bytes "layout.default must be \"master-stack\", \"focus-fibonacci\", or \"endless-canvas\"")
    ++ (check_field fs (bytes "master-count") (is_integer_in (pos 1) int32_max) l
          (bytes "layout.master-count must be a positive integer")
        ++ (check_field fs (bytes "master-ratio") (is_integer_in (pos 10) (pos 90)) l
              (bytes "layout.master-ratio must be an integer percent from 10 to 90")
            ++ (check_fields fs
                  (bytes "outer-gap"
                    ∷ bytes "inner-gap"
                    ∷ bytes "gaps"
                    ∷ bytes "min-zoom-per-mille"
                    ∷ bytes "max-zoom-per-mille"
                    ∷ [])
                  is_nonnegative_integer l (bytes "layout.")
                  (bytes " must be a nonnegative integer")
                ++ (check_field fs (bytes "smart-gaps") is_bool l
                      (bytes "layout.smart-gaps must be a boolean")
                    ++ warn_unknown_fields fs
                        (bytes "default"
                          ∷ bytes "master-count"
                          ∷ bytes "master-ratio"
                          ∷ bytes "outer-gap"
                          ∷ bytes "inner-gap"
                          ∷ bytes "gaps"
                          ∷ bytes "min-zoom-per-mille"
                          ∷ bytes "max-zoom-per-mille"
                          ∷ bytes "smart-gaps"
                          ∷ [])
                        l (bytes "layout")))))

unfoldable pub validate_layout : SourceLocation → Value → List Diagnostic
validate_layout l (Value.object fs) = layout_checks l fs
validate_layout l v = error_of l (bytes "layout must be an object") ∷ []

unfoldable pub input_checks : SourceLocation → Fields → List Diagnostic
input_checks l fs =
    check_field fs (bytes "focus-mode")
      (is_one_of (bytes "hover" ∷ bytes "by-click" ∷ bytes "click" ∷ [])) l
      (bytes "input.focus-mode must be \"hover\" or \"by-click\"")
    ++ (check_field fs (bytes "reverse-mouse-scrolling") is_bool l
          (bytes "input.reverse-mouse-scrolling must be a boolean")
        ++ warn_unknown_fields fs (bytes "focus-mode" ∷ bytes "reverse-mouse-scrolling" ∷ []) l
            (bytes "input"))

unfoldable pub validate_input : SourceLocation → Value → List Diagnostic
validate_input l (Value.object fs) = input_checks l fs
validate_input l v = error_of l (bytes "input must be an object") ∷ []

abbrev pub keyboard_names : List (List ℕ)
keyboard_names =
    bytes "rules" ∷ bytes "model" ∷ bytes "layout" ∷ bytes "variant" ∷ bytes "options" ∷ []

unfoldable pub validate_keyboard : SourceLocation → Value → List Diagnostic
validate_keyboard l (Value.object fs) =
    check_fields fs keyboard_names is_text l (bytes "keyboard.") (bytes " must be a string")
    ++ warn_unknown_fields fs keyboard_names l (bytes "keyboard")
validate_keyboard l v = error_of l (bytes "keyboard must be an object") ∷ []

unfoldable pub overview_checks : SourceLocation → Fields → List Diagnostic
overview_checks l fs =
    check_field fs (bytes "backdrop-blur-radius") (is_integer_in (pos 0) (pos 128)) l
      (bytes "invalid overview.backdrop-blur-radius")
    ++ (check_field fs (bytes "backdrop-blur-passes") (is_integer_in (pos 1) (pos 8)) l
          (bytes "invalid overview.backdrop-blur-passes")
        ++ (check_field fs (bytes "scene-radius") (is_integer_in (pos 0) (pos 512)) l
              (bytes "overview.scene-radius must be 0..512")
            ++ (check_field fs (bytes "master-ratio") (is_integer_in (pos 10) (pos 90)) l
                  (bytes "overview.master-ratio must be 10..90")
                ++ warn_unknown_fields fs
                    (bytes "backdrop-image"
                      ∷ bytes "backdrop-blur-radius"
                      ∷ bytes "backdrop-blur-passes"
                      ∷ bytes "scene-radius"
                      ∷ bytes "layout"
                      ∷ bytes "master-ratio"
                      ∷ [])
                    l (bytes "overview"))))

unfoldable pub validate_overview : SourceLocation → Value → List Diagnostic
validate_overview l (Value.object fs) = overview_checks l fs
validate_overview l v = error_of l (bytes "overview must be an object") ∷ []
