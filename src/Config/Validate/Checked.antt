-- ===== src/Config/Validate/Checked.antt =====
-- The checks of validate_config on settings with integers: without an error, these lie in their ranges.
use zwwm.Common.{ℕ, ◌≡◌, arith, Bool, true, false, Option, none, some, List, [], ◌∷◌, ◌++◌}
use zwwm.Common.Int.{ℤ, pos, negsuc}
use zwwm.Config.{SourceLocation, Diagnostic, Value, Fields, bytes, lookup_field, has_errors}
use zwwm.Config.Checks.{error_of, int32_max, check_fields, is_integer_in, is_nonnegative_integer}
use zwwm.Config.Checks.Ranges.{
  first_part, second_part, FieldIs, FieldIs-map, check_field-FieldIs, check_field-IntegerIn,
}
use zwwm.Config.Settings.{validate_layout, layout_checks, validate_overview, overview_checks}
use zwwm.Config.Animations.{
  validate_animations, animation_checks, ranged_checks, ranged_animation, spring_checks,
  validate_spring, validate_bezier, is_depth, validate_output_setting, validate_output,
  output_entry, output_entries, validate_outputs,
}
use zwwm.Config.Validate.Integers.{
  Ranged, AllRanged, IsObject, LayoutRanges, OverviewRanges, SpringRanges, BezierRanges,
  RangedAnimations, AnimationRanges, IsDepth, OutputRanges, AllOutputs,
}

one_error :
    (l : SourceLocation) (message : List ℕ) → has_errors (error_of l message ∷ []) ≡ false → ⊥
unfolding has_errors
one_error l message h = cc

check_fields-AllRanged :
    (fs : Fields) (names : List (List ℕ)) (a b : ℤ) (l : SourceLocation) (before behind : List ℕ)
    → has_errors (check_fields fs names (is_integer_in a b) l before behind) ≡ false
    → AllRanged fs names a b
unfolding check_fields
check_fields-AllRanged fs [] a b l before behind h = tt
check_fields-AllRanged fs (name ∷ names) a b l before behind h = (
  check_field-IntegerIn fs name a b l _ (first_part _ _ h),
  check_fields-AllRanged fs names a b l before behind (second_part _ _ h),
)

pub layout_lem :
    (l : SourceLocation) (v : Value)
    → has_errors (validate_layout l v) ≡ false
    → IsObject LayoutRanges v
unfolding validate_layout layout_checks is_nonnegative_integer
layout_lem l (Value.object fs) h =
    let h1 = second_part _ _ h in
    let h2 = second_part _ _ h1 in
    let h3 = second_part _ _ h2 in
    (
      check_field-IntegerIn fs (bytes "master-count") (pos 1) int32_max l _ (first_part _ _ h1),
      check_field-IntegerIn fs (bytes "master-ratio") (pos 10) (pos 90) l _ (first_part _ _ h2),
      check_fields-AllRanged fs _ (pos 0) int32_max l _ _ (first_part _ _ h3),
    )
layout_lem l v h = absurd (one_error l _ h)

pub overview_lem :
    (l : SourceLocation) (v : Value)
    → has_errors (validate_overview l v) ≡ false
    → IsObject OverviewRanges v
unfolding validate_overview overview_checks
overview_lem l (Value.object fs) h =
    let h1 = second_part _ _ h in
    let h2 = second_part _ _ h1 in
    let h3 = second_part _ _ h2 in
    (
      check_field-IntegerIn fs (bytes "backdrop-blur-radius") (pos 0) (pos 128) l _
          (first_part _ _ h),
      check_field-IntegerIn fs (bytes "backdrop-blur-passes") (pos 1) (pos 8) l _
          (first_part _ _ h1),
      check_field-IntegerIn fs (bytes "scene-radius") (pos 0) (pos 512) l _ (first_part _ _ h2),
      check_field-IntegerIn fs (bytes "master-ratio") (pos 10) (pos 90) l _ (first_part _ _ h3),
    )
overview_lem l v h = absurd (one_error l _ h)

spring_lem :
    (l : SourceLocation) (o : Option Value)
    → has_errors (validate_spring l o) ≡ false
    → FieldIs (IsObject SpringRanges) o
unfolding validate_spring spring_checks
spring_lem l none h = tt
spring_lem l (some (Value.object fs)) h =
    let h1 = second_part _ _ h in
    let h2 = second_part _ _ h1 in
    (
      check_field-IntegerIn fs (bytes "stiffness") (pos 1) int32_max l _ (first_part _ _ h),
      check_field-IntegerIn fs (bytes "damping") (pos 0) int32_max l _ (first_part _ _ h1),
      check_field-IntegerIn fs (bytes "mass-per-mille") (pos 1) int32_max l _ (first_part _ _ h2),
    )
spring_lem l (some v) h = absurd (one_error l _ h)

bezier_lem :
    (l : SourceLocation) (o : Option Value)
    → has_errors (validate_bezier l o) ≡ false
    → FieldIs (IsObject BezierRanges) o
unfolding validate_bezier
bezier_lem l none h = tt
bezier_lem l (some (Value.object fs)) h =
    check_fields-AllRanged fs _ (pos 0) (pos 1000) l _ _ (first_part _ _ h)
bezier_lem l (some v) h = absurd (one_error l _ h)

ranged_lem :
    (fs : Fields) (l : SourceLocation) (name : List ℕ) (minimum maximum : ℕ)
    → has_errors (ranged_animation fs l name minimum maximum) ≡ false
    → Ranged fs name (pos minimum) (pos maximum)
unfolding ranged_animation
ranged_lem fs l name minimum maximum h =
    check_field-IntegerIn fs name (pos minimum) (pos maximum) l _ h

ranged_checks_lem :
    (fs : Fields) (l : SourceLocation)
    → has_errors (ranged_checks fs l) ≡ false
    → RangedAnimations fs
unfolding ranged_checks
ranged_checks_lem fs l r0 =
    let r1 = second_part _ _ r0 in
    let r2 = second_part _ _ r1 in
    let r3 = second_part _ _ r2 in
    let r4 = second_part _ _ r3 in
    let r5 = second_part _ _ r4 in
    let r6 = second_part _ _ r5 in
    let r7 = second_part _ _ r6 in
    let r8 = second_part _ _ r7 in
    let r9 = second_part _ _ r8 in
    let r10 = second_part _ _ r9 in
    let r11 = second_part _ _ r10 in
    let r12 = second_part _ _ r11 in
    (
      (
        ranged_lem fs l _ 500 1000 (first_part _ _ r0),
        (
          ranged_lem fs l _ 500 1000 (first_part _ _ r1),
          (ranged_lem fs l _ 500 1000 (first_part _ _ r4), tt),
        ),
      ),
      (
        ranged_lem fs l _ 0 4096 (first_part _ _ r2),
        (ranged_lem fs l _ 0 4096 (first_part _ _ r3), tt),
      ),
      (
        ranged_lem fs l _ 0 1000 (first_part _ _ r5),
        (ranged_lem fs l _ 0 1000 (first_part _ _ r6), tt),
      ),
      (
        ranged_lem fs l _ 0 10000 (first_part _ _ r7),
        (
          ranged_lem fs l _ 0 10000 (first_part _ _ r8),
          (
            ranged_lem fs l _ 0 10000 (first_part _ _ r9),
            (
              ranged_lem fs l _ 0 10000 (first_part _ _ r10),
              (ranged_lem fs l _ 0 10000 (first_part _ _ r11), (ranged_lem fs l _ 0 10000 r12, tt)),
            ),
          ),
        ),
      ),
    )

-- The parts of seven lists of diagnostics without errors.
parts :
    (p q r s t u v : List Diagnostic)
    → has_errors (p ++ (q ++ (r ++ (s ++ (t ++ (u ++ v)))))) ≡ false
    → (has_errors q ≡ false)
      × (has_errors r ≡ false)
      × (has_errors t ≡ false)
      × (has_errors u ≡ false)
parts p q r s t u v h =
    let h1 = second_part p (q ++ (r ++ (s ++ (t ++ (u ++ v))))) h in
    let h2 = second_part q (r ++ (s ++ (t ++ (u ++ v)))) h1 in
    let h3 = second_part r (s ++ (t ++ (u ++ v))) h2 in
    let h4 = second_part s (t ++ (u ++ v)) h3 in
    (
      first_part q (r ++ (s ++ (t ++ (u ++ v)))) h1,
      first_part r (s ++ (t ++ (u ++ v))) h2,
      first_part t (u ++ v) h4,
      first_part u v (second_part t (u ++ v) h4),
    )

pub animations_lem :
    (l : SourceLocation) (v : Value)
    → has_errors (validate_animations l v) ≡ false
    → IsObject AnimationRanges v
unfolding validate_animations animation_checks is_nonnegative_integer
animations_lem l (Value.object fs) h =
    let (duration, ranged, spring, bezier) = parts _ _ _ _ _ _ _ h in
    (
      check_field-IntegerIn fs (bytes "duration-ms") (pos 0) int32_max l _ duration,
      ranged_checks_lem fs l ranged,
      spring_lem l (lookup_field (bytes "spring") fs) spring,
      bezier_lem l (lookup_field (bytes "cubic-bezier") fs) bezier,
    )
animations_lem l v h = absurd (one_error l _ h)

is_depth-IsDepth : (v : Value) → is_depth v ≡ true → IsDepth v
unfolding is_depth
is_depth-IsDepth (Value.integer (pos n)) h = ground arith
is_depth-IsDepth (Value.integer (negsuc n)) h = cc
is_depth-IsDepth Value.null h = cc
is_depth-IsDepth (Value.text s) h = cc
is_depth-IsDepth (Value.boolean s) h = cc
is_depth-IsDepth (Value.reference s) h = cc
is_depth-IsDepth (Value.array s) h = cc
is_depth-IsDepth (Value.list s) h = cc
is_depth-IsDepth (Value.object s) h = cc

module _ (is_refresh : List ℕ → Bool) where
  ranges_lem :
      (fs : Fields) (l : SourceLocation) (prefix : List ℕ)
      → has_errors (validate_output is_refresh fs l prefix) ≡ false
      → OutputRanges fs
  unfolding validate_output
  ranges_lem fs l prefix h =
      let h1 = second_part _ _ h in
      (
        check_field-IntegerIn fs (bytes "scale-per-mille") (pos 250) (pos 8000) l _
            (first_part _ _ h1),
        FieldIs-map (lookup_field (bytes "bit-depth") fs) is_depth-IsDepth (
            check_field-FieldIs fs (bytes "bit-depth") is_depth l _
              (first_part _ _ (second_part _ _ h1))),
      )

  pub output_lem :
      (l : SourceLocation) (v : Value)
      → has_errors (validate_output_setting is_refresh l v) ≡ false
      → IsObject OutputRanges v
  unfolding validate_output_setting
  output_lem l (Value.object fs) h = ranges_lem fs l _ h
  output_lem l v h = absurd (one_error l _ h)

  entry_lem :
      (l : SourceLocation) (name : List ℕ) (v : Value)
      → has_errors (output_entry is_refresh l name v) ≡ false
      → IsObject OutputRanges v
  unfolding output_entry
  entry_lem l [] v h = absurd (one_error l _ h)
  entry_lem l (c ∷ name) (Value.object fs) h = ranges_lem fs l _ h
  entry_lem l (c ∷ name) v h = absurd (one_error l _ h)

  entries_lem :
      (l : SourceLocation) (fs : Fields)
      → has_errors (output_entries is_refresh l fs) ≡ false
      → AllOutputs fs
  unfolding output_entries
  entries_lem l Fields.end h = tt
  entries_lem l (Fields.field name v fs) h =
      (entry_lem l name v (first_part _ _ h), entries_lem l fs (second_part _ _ h))

  pub outputs_lem :
      (l : SourceLocation) (v : Value)
      → has_errors (validate_outputs is_refresh l v) ≡ false
      → IsObject AllOutputs v
  unfolding validate_outputs
  outputs_lem l (Value.object fs) h = entries_lem l fs h
  outputs_lem l v h = absurd (one_error l _ h)
