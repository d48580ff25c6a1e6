-- ===== src/Config/Validate/Integers.antt =====
-- The integers of the settings that validate_config checks, and their ranges.
use zwwm.Common.{ℕ, ◌≡◌, ◌⊎◌, List, [], ◌∷◌}
use zwwm.Common.Int.{ℤ, pos}
use zwwm.Config.{Value, Fields, bytes, lookup_field}
use zwwm.Config.Checks.{int32_max}
use zwwm.Config.Checks.Ranges.{FieldIs, IntegerIn}

-- The field of the object, if it is there, is an integer in the range.
abbrev pub Ranged : Fields → List ℕ → ℤ → ℤ → Type 0
Ranged fs name minimum maximum = FieldIs (IntegerIn minimum maximum) (lookup_field name fs)

abbrev pub AllRanged : Fields → List (List ℕ) → ℤ → ℤ → Type 0
AllRanged fs [] minimum maximum = Unit
AllRanged fs (name ∷ names) minimum maximum =
    Ranged fs name minimum maximum × AllRanged fs names minimum maximum

abbrev pub IsObject : (Fields → Type 0) → Value → Type 0
IsObject P (Value.object fs) = P fs
IsObject P v = ⊥

abbrev pub LayoutRanges : Fields → Type 0
LayoutRanges fs =
    Ranged fs (bytes "master-count") (pos 1) int32_max
    × Ranged fs (bytes "master-ratio") (pos 10) (pos 90)
    × AllRanged fs
        (bytes "outer-gap"
          ∷ bytes "inner-gap"
          ∷ bytes "gaps"
          ∷ bytes "min-zoom-per-mille"
          ∷ bytes "max-zoom-per-mille"
          ∷ [])
        (pos 0) int32_max

abbrev pub OverviewRanges : Fields → Type 0
OverviewRanges fs =
    Ranged fs (bytes "backdrop-blur-radius") (pos 0) (pos 128)
    × Ranged fs (bytes "backdrop-blur-passes") (pos 1) (pos 8)
    × Ranged fs (bytes "scene-radius") (pos 0) (pos 512)
    × Ranged fs (bytes "master-ratio") (pos 10) (pos 90)

abbrev pub SpringRanges : Fields → Type 0
SpringRanges fs =
    Ranged fs (bytes "stiffness") (pos 1) int32_max
    × Ranged fs (bytes "damping") (pos 0) int32_max
    × Ranged fs (bytes "mass-per-mille") (pos 1) int32_max

abbrev pub BezierRanges : Fields → Type 0
BezierRanges fs =
    AllRanged fs (bytes "x1" ∷ bytes "y1" ∷ bytes "x2" ∷ bytes "y2" ∷ []) (pos 0) (pos 1000)

-- The ranges of `ranged_animation`, by range.
abbrev pub RangedAnimations : Fields → Type 0
RangedAnimations fs =
    AllRanged fs
      (bytes "open-scale-per-mille"
        ∷ bytes "close-scale-per-mille"
        ∷ bytes "tag-scale-per-mille"
        ∷ [])
      (pos 500) (pos 1000)
    × AllRanged fs (bytes "open-offset-px" ∷ bytes "close-offset-px" ∷ []) (pos 0) (pos 4096)
    × AllRanged fs (bytes "tag-parallax-per-mille" ∷ bytes "tag-fade-per-mille" ∷ []) (pos 0)
        (pos 1000)
    × AllRanged fs
        (bytes "tag-duration-ms"
          ∷ bytes "overview-duration-ms"
          ∷ bytes "open-duration-ms"
          ∷ bytes "close-duration-ms"
          ∷ bytes "move-duration-ms"
          ∷ bytes "fade-duration-ms"
          ∷ [])
        (pos 0) (pos 10000)

abbrev pub AnimationRanges : Fields → Type 0
AnimationRanges fs =
    Ranged fs (bytes "duration-ms") (pos 0) int32_max
    × RangedAnimations fs
    × FieldIs (IsObject SpringRanges) (lookup_field (bytes "spring") fs)
    × FieldIs (IsObject BezierRanges) (lookup_field (bytes "cubic-bezier") fs)

abbrev pub IsDepth : Value → Type 0
IsDepth v = (v ≡ Value.integer (pos 8)) ⊎ (v ≡ Value.integer (pos 10))

abbrev pub OutputRanges : Fields → Type 0
OutputRanges fs =
    Ranged fs (bytes "scale-per-mille") (pos 250) (pos 8000)
    × FieldIs IsDepth (lookup_field (bytes "bit-depth") fs)

-- Each entry of `outputs` is an object with the integers of an output.
abbrev pub AllOutputs : Fields → Type 0
AllOutputs Fields.end = Unit
AllOutputs (Fields.field name v fs) = IsObject OutputRanges v × AllOutputs fs
