-- ===== src/Layout/Rect.antt =====
-- Rectangles of the layouts (zwwm-renderer's Rect) and the narrowing of coordinates. A coordinate is
-- an integer, a size a number.
use zwwm.Common.{ℕ, ◌-◌, ◌%◌, ◌≡◌, arith, true, ltb, if◌then◌else◌}
use zwwm.Common.Int.{ℤ, pos, negsuc}

pub record Rect : Type 0 where
  pub x : ℤ
  pub y : ℤ
  pub width : ℕ
  pub height : ℕ

pub record Placement : Type 0 where
  pub id : ℕ
  pub bounds : Rect

-- `static_cast<std::int32_t>` of a wider integer: its lowest 32 bits, read as signed.
abbrev signed : ℕ → ℤ
signed w = if ltb w 2147483648 then pos w else negsuc (4294967296 - w - 1)

unfoldable pub to_int32 : ℤ → ℤ
to_int32 (pos n) = signed (n % 4294967296)
to_int32 (negsuc n) = signed (4294967295 - n % 4294967296)

abbrev pub IsInt32 : ℤ → Type 0
IsInt32 (pos n) = ltb n 2147483648 ≡ true
IsInt32 (negsuc n) = ltb n 2147483648 ≡ true

pub to_int32_lem : (z : ℤ) → IsInt32 z → to_int32 z ≡ z
unfolding to_int32
to_int32_lem (pos n) h = ground arith
to_int32_lem (negsuc n) h = ground arith
