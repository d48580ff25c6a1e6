-- ===== src/Layout/Fibonacci/Boxes.antt =====
-- The rectangles of arrange_focus_fibonacci: containment and overlap.
use zwwm.Common.{
  ℕ, ◌+◌, ◌-◌, ◌≤◌, ◌<◌, ◌≡◌, arith, Bool, true, false, List, [], ◌∷◌, ◌⊎◌, inl, inr, Bool-cases,
  ◌==◌, if◌then◌else◌, ◌%◌,
}
use Prim.Native.Nat.{min, max}
use zwwm.Common.Int.{ℤ, pos, negsuc, pos_part, neg_part, ◌+ℤ◌, ◌-ℤ◌, ◌≤ℤ◌, int_laws}
use zwwm.Layout.Rect.{Placement, IsInt32, to_int32_lem}
use zwwm.Layout.Fibonacci.{Box, without_gap, split_x, split_y, descend, placed}
use zwwm.Layout.Fibonacci.Apart.{diverge}

abbrev pub Inside : Box → Box → Type 0
Inside a b =
    (b.x ≤ℤ a.x)
    × (a.x +ℤ pos a.w ≤ℤ b.x +ℤ pos b.w)
    × (b.y ≤ℤ a.y)
    × (a.y +ℤ pos a.h ≤ℤ b.y +ℤ pos b.h)

-- One is left of, right of, above or below the other.
abbrev pub Disjoint : Box → Box → Type 0
Disjoint a b =
    ((a.x +ℤ pos a.w ≤ℤ b.x) ⊎ (b.x +ℤ pos b.w ≤ℤ a.x))
    ⊎ ((a.y +ℤ pos a.h ≤ℤ b.y) ⊎ (b.y +ℤ pos b.h ≤ℤ a.y))

-- What is left without a gap that is not negative.
without_gap_lem :
    (inner_gap size : ℕ) → without_gap (pos inner_gap) size ≡ size - min inner_gap (size - 2)
unfolding ◌-ℤ◌
without_gap_lem inner_gap size = ground arith

Inside-trans : (a b c : Box) → Inside a b → Inside b c → Inside a c
Inside-trans a b c h k = omega (arith, h, k)

split_x-Inside :
    (inner_gap : ℕ) (second : Bool) (b : Box) → Inside (split_x (pos inner_gap) second b) b
unfolding split_x
split_x-Inside inner_gap false b = omega (int_laws, without_gap_lem inner_gap b.w)
split_x-Inside inner_gap true b = omega (int_laws, without_gap_lem inner_gap b.w)

split_y-Inside :
    (inner_gap : ℕ) (second : Bool) (b : Box) → Inside (split_y (pos inner_gap) second b) b
unfolding split_y
split_y-Inside inner_gap false b = omega (int_laws, without_gap_lem inner_gap b.h)
split_y-Inside inner_gap true b = omega (int_laws, without_gap_lem inner_gap b.h)

abbrev half : ℕ → ℕ → Bool → Box → Box
half inner_gap depth second b =
    if depth % 2 == 0 then split_x (pos inner_gap) second b else split_y (pos inner_gap) second b

half-Inside :
    (inner_gap depth : ℕ) (second : Bool) (b : Box) → Inside (half inner_gap depth second b) b
half-Inside inner_gap depth second b = elim (Bool-cases (depth % 2 == 0)) [
  | inl e ↦ rw e (split_x-Inside inner_gap second b)
  | inr e ↦ rw e (split_y-Inside inner_gap second b)
]

pub descend-Inside :
    (inner_gap depth : ℕ) (path : List Bool) (b : Box)
    → Inside (descend (pos inner_gap) depth path b) b
unfolding descend
descend-Inside inner_gap depth [] b = omega arith
descend-Inside inner_gap depth (second ∷ path) b =
    Inside-trans (descend (pos inner_gap) (depth + 1) path (half inner_gap depth second b))
      (half inner_gap depth second b) b
      (descend-Inside inner_gap (depth + 1) path (half inner_gap depth second b))
      (half-Inside inner_gap depth second b)

Disjoint-sym : (a b : Box) → Disjoint a b → Disjoint b a
Disjoint-sym a b h = omega (arith, h)

halves_x :
    (inner_gap : ℕ) (b : Box)
    → Disjoint (split_x (pos inner_gap) false b) (split_x (pos inner_gap) true b)
unfolding split_x
halves_x inner_gap b = omega (int_laws, without_gap_lem inner_gap b.w)

halves_y :
    (inner_gap : ℕ) (b : Box)
    → Disjoint (split_y (pos inner_gap) false b) (split_y (pos inner_gap) true b)
unfolding split_y
halves_y inner_gap b = omega (int_laws, without_gap_lem inner_gap b.h)

-- Boxes inside of disjoint boxes are disjoint.
Disjoint-Inside : (a b c d : Box) → Inside a c → Inside b d → Disjoint c d → Disjoint a b
Disjoint-Inside a b c d h k (inl (inl e)) = inl (inl (omega (arith, h, k, e)))
Disjoint-Inside a b c d h k (inl (inr e)) = inl (inr (omega (int_laws, h, k, e)))
Disjoint-Inside a b c d h k (inr (inl e)) = inr (inl (omega (int_laws, h, k, e)))
Disjoint-Inside a b c d h k (inr (inr e)) = inr (inr (omega (int_laws, h, k, e)))

halves :
    (inner_gap depth : ℕ) (b : Box)
    → Disjoint (half inner_gap depth false b) (half inner_gap depth true b)
halves inner_gap depth b = elim (Bool-cases (depth % 2 == 0)) [
  | inl e ↦ rw e (halves_x inner_gap b)
  | inr e ↦ rw e (halves_y inner_gap b)
]

-- Where the paths part, the boxes do.
pub descend-Disjoint :
    (inner_gap depth : ℕ) (p q : List Bool) (b : Box)
    → diverge p q ≡ true
    → Disjoint (descend (pos inner_gap) depth p b) (descend (pos inner_gap) depth q b)
unfolding descend
descend-Disjoint inner_gap depth [] q b h = cc
descend-Disjoint inner_gap depth (s ∷ p) [] b h = cc
descend-Disjoint inner_gap depth (false ∷ p) (false ∷ q) b h =
    descend-Disjoint inner_gap (depth + 1) p q (half inner_gap depth false b) h
descend-Disjoint inner_gap depth (true ∷ p) (true ∷ q) b h =
    descend-Disjoint inner_gap (depth + 1) p q (half inner_gap depth true b) h
descend-Disjoint inner_gap depth (false ∷ p) (true ∷ q) b h =
    Disjoint-Inside (descend (pos inner_gap) (depth + 1) p (half inner_gap depth false b))
      (descend (pos inner_gap) (depth + 1) q (half inner_gap depth true b))
      (half inner_gap depth false b) (half inner_gap depth true b)
      (descend-Inside inner_gap (depth + 1) p (half inner_gap depth false b))
      (descend-Inside inner_gap (depth + 1) q (half inner_gap depth true b))
      (halves inner_gap depth b)
descend-Disjoint inner_gap depth (true ∷ p) (false ∷ q) b h =
    Disjoint-Inside (descend (pos inner_gap) (depth + 1) p (half inner_gap depth true b))
      (descend (pos inner_gap) (depth + 1) q (half inner_gap depth false b))
      (half inner_gap depth true b) (half inner_gap depth false b)
      (descend-Inside inner_gap (depth + 1) p (half inner_gap depth true b))
      (descend-Inside inner_gap (depth + 1) q (half inner_gap depth false b))
      (Disjoint-sym (half inner_gap depth false b) (half inner_gap depth true b)
        (halves inner_gap depth b))

-- A box of the usable area can be given in 32-bit coordinates.
abbrev pub FitsInt32 : Box → Type 0
FitsInt32 b = IsInt32 b.x × IsInt32 (b.x +ℤ pos b.w) × IsInt32 b.y × IsInt32 (b.y +ℤ pos b.h)

between-IsInt32 : (a z b : ℤ) → IsInt32 a → IsInt32 b → a ≤ℤ z → z ≤ℤ b → IsInt32 z
between-IsInt32 (pos k) (pos m) (pos n) ha hb h1 h2 = ground arith
between-IsInt32 (pos k) (pos m) (negsuc n) ha hb h1 h2 = ground arith
between-IsInt32 (pos k) (negsuc m) b ha hb h1 h2 = ground arith
between-IsInt32 (negsuc k) (pos m) (pos n) ha hb h1 h2 = ground arith
between-IsInt32 (negsuc k) (pos m) (negsuc n) ha hb h1 h2 = ground arith
between-IsInt32 (negsuc k) (negsuc m) b ha hb h1 h2 = ground arith

-- The box that a placement shows.
abbrev pub shown : Placement → Box
shown p = record { x = p.bounds.x; y = p.bounds.y; w = p.bounds.width; h = p.bounds.height }

small_lem :
    (x : ℤ) (w : ℕ) (lower : ℤ) (outer : ℕ)
    → IsInt32 lower
    → IsInt32 (lower +ℤ pos outer)
    → lower ≤ℤ x
    → x +ℤ pos w ≤ℤ lower +ℤ pos outer
    → w < 4294967296
small_lem x w lower outer h k a b =
    omega (int_laws, int32_lower lower h, int32_upper (lower +ℤ pos outer) k)
  where
    int32_lower : (z : ℤ) → IsInt32 z → neg_part z ≤ 2147483648
    int32_lower (pos n) h = omega arith
    int32_lower (negsuc n) h = ground arith

    int32_upper : (z : ℤ) → IsInt32 z → pos_part z < 2147483648
    int32_upper (pos n) h = ground arith
    int32_upper (negsuc n) h = omega arith

size_lem : (n : ℕ) → 1 ≤ n → n < 4294967296 → max 1 n % 4294967296 ≡ n
size_lem n h k = ground arith

-- A box of at least one pixel inside a box of 32-bit coordinates is shown as it is.
pub shown-placed :
    (id : ℕ) (b outer : Box)
    → FitsInt32 outer
    → Inside b outer
    → 1 ≤ b.w
    → 1 ≤ b.h
    → shown (placed id b) ≡ b
unfolding placed
shown-placed id b outer f i w h = rw (
  to_int32_lem b.x
      (between-IsInt32 outer.x b.x (outer.x +ℤ pos outer.w) f.0 f.1 i.0 (omega (int_laws, i))),
  to_int32_lem b.y
      (between-IsInt32 outer.y b.y (outer.y +ℤ pos outer.h) f.2 f.3 i.2 (omega (int_laws, i))),
  size_lem b.w w (small_lem b.x b.w outer.x outer.w f.0 f.1 i.0 i.1),
  size_lem b.h h (small_lem b.y b.h outer.y outer.h f.2 f.3 i.2 i.3),
)
