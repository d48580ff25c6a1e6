-- ===== src/Layout/Tests.antt =====
-- Runs of zwwm/src/layout on concrete inputs, and its theorems at such inputs.
use zwwm.Common.{
  ℕ, ◌+◌, ◌-◌, ◌*◌, ◌/◌, ◌≡◌, refl, arith, true, false, ◌&&◌, some, List, [], ◌∷◌, leb, length,
}
use Prim.Native.Nat.{max}
use zwwm.Common.Int.{pos, negsuc, ◌+ℤ◌, ◌-ℤ◌}
use zwwm.Layout.Rect.{Rect}
use zwwm.Layout.Fibonacci.{
  Leaf, contains, has_leaf, collapse_loop, total_depth, reconcile_fibonacci_leaves,
  arrange_focus_fibonacci, descend, split_x, split_y, usable_box,
}
use zwwm.Layout.Fibonacci.Full.{IsFull, ids, collapse_loop-IsFull}
use zwwm.Layout.Fibonacci.Ids.{has_leaf-reconcile}
use zwwm.Layout.Fibonacci.Apart.{Apart}
use zwwm.Layout.Fibonacci.Grow.{reconcile-Apart}
use zwwm.Layout.Fibonacci.Boxes.{FitsInt32}
use zwwm.Layout.Fibonacci.Arrange.{
  IsRoomy, AllInside, PairwiseDisjoint, arrange_focus_fibonacci_lem,
}
use zwwm.Layout.MasterStack
use zwwm.Layout.MasterStack.{Floats, gap_between, tile_vertically, arrange}
use zwwm.Layout.MasterStack.Tiles.{Stacked, IsArea, tile_vertically-Stacked}
use zwwm.Layout.MasterStack.Ids.{AllOrNone, arrange-AllOrNone}

-- Window 3 on the right; the left half is split for windows 1 and 2.
abbrev three : List Leaf
three =
    record { id = 1; path = false ∷ false ∷ [] }
    ∷ record { id = 2; path = false ∷ true ∷ [] }
    ∷ record { id = 3; path = true ∷ [] }
    ∷ []

-- Window 2 has gone, so the split of the left half is half empty.
abbrev half_empty : List Leaf
half_empty = record { id = 1; path = false ∷ false ∷ [] } ∷ record { id = 3; path = true ∷ [] } ∷ []

three-Apart : Apart three
three-Apart = ((refl, (refl, tt)), ((refl, tt), (tt, tt)))

half_empty-Apart : Apart half_empty
half_empty-Apart = ((refl, tt), (tt, tt))

collapse_loop-IsFull_example :
    IsFull
      (collapse_loop (total_depth half_empty) half_empty)
      (collapse_loop (total_depth half_empty) half_empty)
    × Apart (collapse_loop (total_depth half_empty) half_empty)
    × (ids (collapse_loop (total_depth half_empty) half_empty) ≡ ids half_empty)
collapse_loop-IsFull_example = collapse_loop-IsFull half_empty half_empty-Apart

has_leaf-reconcile_example :
    has_leaf 4 (reconcile_fibonacci_leaves (1 ∷ 3 ∷ 4 ∷ []) 3 three) ≡ contains 4 (1 ∷ 3 ∷ 4 ∷ [])
has_leaf-reconcile_example = has_leaf-reconcile (1 ∷ 3 ∷ 4 ∷ []) 3 three 4

reconcile-Apart_example : Apart (reconcile_fibonacci_leaves (1 ∷ 3 ∷ 4 ∷ []) 3 three)
reconcile-Apart_example = reconcile-Apart (1 ∷ 3 ∷ 4 ∷ []) 3 three three-Apart

abbrev screen : Rect
screen = record { x = negsuc 9; y = pos 20; width = 1920; height = 1080 }

screen-FitsInt32 : FitsInt32 (usable_box screen (pos 10))
unfolding usable_box ◌+ℤ◌ ◌-ℤ◌
screen-FitsInt32 = (refl, refl, refl, refl)

three-IsRoomy : IsRoomy (pos 6) (usable_box screen (pos 10)) three
unfolding usable_box ◌+ℤ◌ ◌-ℤ◌ descend split_x split_y
three-IsRoomy =
    (omega arith, omega arith, (omega arith, omega arith, (omega arith, omega arith, tt)))

arrange_focus_fibonacci_lem_example :
    AllInside (usable_box screen (pos 10)) (arrange_focus_fibonacci three screen (pos 10) (pos 6))
    × PairwiseDisjoint (arrange_focus_fibonacci three screen (pos 10) (pos 6))
arrange_focus_fibonacci_lem_example =
    arrange_focus_fibonacci_lem three screen (pos 10) (pos 6) (omega arith) three-Apart
      screen-FitsInt32 three-IsRoomy

-- Numbers of hundredths in place of floating-point numbers.
abbrev hundredths : Floats
hundredths = record {
  Float = ℕ;
  Double = ℕ;
  default_ratio = 60;
  one = 100;
  zero_double = 0;
  at_least_001 = max 1;
  add = λ total w. total + w;
  sub = λ total w. total - w;
  share = λ n w total. n * w / total;
  scale = λ n w. n * w / 100;
  is_ratio = λ w. leb 10 w && leb w 90;
}

screen-IsArea : IsArea screen
unfolding ◌+ℤ◌
screen-IsArea = (refl, refl, refl, omega arith, omega arith, omega arith)

tile_vertically-Stacked_example :
    (tiles : List Rect) × (tile_vertically hundredths screen 3 6 (200 ∷ []) ≡ some tiles)
    × (length tiles ≡ 3)
    × Stacked screen (gap_between 3 6 1080) (pos 20) tiles
tile_vertically-Stacked_example =
    tile_vertically-Stacked hundredths screen 3 6 (200 ∷ []) screen-IsArea (omega arith)
      (omega arith)

arrange-AllOrNone_example :
    AllOrNone
      (7 ∷ 8 ∷ 9 ∷ [])
      (arrange hundredths (MasterStack.make hundredths) (7 ∷ 8 ∷ 9 ∷ []) screen (200 ∷ []))
arrange-AllOrNone_example =
    arrange-AllOrNone hundredths (MasterStack.make hundredths) (7 ∷ 8 ∷ 9 ∷ []) screen (200 ∷ [])
