-- ===== src/Layout/Fibonacci/Arrange.antt =====
-- What arrange_focus_fibonacci puts on the screen.
use mathlib.Core.Path.{subst}
use zwwm.Common.{ℕ, ◌≤◌, ◌≡◌, sym, arith, Bool, List, [], ◌∷◌, map}
use zwwm.Common.Int.{ℤ, pos, negsuc, ◌≤ℤ◌}
use zwwm.Layout.Rect.{Rect, Placement}
use zwwm.Layout.Fibonacci.{Leaf, Box, descend, usable_box, placed, arrange_focus_fibonacci}
use zwwm.Layout.Fibonacci.Apart.{AllDiverge, Apart}
use zwwm.Layout.Fibonacci.Boxes.{
  Inside, Disjoint, FitsInt32, shown, shown-placed, descend-Inside, descend-Disjoint,
}

-- Every leaf's box is a pixel wide and high at least.
abbrev pub IsRoomy : ℤ → Box → List Leaf → Type 0
IsRoomy inner_gap area [] = Unit
IsRoomy inner_gap area (leaf ∷ leaves) =
    (1 ≤ (descend inner_gap 0 leaf.path area).w)
    × (1 ≤ (descend inner_gap 0 leaf.path area).h)
    × IsRoomy inner_gap area leaves

abbrev pub AllInside : Box → List Placement → Type 0
AllInside area [] = Unit
AllInside area (p ∷ ps) = Inside (shown p) area × AllInside area ps

abbrev pub AllDisjoint : Box → List Placement → Type 0
AllDisjoint b [] = Unit
AllDisjoint b (p ∷ ps) = Disjoint b (shown p) × AllDisjoint b ps

abbrev pub PairwiseDisjoint : List Placement → Type 0
PairwiseDisjoint [] = Unit
PairwiseDisjoint (p ∷ ps) = AllDisjoint (shown p) ps × PairwiseDisjoint ps

abbrev place_all : ℕ → Box → List Leaf → List Placement
place_all inner_gap area =
    map (λ (leaf : Leaf). placed leaf.id (descend (pos inner_gap) 0 leaf.path area))

shown-place :
    (inner_gap : ℕ) (area : Box) (leaf : Leaf)
    → FitsInt32 area
    → 1 ≤ (descend (pos inner_gap) 0 leaf.path area).w
    → 1 ≤ (descend (pos inner_gap) 0 leaf.path area).h
    → shown (placed leaf.id (descend (pos inner_gap) 0 leaf.path area))
      ≡ descend (pos inner_gap) 0 leaf.path area
shown-place inner_gap area leaf f w h =
    shown-placed leaf.id (descend (pos inner_gap) 0 leaf.path area) area f
      (descend-Inside inner_gap 0 leaf.path area) w h

place_all-AllInside :
    (inner_gap : ℕ) (area : Box) (leaves : List Leaf)
    → FitsInt32 area
    → IsRoomy (pos inner_gap) area leaves
    → AllInside area (place_all inner_gap area leaves)
place_all-AllInside inner_gap area [] f r = tt
place_all-AllInside inner_gap area (leaf ∷ leaves) f (w, h, r) = (
  subst (λ b. Inside b area) (sym (shown-place inner_gap area leaf f w h))
      (descend-Inside inner_gap 0 leaf.path area),
  place_all-AllInside inner_gap area leaves f r,
)

place_all-AllDisjoint :
    (inner_gap : ℕ) (area : Box) (path : List Bool) (leaves : List Leaf)
    → FitsInt32 area
    → IsRoomy (pos inner_gap) area leaves
    → AllDiverge path leaves
    → AllDisjoint (descend (pos inner_gap) 0 path area) (place_all inner_gap area leaves)
place_all-AllDisjoint inner_gap area path [] f r d = tt
place_all-AllDisjoint inner_gap area path (leaf ∷ leaves) f (w, h, r) d = (
  subst (λ b. Disjoint (descend (pos inner_gap) 0 path area) b)
      (sym (shown-place inner_gap area leaf f w h))
      (descend-Disjoint inner_gap 0 path leaf.path area d.0),
  place_all-AllDisjoint inner_gap area path leaves f r d.1,
)

place_all-PairwiseDisjoint :
    (inner_gap : ℕ) (area : Box) (leaves : List Leaf)
    → FitsInt32 area
    → IsRoomy (pos inner_gap) area leaves
    → Apart leaves
    → PairwiseDisjoint (place_all inner_gap area leaves)
place_all-PairwiseDisjoint inner_gap area [] f r a = tt
place_all-PairwiseDisjoint inner_gap area (leaf ∷ leaves) f (w, h, r) a = (
  subst (λ b. AllDisjoint b (place_all inner_gap area leaves))
      (sym (shown-place inner_gap area leaf f w h))
      (place_all-AllDisjoint inner_gap area leaf.path leaves f r a.0),
  place_all-PairwiseDisjoint inner_gap area leaves f r a.1,
)

-- If the inner gap is not negative, no leaf's path begins with another's, the edges of the usable area
-- are 32-bit coordinates, and each leaf's part of it has at least one pixel, then the windows stand
-- inside the usable area and no two overlap.
pub arrange_focus_fibonacci_lem :
    (leaves : List Leaf) (work_area : Rect) (outer_gap inner_gap : ℤ)
    → pos 0 ≤ℤ inner_gap
    → Apart leaves
    → FitsInt32 (usable_box work_area outer_gap)
    → IsRoomy inner_gap (usable_box work_area outer_gap) leaves
    → let placements = arrange_focus_fibonacci leaves work_area outer_gap inner_gap in
      AllInside (usable_box work_area outer_gap) placements × PairwiseDisjoint placements
unfolding arrange_focus_fibonacci
arrange_focus_fibonacci_lem leaves work_area outer_gap (pos inner_gap) positive a f r = (
  place_all-AllInside inner_gap (usable_box work_area outer_gap) leaves f r,
  place_all-PairwiseDisjoint inner_gap (usable_box work_area outer_gap) leaves f r a,
)
arrange_focus_fibonacci_lem leaves work_area outer_gap (negsuc k) positive a f r =
    absurd (omega (arith, positive))
