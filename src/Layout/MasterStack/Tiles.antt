-- ===== src/Layout/MasterStack/Tiles.antt =====
-- The tiles of tile_vertically, from the top of a column to its bottom.
use Prim.Native.Nat.{min}
use native.Mathlib.Nat.{div-add-mod', mul-le-mul_right}
use mathlib.Core.Path.{subst}
use zwwm.Common.{
  ℕ, zero, suc, ◌+◌, ◌-◌, ◌*◌, ◌/◌, ◌≤◌, ◌≡◌, refl, sym, ap, ◌∙◌, arith, true, some, List, [], ◌∷◌,
  ◌==◌, if◌then◌else◌, Bool-cases, inl, inr, length,
}
use zwwm.Common.Int.{ℤ, pos, negsuc, ◌+ℤ◌, ◌-ℤ◌, pos_part, +ℤ_comm, +ℤ_cancel, int_laws}
use zwwm.Layout.Rect.{Rect, IsInt32, to_int32_lem}
use zwwm.Layout.MasterStack.{
  Floats, fits_coordinate, make_rect, clamp, cons_tile, tile_loop, tile_height, tile_vertically,
  weight_at, rest_of, weight_total, gap_between,
}

-- Tiles of at least one pixel from y down, as wide as the area, with the gap between them; the last
-- one ends at the bottom of the area.
abbrev pub Stacked : Rect → ℕ → ℤ → List Rect → Type 0
Stacked area gap y [] = y ≡ area.y +ℤ pos (area.height + gap)
Stacked area gap y (tile ∷ tiles) =
    (tile.x ≡ area.x)
    × (tile.y ≡ y)
    × (tile.width ≡ area.width)
    × (1 ≤ tile.height)
    × Stacked area gap (y +ℤ pos (tile.height + gap)) tiles

-- The sides of a rectangle are 32-bit coordinates and its size 32-bit numbers.
abbrev pub IsArea : Rect → Type 0
IsArea area =
    IsInt32 area.x
    × IsInt32 area.y
    × IsInt32 (area.y +ℤ pos area.height)
    × (1 ≤ area.width)
    × (area.width ≤ 4294967295)
    × (area.height ≤ 4294967295)

between_fits :
    (y z : ℤ) (o h : ℕ) → IsInt32 y → IsInt32 (y +ℤ pos h) → z ≡ y +ℤ pos o → o ≤ h → IsInt32 z
unfolding ◌+ℤ◌
between_fits (pos n) z o h a b e l = ground arith
between_fits (negsuc n) z o h a b e l = ground arith

fits_lem : (z : ℤ) → IsInt32 z → fits_coordinate z ≡ true
unfolding fits_coordinate
fits_lem (pos n) h = h
fits_lem (negsuc n) h = h

make_rect_lem :
    (x y : ℤ) (w h : ℕ)
    → IsInt32 x
    → IsInt32 y
    → 1 ≤ w
    → w ≤ 4294967295
    → 1 ≤ h
    → h ≤ 4294967295
    → make_rect x y w h ≡ some record { x = x; y = y; width = w; height = h }
unfolding make_rect
make_rect_lem x y w h ix iy w1 w2 h1 h2 =
    rw (fits_lem x ix, fits_lem y iy, to_int32_lem x ix, to_int32_lem y iy) (ground arith)

-- What a tile may take: at least a pixel, and it leaves one for each tile below.
tile_height_lem :
    (left content used share : ℕ)
    → used + suc left ≤ content
    → let h = if left == 0 then content - used else clamp share 1 (content - used - left) in
      (1 ≤ h) × (used + h + left ≤ content) × (left ≡ 0 → used + h ≡ content)
tile_height_lem left content used share h = ground arith

offset_lem : (top : ℤ) (n : ℕ) → pos_part (top +ℤ pos n -ℤ top) ≡ n
offset_lem top n =
    ap (λ z. pos_part (z -ℤ top)) (+ℤ_comm top (pos n)) ∙ ap pos_part (+ℤ_cancel (pos n) top)

-- What the loop takes as used.
used_lem :
    (y top : ℤ) (above used : ℕ)
    → y ≡ top +ℤ pos (used + above)
    → pos_part (y -ℤ top) - above ≡ used
used_lem y top above used e = rw (e, offset_lem top (used + above)) (omega arith)

next_lem : (y top : ℤ) (o n : ℕ) → y ≡ top +ℤ pos o → y +ℤ pos n ≡ top +ℤ pos (o + n)
next_lem y top o n e = rw e (omega int_laws)

-- One more tile and one more gap.
next_top : (gap index used h : ℕ) → used + gap * index + (h + gap) ≡ used + h + gap * (index + 1)
next_top gap index used h = omega arith

top_fits :
    (gap index left used content height : ℕ)
    → used + suc left ≤ content
    → content + gap * (index + suc left) ≡ height + gap
    → used + gap * index ≤ height
top_fits gap index left used content height fit size = omega (arith, fit, size)

module _ (F : Floats) (area : Rect) (is_area : IsArea area) (gap content : ℕ) where
  tile_loop-Stacked :
      (left index used : ℕ) (weights : List F.Float) (total : F.Double) (y : ℤ)
      → y ≡ area.y +ℤ pos (used + gap * index)
      → used + left ≤ content
      → (left ≡ 0 → used ≡ content)
      → content + gap * (index + left) ≡ area.height + gap
      → (tiles : List Rect) × (tile_loop F left area gap content index weights total y ≡ some tiles)
        × (length tiles ≡ left)
        × Stacked area gap y tiles
  unfolding tile_loop
  tile_loop-Stacked zero index used weights total y e fit full size =
      ([], refl, refl, e ∙ ap (λ n. area.y +ℤ pos n) (omega (arith, full refl, size)))
  tile_loop-Stacked (suc left) index used weights total y e fit full size =
      let h = tile_height F left content used (weight_at F weights) total in
      let (tall, leaves_room, last) =
        tile_height_lem left content used (F.share (content - used) (weight_at F weights) total)
          fit in
      let (area_x, area_y, bottom, w1, w2, h2) = is_area in
      let (tiles, found, many, stacked) =
        tile_loop-Stacked left (index + 1) (used + h) (rest_of weights)
          (F.sub total (weight_at F weights)) (y +ℤ pos (h + gap))
          (next_lem y area.y (used + gap * index) (h + gap) e
            ∙ ap (λ n. area.y +ℤ pos n) (next_top gap index used h))
          leaves_room last (omega (arith, size)) in
      let below = top_fits gap index left used content area.height fit size in
      let tile =
        make_rect_lem area.x y area.width h area_x
          (between_fits area.y y (used + gap * index) area.height area_y bottom e below) w1 w2 tall
          (omega (arith, leaves_room, size, h2)) in
      (
        record { x = area.x; y = y; width = area.width; height = h } ∷ tiles,
        subst
            (λ u.
              cons_tile
                (make_rect area.x y area.width
                  (tile_height F left content u (weight_at F weights) total))
                (tile_loop F left area gap content (index + 1) (rest_of weights)
                  (F.sub total (weight_at F weights))
                  (y +ℤ pos (tile_height F left content u (weight_at F weights) total + gap)))
              ≡ some (record { x = area.x; y = y; width = area.width; height = h } ∷ tiles))
            (sym (used_lem y area.y (gap * index) used e)) (rw (tile, found)),
        ap suc many,
        (refl, refl, refl, tall, stacked),
      )

quotient_fits : (g a d : ℕ) → g ≤ a / d → g * d ≤ a
quotient_fits g a d h = omega (arith, mul-le-mul_right d h, div-add-mod' a d)

gap_fits :
    (count inner_gap height : ℕ)
    → count ≤ height
    → gap_between count inner_gap height * (count - 1) + count ≤ height
gap_fits count inner_gap height h = elim (Bool-cases (count - 1 == 0)) [
  | inl e ↦ rw e (omega (arith, h))
  | inr e ↦ rw e (
      omega (
        arith,
        h,
        quotient_fits (min inner_gap ((height - count) / (count - 1))) (height - count) (count - 1)
            (omega arith),
      ))
]

sizes :
    (gap count height : ℕ)
    → gap * (count - 1) + count ≤ height
    → 1 ≤ count
    → height - gap * (count - 1) + gap * (0 + count) ≡ height + gap
sizes gap count height room h = omega (arith, room, spread)
  where
    one_more : 0 + count ≡ count - 1 + 1
    one_more = omega (arith, h)

    spread : gap * (0 + count) ≡ gap * (count - 1) + gap
    spread = rw one_more (omega arith)

-- For any weights and any rounding of the shares: an area of 32-bit coordinates that has a pixel for
-- each tile is filled by exactly as many tiles as asked for, one at least, from its top to its
-- bottom, each as wide as the area and with the gap to the next.
pub tile_vertically-Stacked :
    (F : Floats) (area : Rect) (count inner_gap : ℕ) (weights : List F.Float)
    → IsArea area
    → 1 ≤ count
    → count ≤ area.height
    → (tiles : List Rect) × (tile_vertically F area count inner_gap weights ≡ some tiles)
      × (length tiles ≡ count)
      × Stacked area (gap_between count inner_gap area.height) area.y tiles
unfolding tile_vertically
tile_vertically-Stacked F area count inner_gap weights is_area some_tile fits =
    let gap = gap_between count inner_gap area.height in
    let room = gap_fits count inner_gap area.height fits in
    let (tiles, found, many, stacked) =
      tile_loop-Stacked F area is_area gap (area.height - gap * (count - 1)) count 0 0 weights
        (weight_total F count weights F.zero_double) area.y (omega int_laws) (omega (arith, room))
        (λ none_left. absurd (omega (arith, none_left, some_tile)))
        (sizes gap count area.height room some_tile) in
    (tiles, ground (arith, found), many, stacked)
