-- ===== src/Layout/MasterStack.antt =====
-- zwwm/src/layout/master_stack.cpp: a column of master windows beside a column of the others.
-- The arithmetic on float and double is a parameter.
pub mod Tiles
pub mod Ids
use zwwm.Common.{
  ℕ, zero, suc, ◌+◌, ◌-◌, ◌*◌, ◌/◌, Bool, true, false, not, ◌&&◌, ◌||◌, Option, none, some, List,
  [], ◌∷◌, ◌++◌, ltb, leb, ◌==◌, if◌then◌else◌, length, drop,
}
use Prim.Native.Nat.{min}
use zwwm.Common.Int.{ℤ, pos, negsuc, ◌+ℤ◌, ◌-ℤ◌, pos_part}
use zwwm.Layout.Rect.{Rect, Placement, to_int32}

-- The operations on floating-point numbers that the file uses.
pub record Floats : Type 1 where
  pub Float : Type 0
  pub Double : Type 0
  -- `0.6F`, `1.0F` and `0.0`.
  pub default_ratio : Float
  pub one : Float
  pub zero_double : Double
  -- `std::max(0.01F, w)`.
  pub at_least_001 : Float → Float
  -- `total += w` and `total -= w`.
  pub add : Double → Float → Double
  pub sub : Double → Float → Double
  -- `static_cast<std::uint64_t>(remaining * weight / weight_total)`.
  pub share : ℕ → Float → Double → ℕ
  -- `static_cast<std::uint64_t>(width * ratio)`.
  pub scale : ℕ → Float → ℕ
  -- `r >= kMinimumMasterRatio && r <= kMaximumMasterRatio`.
  pub is_ratio : Float → Bool

unfoldable pub fits_coordinate : ℤ → Bool
fits_coordinate (pos n) = ltb n 2147483648
fits_coordinate (negsuc n) = ltb n 2147483648

unfoldable pub make_rect : ℤ → ℤ → ℕ → ℕ → Option Rect
make_rect x y width height =
    if not (fits_coordinate x)
      || not (fits_coordinate y)
      || width == 0
      || height == 0
      || ltb 4294967295 width
      || ltb 4294967295 height
    then none
    else some record { x = to_int32 x; y = to_int32 y; width = width; height = height }

unfoldable pub inset : Rect → ℕ → Option Rect
inset area gap =
    if area.width == 0
      || area.height == 0
      || ltb ((area.width - 1) / 2) gap
      || ltb ((area.height - 1) / 2) gap
    then none
    else make_rect (area.x +ℤ pos gap) (area.y +ℤ pos gap) (area.width - 2 * gap)
        (area.height - 2 * gap)

infixl 5 ◌>>=◌
abbrev pub ◌>>=◌ : {A B : Type 0} → Option A → (A → Option B) → Option B
none >>= f = none
some a >>= f = f a

-- `std::clamp(v, low, high)`.
abbrev pub clamp : ℕ → ℕ → ℕ → ℕ
clamp v low high = if ltb v low then low else if ltb high v then high else v

abbrev pub gap_between : ℕ → ℕ → ℕ → ℕ
gap_between count inner_gap height =
    if count - 1 == 0 then 0 else min inner_gap ((height - count) / (count - 1))

-- The rest of the weights behind index.
abbrev pub rest_of : {A : Type 0} → List A → List A
rest_of [] = []
rest_of (w ∷ ws) = ws

-- A tile and those after it: none if one of them is not a rectangle.
abbrev pub cons_tile : Option Rect → Option (List Rect) → Option (List Rect)
cons_tile none rest = none
cons_tile (some tile) none = none
cons_tile (some tile) (some tiles) = some (tile ∷ tiles)

module _ (F : Floats) where
  unfoldable pub weight_at : List F.Float → F.Float
  weight_at [] = F.one
  weight_at (w ∷ ws) = F.at_least_001 w

  unfoldable pub weight_total : ℕ → List F.Float → F.Double → F.Double
  weight_total zero weights total = total
  weight_total (suc left) weights total =
      weight_total left (rest_of weights) (F.add total (weight_at weights))

  abbrev pub tile_height : ℕ → ℕ → ℕ → F.Float → F.Double → ℕ
  tile_height left content_height used weight total =
      if left == 0
      then content_height - used
      else clamp (F.share (content_height - used) weight total) 1 (content_height - used - left)

  -- The loop over the tiles; `left` of them come after this one.
  unfoldable pub tile_loop : ℕ → Rect → ℕ → ℕ → ℕ → List F.Float → F.Double → ℤ → Option (List Rect)
  tile_loop zero area gap content_height index weights total y = some []
  tile_loop (suc left) area gap content_height index weights total y =
      let used = pos_part (y -ℤ area.y) - gap * index in
      let height = tile_height left content_height used (weight_at weights) total in
      cons_tile (make_rect area.x y area.width height) (
        tile_loop left area gap content_height (index + 1) (rest_of weights)
          (F.sub total (weight_at weights)) (y +ℤ pos (height + gap)))

  unfoldable pub tile_vertically : Rect → ℕ → ℕ → List F.Float → Option (List Rect)
  tile_vertically area count inner_gap weights =
      let gap = gap_between count inner_gap area.height in
      if count == 0
      then some []
      else if area.width == 0 || ltb area.height count
      then none
      else tile_loop count area gap (area.height - gap * (count - 1)) 0 weights
          (weight_total count weights F.zero_double) area.y

  pub record MasterStack : Type 0 where
    pub master_count : ℕ
    pub master_ratio : F.Float
    pub outer_gap : ℕ
    pub inner_gap : ℕ

  unfoldable pub make : MasterStack
  make = record { master_count = 1; master_ratio = F.default_ratio; outer_gap = 0; inner_gap = 0 }

  -- The setters answer whether they took the value.
  unfoldable pub set_master_count : ℕ → MasterStack → Bool × MasterStack
  set_master_count n s = if n == 0 then (false, s) else (true, record s { master_count = n })

  unfoldable pub set_master_ratio : F.Float → MasterStack → Bool × MasterStack
  set_master_ratio r s = if F.is_ratio r then (true, record s { master_ratio = r }) else (false, s)

  unfoldable pub set_outer_gap : ℤ → MasterStack → Bool × MasterStack
  set_outer_gap (pos n) s = (true, record s { outer_gap = n })
  set_outer_gap (negsuc n) s = (false, s)

  unfoldable pub set_inner_gap : ℤ → MasterStack → Bool × MasterStack
  set_inner_gap (pos n) s = (true, record s { inner_gap = n })
  set_inner_gap (negsuc n) s = (false, s)

  unfoldable pub place : List ℕ → List Rect → List Placement
  place (id ∷ ids) (tile ∷ tiles) = record { id = id; bounds = tile } ∷ place ids tiles
  place ids tiles = []

  -- The tiles of both columns, if both areas are rectangles.
  unfoldable pub tile_columns :
      MasterStack → ℕ → Option Rect → Option Rect → List F.Float → Option (List Rect × List Rect)
  tile_columns s stacked (some master_area) (some stack_area) weights = do
    masters ← tile_vertically master_area s.master_count s.inner_gap weights
    others ← tile_vertically stack_area stacked s.inner_gap (drop s.master_count weights)
    some (masters, others)
  tile_columns s stacked none stack_area weights = none
  tile_columns s stacked (some master_area) none weights = none

  -- The two columns, each a list of tiles.
  unfoldable pub columns : MasterStack → ℕ → Rect → List F.Float → Option (List Rect × List Rect)
  columns s stacked area weights =
      let column_gap = min s.inner_gap (area.width - 2) in
      let distributable = area.width - column_gap in
      let master_width = clamp (F.scale distributable s.master_ratio) 1 (distributable - 1) in
      if ltb area.width 2
      then none
      else tile_columns s stacked (make_rect area.x area.y master_width area.height)
          (make_rect (area.x +ℤ pos (master_width + column_gap)) area.y
            (distributable - master_width) area.height)
          weights

  unfoldable pub arrange : MasterStack → List ℕ → Rect → List F.Float → List Placement
  arrange s window_ids work_area weights = elim (inset work_area s.outer_gap) [
    | none ↦ []
    | some area ↦
        if leb (length window_ids) s.master_count
        then elim (tile_vertically area (length window_ids) s.inner_gap weights) [
          | none ↦ []
          | some masters ↦ place window_ids masters
        ]
        else elim (columns s (length window_ids - s.master_count) area weights) [
          | none ↦ []
          | some (masters, others) ↦
              place window_ids masters ++ place (drop s.master_count window_ids) others
        ]
  ]
