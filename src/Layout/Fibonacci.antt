-- ===== src/Layout/Fibonacci.antt =====
-- zwwm/src/layout/focus_fibonacci.cpp: a binary tree of splits, kept as the path of each leaf.
-- `false` is the first half of a split and `true` the second; the first split is a vertical line.
pub mod Collapse
pub mod Ids
pub mod Apart
pub mod Full
pub mod Grow
pub mod Boxes
pub mod Arrange
use zwwm.Common.{
  ℕ, zero, suc, ◌+◌, ◌-◌, ◌*◌, ◌/◌, ◌%◌, Bool, true, false, not, ◌&&◌, ◌||◌, Option, none, some,
  List, [], ◌∷◌, ◌++◌, ltb, leb, ◌==◌, if◌then◌else◌, length, take, map,
}
use Prim.Native.Nat.{min, max}
use zwwm.Common.Int.{ℤ, pos, negsuc, pos_part, ◌+ℤ◌, ◌-ℤ◌}
use zwwm.Layout.Rect.{Rect, Placement, to_int32}

pub record Leaf : Type 0 where
  pub id : ℕ
  pub path : List Bool

abbrev pub contains : ℕ → List ℕ → Bool
contains id [] = false
contains id (other ∷ rest) = other == id || contains id rest

-- `std::erase_if`: the leaves of windows that are gone.
unfoldable pub erase_gone : List ℕ → List Leaf → List Leaf
erase_gone window_ids [] = []
erase_gone window_ids (leaf ∷ leaves) =
    let kept = erase_gone window_ids leaves in
    if contains leaf.id window_ids then leaf ∷ kept else kept

abbrev pub same : Bool → Bool → Bool
same true b = b
same false b = not b

-- The bit and the rest behind `parent`, for a path that is longer than `parent` and begins with it.
unfoldable pub behind : List Bool → List Bool → Option (Bool × List Bool)
behind parent [] = none
behind [] (b ∷ rest) = some (b, rest)
behind (p ∷ parent) (b ∷ path) =
    let deeper = behind parent path in if same p b then deeper else none

abbrev is_branch : Bool → Option (Bool × List Bool) → Bool
is_branch b none = false
is_branch b (some (c, rest)) = same b c

-- Whether some leaf lies in this half below `parent`: the flags `first` and `second`.
unfoldable pub has_branch : Bool → List Bool → List Leaf → Bool
has_branch b parent [] = false
has_branch b parent (leaf ∷ leaves) =
    is_branch b (behind parent leaf.path) || has_branch b parent leaves

-- `leaf.path.erase(begin + depth - 1)` below `parent`.
unfoldable pub erase_bit : List Bool → List Bool → List Bool
unfolding behind
erase_bit parent path = elim (behind parent path) [ none ↦ path | some (b, rest) ↦ parent ++ rest ]

unfoldable pub collapse : List Bool → List Leaf → List Leaf
collapse parent = map (λ (leaf : Leaf). record leaf { path = erase_bit parent leaf.path })

unfoldable pub is_collapsible : List Bool → List Leaf → Bool
is_collapsible parent leaves =
    not (same (has_branch false parent leaves) (has_branch true parent leaves))

-- The loop over `depth`, from the leaf upwards; `depth` is one more than the parent's length.
unfoldable pub find_parent : ℕ → List Bool → List Leaf → Option (List Bool)
find_parent zero path leaves = none
find_parent (suc depth) path leaves =
    let higher = find_parent depth path leaves in
    if is_collapsible (take depth path) leaves then some (take depth path) else higher

-- The loop over the candidates.
unfoldable pub find_collapse : List Leaf → List Leaf → Option (List Bool)
find_collapse [] leaves = none
find_collapse (candidate ∷ candidates) leaves =
    elim (find_parent (length candidate.path) candidate.path leaves) [
      | some parent ↦ some parent
      | none ↦ find_collapse candidates leaves
    ]

-- The while loop: one collapse a round, until none is found. Each shortens a path.
unfoldable pub collapse_loop : ℕ → List Leaf → List Leaf
collapse_loop zero leaves = leaves
collapse_loop (suc fuel) leaves = elim (find_collapse leaves leaves) [
  | none ↦ leaves
  | some parent ↦ collapse_loop fuel (collapse parent leaves)
]

unfoldable pub total_depth : List Leaf → ℕ
total_depth [] = 0
total_depth (leaf ∷ leaves) = length leaf.path + total_depth leaves

-- A new leaf beside a target: the target gets the first half.
unfoldable pub split_focused : ℕ → ℕ → List Leaf → Option (List Leaf × Leaf)
split_focused focused_id id [] = none
split_focused focused_id id (leaf ∷ leaves) =
    if leaf.id == focused_id
    then some (
      record leaf { path = leaf.path ++ (false ∷ []) } ∷ leaves,
      record { id = id; path = leaf.path ++ (true ∷ []) },
    )
    else elim (split_focused focused_id id leaves) [
      | none ↦ none
      | some (others, new) ↦ some (leaf ∷ others, new)
    ]

unfoldable pub split_last : ℕ → Leaf → List Leaf → List Leaf
split_last id leaf [] =
    record leaf { path = leaf.path ++ (false ∷ []) }
    ∷ record { id = id; path = leaf.path ++ (true ∷ []) }
    ∷ []
split_last id leaf (next ∷ leaves) = leaf ∷ split_last id next leaves

unfoldable pub add_leaf : ℕ → ℕ → List Leaf → List Leaf
add_leaf focused_id id [] = record { id = id; path = [] } ∷ []
add_leaf focused_id id (leaf ∷ leaves) = elim (split_focused focused_id id (leaf ∷ leaves)) [
  | some (others, new) ↦ others ++ (new ∷ [])
  | none ↦ split_last id leaf leaves
]

abbrev pub has_leaf : ℕ → List Leaf → Bool
has_leaf id [] = false
has_leaf id (leaf ∷ leaves) = leaf.id == id || has_leaf id leaves

unfoldable pub add_missing : ℕ → List ℕ → List Leaf → List Leaf
add_missing focused_id [] leaves = leaves
add_missing focused_id (id ∷ ids) leaves =
    add_missing focused_id ids
      (if has_leaf id leaves then leaves else add_leaf focused_id id leaves)

unfoldable pub reconcile_fibonacci_leaves : List ℕ → ℕ → List Leaf → List Leaf
reconcile_fibonacci_leaves window_ids focused_id leaves =
    let kept = erase_gone window_ids leaves in
    add_missing focused_id window_ids (collapse_loop (total_depth kept) kept)

-- The part of the area that a path leads to. Its size is never negative, for any gaps.
pub record Box : Type 0 where
  pub x : ℤ
  pub y : ℤ
  pub w : ℕ
  pub h : ℕ

-- The gap of a split of `size`: `min(inner_gap, max(0, size - 2))`.
abbrev pub gap_of : ℤ → ℕ → ℤ
gap_of (pos inner_gap) size = pos (min inner_gap (size - 2))
gap_of (negsuc k) size = negsuc k

-- What a split leaves for the two halves: `size - gap`.
abbrev pub without_gap : ℤ → ℕ → ℕ
without_gap inner_gap size = pos_part (pos size -ℤ gap_of inner_gap size)

abbrev pub first_of_split : ℤ → ℕ → ℕ
first_of_split inner_gap size = without_gap inner_gap size / 2

unfoldable pub split_x : ℤ → Bool → Box → Box
split_x inner_gap second b =
    let first = first_of_split inner_gap b.w in
    if second
    then record b {
      x = b.x +ℤ (pos first +ℤ gap_of inner_gap b.w);
      w = without_gap inner_gap b.w - first;
    }
    else record b { w = first }

unfoldable pub split_y : ℤ → Bool → Box → Box
split_y inner_gap second b =
    let first = first_of_split inner_gap b.h in
    if second
    then record b {
      y = b.y +ℤ (pos first +ℤ gap_of inner_gap b.h);
      h = without_gap inner_gap b.h - first;
    }
    else record b { h = first }

-- The loop over the depth of a path.
unfoldable pub descend : ℤ → ℕ → List Bool → Box → Box
descend inner_gap depth [] b = b
descend inner_gap depth (second ∷ path) b =
    descend inner_gap (depth + 1) path
      (if depth % 2 == 0 then split_x inner_gap second b else split_y inner_gap second b)

-- `max(1, size - 2 * outer_gap)`.
abbrev pub usable_size : ℕ → ℤ → ℕ
usable_size size outer_gap = max 1 (pos_part (pos size -ℤ (outer_gap +ℤ outer_gap)))

-- The work area without the outer gap; it is one pixel wide and high at least.
unfoldable pub usable_box : Rect → ℤ → Box
usable_box work_area outer_gap = record {
  x = work_area.x +ℤ outer_gap;
  y = work_area.y +ℤ outer_gap;
  w = usable_size work_area.width outer_gap;
  h = usable_size work_area.height outer_gap;
}

-- Coordinates are narrowed to `std::int32_t`, sizes to `std::uint32_t`.
unfoldable pub placed : ℕ → Box → Placement
placed id b = record {
  id = id;
  bounds = record {
    x = to_int32 b.x;
    y = to_int32 b.y;
    width = max 1 b.w % 4294967296;
    height = max 1 b.h % 4294967296;
  };
}

unfoldable pub arrange_focus_fibonacci : List Leaf → Rect → ℤ → ℤ → List Placement
arrange_focus_fibonacci leaves work_area outer_gap inner_gap =
    map
      (λ (leaf : Leaf).
        placed leaf.id (descend inner_gap 0 leaf.path (usable_box work_area outer_gap)))
      leaves
