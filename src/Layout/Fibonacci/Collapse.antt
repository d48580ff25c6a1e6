-- ===== src/Layout/Fibonacci/Collapse.antt =====
-- The while loop of reconcile_fibonacci_leaves.
use zwwm.Common.{
  ℕ, zero, suc, ◌+◌, ◌≤◌, ◌<◌, ◌≡◌, arith, Bool, true, false, none, some, List, [], ◌∷◌, length,
  Bool-cases, Option-cases, inl, inr, length-append,
}
use zwwm.Layout.Fibonacci.{
  Leaf, behind, is_branch, has_branch, erase_bit, collapse, is_collapsible, find_parent,
  find_collapse, collapse_loop, total_depth,
}

pub behind-length :
    (parent path : List Bool) (b : Bool) (rest : List Bool)
    → behind parent path ≡ some (b, rest)
    → length path ≡ length parent + 1 + length rest
unfolding behind
behind-length parent [] b rest e = cc
behind-length [] (c ∷ path) b rest e = ground arith
behind-length (p ∷ parent) (c ∷ path) b rest e = ground (arith, behind-length parent path b rest)

-- Erasing a bit shortens the paths behind `parent` by one, and leaves the others.
erase_bit_le : (parent path : List Bool) → length (erase_bit parent path) ≤ length path
unfolding erase_bit
erase_bit_le parent path = elim (Option-cases (behind parent path)) [
  | inl e ↦ rw (e, erase_bit) (omega arith)
  | inr ((b, rest), e) ↦
      rw (e, erase_bit)
        (omega (arith, behind-length parent path b rest e, length-append parent rest))
]

erase_bit_lt :
    (b : Bool) (parent path : List Bool)
    → is_branch b (behind parent path) ≡ true
    → length (erase_bit parent path) < length path
unfolding erase_bit
erase_bit_lt b parent path h = elim (Option-cases (behind parent path)) [
  | inl e ↦ ground (arith, e)
  | inr ((c, rest), e) ↦
      rw (e, erase_bit)
        (omega (arith, behind-length parent path c rest e, length-append parent rest))
]

collapse_le :
    (parent : List Bool) (leaves : List Leaf)
    → total_depth (collapse parent leaves) ≤ total_depth leaves
unfolding total_depth collapse
collapse_le parent [] = omega arith
collapse_le parent (leaf ∷ leaves) =
    omega (arith, erase_bit_le parent leaf.path, collapse_le parent leaves)

collapse_lt :
    (b : Bool) (parent : List Bool) (leaves : List Leaf)
    → has_branch b parent leaves ≡ true
    → total_depth (collapse parent leaves) < total_depth leaves
unfolding total_depth collapse has_branch
collapse_lt b parent [] h = cc
collapse_lt b parent (leaf ∷ leaves) h = elim (Bool-cases (is_branch b (behind parent leaf.path))) [
  | inl e ↦ omega (arith, erase_bit_lt b parent leaf.path e, collapse_le parent leaves)
  | inr e ↦ omega (arith, erase_bit_le parent leaf.path, collapse_lt b parent leaves (ground arith))
]

collapsible_lt :
    (parent : List Bool) (leaves : List Leaf)
    → is_collapsible parent leaves ≡ true
    → total_depth (collapse parent leaves) < total_depth leaves
unfolding is_collapsible
collapsible_lt parent leaves h =
    ground (arith, collapse_lt true parent leaves, collapse_lt false parent leaves)

-- What the search finds can be collapsed.
find_parent_lem :
    (depth : ℕ) (path parent : List Bool) (leaves : List Leaf)
    → find_parent depth path leaves ≡ some parent
    → is_collapsible parent leaves ≡ true
unfolding find_parent
find_parent_lem zero path parent leaves e = cc
find_parent_lem (suc depth) path parent leaves e =
    ground (arith, find_parent_lem depth path parent leaves)

pub find_collapse_lem :
    (candidates leaves : List Leaf) (parent : List Bool)
    → find_collapse candidates leaves ≡ some parent
    → is_collapsible parent leaves ≡ true
unfolding find_collapse
find_collapse_lem [] leaves parent e = cc
find_collapse_lem (c ∷ candidates) leaves parent e = ground (
  arith,
  find_parent_lem (length c.path) c.path parent leaves,
  find_collapse_lem candidates leaves parent,
)

-- The fuel is enough: the loop ends where nothing can be collapsed.
pub collapse_loop_ends :
    (fuel : ℕ) (leaves : List Leaf)
    → total_depth leaves ≤ fuel
    → let r = collapse_loop fuel leaves in find_collapse r r ≡ none
unfolding collapse_loop
collapse_loop_ends zero leaves h = elim (Option-cases (find_collapse leaves leaves)) [
  | inl e ↦ e
  | inr (parent, e) ↦
      absurd
        (omega (arith, collapsible_lt parent leaves (find_collapse_lem leaves leaves parent e), h))
]
collapse_loop_ends (suc fuel) leaves h = elim (Option-cases (find_collapse leaves leaves)) [
  | inl e ↦ rw (e, collapse_loop) e
  | inr (parent, e) ↦
      rw (e, collapse_loop)
        (collapse_loop_ends fuel (collapse parent leaves) (
          omega
            (arith, collapsible_lt parent leaves (find_collapse_lem leaves leaves parent e), h)))
]
