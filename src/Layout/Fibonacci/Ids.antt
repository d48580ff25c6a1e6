-- ===== src/Layout/Fibonacci/Ids.antt =====
-- Which windows have a leaf after reconcile_fibonacci_leaves.
use zwwm.Common.{
  ℕ, zero, suc, ◌≡◌, refl, ap, ◌∙◌, arith, Bool, ◌&&◌, ◌||◌, some, List, [], ◌∷◌, ◌++◌, ◌==◌,
  Option-cases, inl, inr,
}
use zwwm.Layout.Fibonacci.{
  Leaf, contains, has_leaf, erase_gone, collapse, find_collapse, collapse_loop, total_depth,
  split_focused, split_last, add_leaf, add_missing, reconcile_fibonacci_leaves,
}

-- Erasing keeps exactly the leaves of windows that are still there.
has_leaf-erase_gone :
    (id : ℕ) (ids : List ℕ) (leaves : List Leaf)
    → has_leaf id (erase_gone ids leaves) ≡ (has_leaf id leaves && contains id ids)
unfolding erase_gone
has_leaf-erase_gone id ids [] = refl
has_leaf-erase_gone id ids (leaf ∷ leaves) =
    ground (arith, has_leaf-erase_gone id ids leaves, contains_eq)
  where
    contains_eq : leaf.id ≡ id → contains leaf.id ids ≡ contains id ids
    contains_eq e = ap (λ k. contains k ids) e

has_leaf-collapse :
    (id : ℕ) (parent : List Bool) (leaves : List Leaf)
    → has_leaf id (collapse parent leaves) ≡ has_leaf id leaves
unfolding collapse
has_leaf-collapse id parent [] = refl
has_leaf-collapse id parent (leaf ∷ leaves) =
    ap (λ b. leaf.id == id || b) (has_leaf-collapse id parent leaves)

has_leaf-collapse_loop :
    (id fuel : ℕ) (leaves : List Leaf)
    → has_leaf id (collapse_loop fuel leaves) ≡ has_leaf id leaves
unfolding collapse_loop
has_leaf-collapse_loop id zero leaves = refl
has_leaf-collapse_loop id (suc fuel) leaves = elim (Option-cases (find_collapse leaves leaves)) [
  | inl e ↦ rw (e, collapse_loop)
  | inr (parent, e) ↦
      rw (e, collapse_loop)
        (has_leaf-collapse_loop id fuel (collapse parent leaves)
          ∙ has_leaf-collapse id parent leaves)
]

has_leaf-append :
    (id : ℕ) (xs : List Leaf) (new : Leaf)
    → has_leaf id (xs ++ (new ∷ [])) ≡ (has_leaf id xs || new.id == id)
has_leaf-append id [] new = ground arith
has_leaf-append id (x ∷ xs) new = ground (arith, has_leaf-append id xs new)

split_focused-ids :
    (focused_id new_id : ℕ) (leaves others : List Leaf) (new : Leaf) (id : ℕ)
    → split_focused focused_id new_id leaves ≡ some (others, new)
    → (has_leaf id others ≡ has_leaf id leaves) × (new.id ≡ new_id)
unfolding split_focused
split_focused-ids focused_id new_id [] others new id e = cc
split_focused-ids focused_id new_id (leaf ∷ leaves) others new id e =
    elim (Option-cases (split_focused focused_id new_id leaves)) [
      | inl f ↦ ground arith
      | inr ((o, n), f) ↦ ground (arith, split_focused-ids focused_id new_id leaves o n id f)
    ]

has_leaf-split_last :
    (new_id : ℕ) (leaf : Leaf) (leaves : List Leaf) (id : ℕ)
    → has_leaf id (split_last new_id leaf leaves) ≡ (has_leaf id (leaf ∷ leaves) || new_id == id)
unfolding split_last
has_leaf-split_last new_id leaf [] id = ground arith
has_leaf-split_last new_id leaf (next ∷ leaves) id =
    ground (arith, has_leaf-split_last new_id next leaves id)

has_leaf-add_leaf :
    (focused_id new_id : ℕ) (leaves : List Leaf) (id : ℕ)
    → has_leaf id (add_leaf focused_id new_id leaves) ≡ (has_leaf id leaves || new_id == id)
unfolding add_leaf
has_leaf-add_leaf focused_id new_id [] id = ground arith
has_leaf-add_leaf focused_id new_id (leaf ∷ leaves) id =
    elim (Option-cases (split_focused focused_id new_id (leaf ∷ leaves))) [
      | inl e ↦ rw (e, add_leaf) (has_leaf-split_last new_id leaf leaves id)
      | inr ((others, new), e) ↦
          let (same, named) = split_focused-ids focused_id new_id (leaf ∷ leaves) others new id e in
          rw (e, add_leaf) (has_leaf-append id others new ∙ rw (same, named))
    ]

has_leaf-add_missing :
    (focused_id : ℕ) (ids : List ℕ) (leaves : List Leaf) (id : ℕ)
    → has_leaf id (add_missing focused_id ids leaves) ≡ (has_leaf id leaves || contains id ids)
unfolding add_missing
has_leaf-add_missing focused_id [] leaves id = ground arith
has_leaf-add_missing focused_id (new ∷ ids) leaves id = ground (
  arith,
  has_leaf-add_missing focused_id ids leaves id,
  has_leaf-add_missing focused_id ids (add_leaf focused_id new leaves) id,
  has_leaf-add_leaf focused_id new leaves id,
  same_window,
)
  where
    same_window : new ≡ id → has_leaf new leaves ≡ has_leaf id leaves
    same_window e = ap (λ k. has_leaf k leaves) e

-- Whatever the leaves were before, afterwards a window has a leaf exactly if it is one of the windows.
pub has_leaf-reconcile :
    (ids : List ℕ) (focused_id : ℕ) (leaves : List Leaf) (id : ℕ)
    → has_leaf id (reconcile_fibonacci_leaves ids focused_id leaves) ≡ contains id ids
unfolding reconcile_fibonacci_leaves
has_leaf-reconcile ids focused_id leaves id = ground (
  arith,
  has_leaf-add_missing focused_id ids
      (collapse_loop (total_depth (erase_gone ids leaves)) (erase_gone ids leaves)) id,
  has_leaf-collapse_loop id (total_depth (erase_gone ids leaves)) (erase_gone ids leaves),
  has_leaf-erase_gone id ids leaves,
)
