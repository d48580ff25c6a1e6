-- ===== src/Layout/Fibonacci/Grow.antt =====
-- New leaves of reconcile_fibonacci_leaves, and where their paths part from the others.
use zwwm.Common.{
  ℕ, ◌≡◌, ◌∙◌, Bool, true, false, Option, none, some, List, [], ◌∷◌, ◌++◌, ◌==◌, if◌then◌else◌,
  Bool-cases, inl, inr,
}
use zwwm.Layout.Fibonacci.{
  Leaf, contains, has_leaf, erase_gone, collapse_loop, total_depth, split_focused, split_last,
  add_leaf, add_missing, reconcile_fibonacci_leaves,
}
use zwwm.Layout.Fibonacci.Apart.{
  diverge, AllDiverge, Apart, diverge_sym, diverge_prefix, diverge_extend, diverge_extend_right,
  collapse_loop-Apart,
}

erase_gone-AllDiverge :
    (p : List Bool) (ids : List ℕ) (leaves : List Leaf)
    → AllDiverge p leaves
    → AllDiverge p (erase_gone ids leaves)
unfolding erase_gone
erase_gone-AllDiverge p ids [] d = tt
erase_gone-AllDiverge p ids (leaf ∷ leaves) d = elim (Bool-cases (contains leaf.id ids)) [
  | inl e ↦ rw e (d.0, erase_gone-AllDiverge p ids leaves d.1)
  | inr e ↦ rw e (erase_gone-AllDiverge p ids leaves d.1)
]

erase_gone-Apart :
    (ids : List ℕ) (leaves : List Leaf) → Apart leaves → Apart (erase_gone ids leaves)
unfolding erase_gone
erase_gone-Apart ids [] a = tt
erase_gone-Apart ids (leaf ∷ leaves) a = elim (Bool-cases (contains leaf.id ids)) [
  | inl e ↦ rw e (erase_gone-AllDiverge leaf.path ids leaves a.0, erase_gone-Apart ids leaves a.1)
  | inr e ↦ rw e (erase_gone-Apart ids leaves a.1)
]

append-AllDiverge :
    (p : List Bool) (leaves : List Leaf) (new : Leaf)
    → AllDiverge p leaves
    → diverge p new.path ≡ true
    → AllDiverge p (leaves ++ (new ∷ []))
append-AllDiverge p [] new d h = (h, tt)
append-AllDiverge p (leaf ∷ leaves) new d h = (d.0, append-AllDiverge p leaves new d.1 h)

append-Apart :
    (leaves : List Leaf) (new : Leaf)
    → Apart leaves
    → AllDiverge new.path leaves
    → Apart (leaves ++ (new ∷ []))
append-Apart [] new a d = (tt, tt)
append-Apart (leaf ∷ leaves) new a d = (
  append-AllDiverge leaf.path leaves new a.0 (diverge_sym leaf.path new.path ∙ d.0),
  append-Apart leaves new a.1 d.1,
)

extend-AllDiverge :
    (p x : List Bool) (leaves : List Leaf) → AllDiverge p leaves → AllDiverge (p ++ x) leaves
extend-AllDiverge p x [] d = tt
extend-AllDiverge p x (leaf ∷ leaves) d =
    (diverge_extend p leaf.path x d.0, extend-AllDiverge p x leaves d.1)

halves_diverge : (p : List Bool) → diverge (p ++ (true ∷ [])) (p ++ (false ∷ [])) ≡ true
halves_diverge p = diverge_prefix p (true ∷ []) (false ∷ [])

-- A path apart from the leaves before a split is apart from all of them after it.
abbrev DivergesSplit : List Bool → Option (List Leaf × Leaf) → Type 0
DivergesSplit p none = Unit
DivergesSplit p (some (others, new)) = AllDiverge p others × (diverge p new.path ≡ true)

abbrev ApartSplit : Option (List Leaf × Leaf) → Type 0
ApartSplit none = Unit
ApartSplit (some (others, new)) = Apart others × AllDiverge new.path others

split_focused-DivergesSplit :
    (p : List Bool) (focused_id id : ℕ) (leaves : List Leaf)
    → AllDiverge p leaves
    → DivergesSplit p (split_focused focused_id id leaves)
unfolding split_focused
split_focused-DivergesSplit p focused_id id [] d = tt
split_focused-DivergesSplit p focused_id id (leaf ∷ leaves) d =
    elim (Bool-cases (leaf.id == focused_id)) [
      | inl e ↦ rw e (
        (diverge_extend_right p leaf.path (false ∷ []) d.0, d.1),
        diverge_extend_right p leaf.path (true ∷ []) d.0,
      )
      | inr e ↦ rw e (
          deeper (split_focused focused_id id leaves)
            (split_focused-DivergesSplit p focused_id id leaves d.1))
    ]
  where
    deeper :
        (s : Option (List Leaf × Leaf))
        → DivergesSplit p s
        → DivergesSplit p (elim s [ none ↦ none | some (others, new) ↦ some (leaf ∷ others, new) ])
    deeper none h = tt
    deeper (some (others, new)) h = ((d.0, h.0), h.1)

split_focused-ApartSplit :
    (focused_id id : ℕ) (leaves : List Leaf)
    → Apart leaves
    → ApartSplit (split_focused focused_id id leaves)
unfolding split_focused
split_focused-ApartSplit focused_id id [] a = tt
split_focused-ApartSplit focused_id id (leaf ∷ leaves) a =
    elim (Bool-cases (leaf.id == focused_id)) [
      | inl e ↦ rw e (
        (extend-AllDiverge leaf.path (false ∷ []) leaves a.0, a.1),
        (halves_diverge leaf.path, extend-AllDiverge leaf.path (true ∷ []) leaves a.0),
      )
      | inr e ↦ rw e (
          deeper (split_focused focused_id id leaves)
            (split_focused-DivergesSplit leaf.path focused_id id leaves a.0)
            (split_focused-ApartSplit focused_id id leaves a.1))
    ]
  where
    deeper :
        (s : Option (List Leaf × Leaf))
        → DivergesSplit leaf.path s
        → ApartSplit s
        → ApartSplit (elim s [ none ↦ none | some (others, new) ↦ some (leaf ∷ others, new) ])
    deeper none d h = tt
    deeper (some (others, new)) d h = ((d.0, h.0), (diverge_sym new.path leaf.path ∙ d.1, h.1))

split_last-AllDiverge :
    (p : List Bool) (id : ℕ) (leaf : Leaf) (leaves : List Leaf)
    → AllDiverge p (leaf ∷ leaves)
    → AllDiverge p (split_last id leaf leaves)
unfolding split_last
split_last-AllDiverge p id leaf [] d = (
  diverge_extend_right p leaf.path (false ∷ []) d.0,
  (diverge_extend_right p leaf.path (true ∷ []) d.0, tt),
)
split_last-AllDiverge p id leaf (next ∷ leaves) d =
    (d.0, split_last-AllDiverge p id next leaves d.1)

split_last-Apart :
    (id : ℕ) (leaf : Leaf) (leaves : List Leaf)
    → Apart (leaf ∷ leaves)
    → Apart (split_last id leaf leaves)
unfolding split_last
split_last-Apart id leaf [] a = (
  (
    diverge_sym (leaf.path ++ (false ∷ [])) (leaf.path ++ (true ∷ [])) ∙ halves_diverge leaf.path,
    tt,
  ),
  (tt, tt),
)
split_last-Apart id leaf (next ∷ leaves) a =
    (split_last-AllDiverge leaf.path id next leaves a.0, split_last-Apart id next leaves a.1)

add_leaf-Apart :
    (focused_id id : ℕ) (leaves : List Leaf) → Apart leaves → Apart (add_leaf focused_id id leaves)
unfolding add_leaf
add_leaf-Apart focused_id id [] a = (tt, tt)
add_leaf-Apart focused_id id (leaf ∷ leaves) a =
    grown (split_focused focused_id id (leaf ∷ leaves))
      (split_focused-ApartSplit focused_id id (leaf ∷ leaves) a)
  where
    grown :
        (s : Option (List Leaf × Leaf))
        → ApartSplit s
        → Apart (elim s [
          | some (others, new) ↦ others ++ (new ∷ [])
          | none ↦ split_last id leaf leaves
        ])
    grown none h = split_last-Apart id leaf leaves a
    grown (some (others, new)) h = append-Apart others new h.0 h.1

add_missing-Apart :
    (focused_id : ℕ) (ids : List ℕ) (leaves : List Leaf)
    → Apart leaves
    → Apart (add_missing focused_id ids leaves)
unfolding add_missing
add_missing-Apart focused_id [] leaves a = a
add_missing-Apart focused_id (id ∷ ids) leaves a =
    add_missing-Apart focused_id ids
      (if has_leaf id leaves then leaves else add_leaf focused_id id leaves)
      (elim (Bool-cases (has_leaf id leaves)) [
        | inl e ↦ rw e a
        | inr e ↦ rw e (add_leaf-Apart focused_id id leaves a)
      ])

-- If no leaf's path begins with another's, this stays so when windows go and come: every leaf has a
-- place of its own in the tree.
pub reconcile-Apart :
    (ids : List ℕ) (focused_id : ℕ) (leaves : List Leaf)
    → Apart leaves
    → Apart (reconcile_fibonacci_leaves ids focused_id leaves)
unfolding reconcile_fibonacci_leaves
reconcile-Apart ids focused_id leaves a =
    add_missing-Apart focused_id ids
      (collapse_loop (total_depth (erase_gone ids leaves)) (erase_gone ids leaves))
      (collapse_loop-Apart (total_depth (erase_gone ids leaves)) (erase_gone ids leaves)
        (erase_gone-Apart ids leaves a))
