-- ===== src/Layout/Fibonacci/Full.antt =====
-- What the collapsing in focus_fibonacci.cpp leaves: a full binary tree.
use mathlib.Core.Path.{subst}
use zwwm.Common.{
  ℕ, zero, suc, ◌<◌, ◌≡◌, refl, sym, ap, ◌∙◌, arith, Bool, true, false, not, ◌||◌, ◌⊎◌, none, some,
  List, [], ◌∷◌, ◌++◌, map, length, take, Bool-cases, Option-cases, inl, inr, length-append,
  append_assoc, ℕ_discrete,
}
use zwwm.Layout.Fibonacci.{
  Leaf, same, behind, is_branch, has_branch, collapse, is_collapsible, find_parent, find_collapse,
  collapse_loop, total_depth,
}
use zwwm.Layout.Fibonacci.Collapse.{collapse_loop_ends}
use zwwm.Layout.Fibonacci.Apart.{Apart, collapse_loop-Apart}

-- Some leaf lies at this place or below it: its path begins with that of the place.
abbrev pub SomeBelow : List Bool → List Leaf → Type 0
SomeBelow place [] = ⊥
SomeBelow place (leaf ∷ leaves) =
    ((rest : List Bool) × (leaf.path ≡ place ++ rest)) ⊎ SomeBelow place leaves

-- Beside each step of a path, behind its first part, there is a leaf in the other half.
abbrev pub FullAlong : List Bool → List Bool → List Leaf → Type 0
FullAlong before [] all = Unit
FullAlong before (b ∷ path) all =
    SomeBelow (before ++ (not b ∷ [])) all × FullAlong (before ++ (b ∷ [])) path all

-- Every split on the way to a leaf has leaves in both halves.
abbrev pub IsFull : List Leaf → List Leaf → Type 0
IsFull [] all = Unit
IsFull (leaf ∷ leaves) all = FullAlong [] leaf.path all × IsFull leaves all

same_self : (b : Bool) → same b b ≡ true
same_self true = refl
same_self false = refl

same_eq : (b c : Bool) → same b c ≡ true → b ≡ c
same_eq true true h = refl
same_eq true false h = cc
same_eq false true h = cc
same_eq false false h = refl

behind-append :
    (before : List Bool) (b : Bool) (path : List Bool)
    → behind before (before ++ (b ∷ path)) ≡ some (b, path)
unfolding behind
behind-append [] b path = refl
behind-append (p ∷ before) b path = rw (same_self p) (behind-append before b path)

behind-some :
    (parent path : List Bool) (b : Bool) (rest : List Bool)
    → behind parent path ≡ some (b, rest)
    → path ≡ parent ++ (b ∷ rest)
unfolding behind
behind-some parent [] b rest h = cc
behind-some [] (c ∷ path) b rest h = ground arith
behind-some (p ∷ parent) (c ∷ path) b rest h =
    ground (arith, same_eq p c, behind-some parent path b rest)

branch-path :
    (b : Bool) (parent path : List Bool)
    → is_branch b (behind parent path) ≡ true
    → (rest : List Bool) × (path ≡ (parent ++ (b ∷ [])) ++ rest)
branch-path b parent path h = elim (Option-cases (behind parent path)) [
  | inl e ↦ ground (arith, e)
  | inr ((c, rest), e) ↦ (
    rest,
    behind-some parent path c rest e
        ∙ ap (λ d. parent ++ (d ∷ rest)) (sym (same_eq b c (ground (arith, e))))
        ∙ sym (append_assoc parent (b ∷ []) rest),
  )
]

-- The flags of the code, in terms of paths.
has_branch-SomeBelow :
    (b : Bool) (parent : List Bool) (leaves : List Leaf)
    → has_branch b parent leaves ≡ true
    → SomeBelow (parent ++ (b ∷ [])) leaves
unfolding has_branch
has_branch-SomeBelow b parent [] h = cc
has_branch-SomeBelow b parent (leaf ∷ leaves) h =
    elim (Bool-cases (is_branch b (behind parent leaf.path))) [
      | inl e ↦ inl (branch-path b parent leaf.path e)
      | inr e ↦ inr (has_branch-SomeBelow b parent leaves (ground arith))
    ]

-- A leaf of the list is in its own half of each of its splits.
own_branch :
    (front : List Leaf) (leaf : Leaf) (back : List Leaf) (before : List Bool) (b : Bool)
    (path : List Bool)
    → leaf.path ≡ before ++ (b ∷ path)
    → has_branch b before (front ++ (leaf ∷ back)) ≡ true
unfolding has_branch
own_branch [] leaf back before b path e =
    ap (λ o. is_branch b o || has_branch b before back)
      (ap (behind before) e ∙ behind-append before b path)
    ∙ ap (λ t. t || has_branch b before back) (same_self b)
own_branch (other ∷ front) leaf back before b path e =
    ap (λ t. is_branch b (behind before other.path) || t)
      (own_branch front leaf back before b path e)
    ∙ or_true (is_branch b (behind before other.path))
  where
    or_true : (t : Bool) → (t || true) ≡ true
    or_true true = refl
    or_true false = refl

-- A split that cannot be collapsed and has a leaf in one half has one in the other.
other_branch :
    (b : Bool) (parent : List Bool) (leaves : List Leaf)
    → is_collapsible parent leaves ≡ false
    → has_branch b parent leaves ≡ true
    → has_branch (not b) parent leaves ≡ true
unfolding is_collapsible
other_branch true parent leaves h e = ground arith
other_branch false parent leaves h e = ground arith

take-length_append : (before path : List Bool) → take (length before) (before ++ path) ≡ before
take-length_append [] path = refl
take-length_append (b ∷ before) path = ap (λ l. b ∷ l) (take-length_append before path)

none_at :
    (n : ℕ) (path : List Bool) (leaves : List Leaf)
    → find_parent n path leaves ≡ none
    → (depth : ℕ) → depth < n
    → is_collapsible (take depth path) leaves ≡ false
unfolding find_parent
none_at zero path leaves e depth h = elim h [ ]
none_at (suc n) path leaves e depth h = elim (Bool-cases (is_collapsible (take n path) leaves)) [
  | inl c ↦ ground arith
  | inr c ↦ elim (ℕ_discrete depth n) [
    | yes d ↦ rw d c
    | no d ↦ none_at n path leaves (ground arith) depth (omega (arith, h))
  ]
]

along :
    (front : List Leaf) (leaf : Leaf) (back : List Leaf) (before path : List Bool)
    → leaf.path ≡ before ++ path
    → ((depth : ℕ)
        → depth < length leaf.path
        → is_collapsible (take depth leaf.path) (front ++ (leaf ∷ back)) ≡ false)
    → FullAlong before path (front ++ (leaf ∷ back))
along front leaf back before [] e kept = tt
along front leaf back before (b ∷ path) e kept = (
  has_branch-SomeBelow (not b) before (front ++ (leaf ∷ back)) (
      other_branch b before (front ++ (leaf ∷ back)) here
        (own_branch front leaf back before b path e)),
  along front leaf back (before ++ (b ∷ [])) path (e ∙ sym (append_assoc before (b ∷ []) path))
      kept,
)
  where
    deep : length before < length leaf.path
    deep = omega (arith, ap length e, length-append before (b ∷ path))

    here : is_collapsible before (front ++ (leaf ∷ back)) ≡ false
    here =
        ap (λ p. is_collapsible p (front ++ (leaf ∷ back)))
          (sym (ap (take (length before)) e ∙ take-length_append before (b ∷ path)))
        ∙ kept (length before) deep

none-IsFull :
    (front back : List Leaf)
    → find_collapse back (front ++ back) ≡ none
    → IsFull back (front ++ back)
unfolding find_collapse
none-IsFull front [] e = tt
none-IsFull front (leaf ∷ back) e =
    elim (Option-cases (find_parent (length leaf.path) leaf.path (front ++ (leaf ∷ back)))) [
      | inr (parent, f) ↦ ground arith
      | inl f ↦ (
        along front leaf back [] leaf.path refl
            (none_at (length leaf.path) leaf.path (front ++ (leaf ∷ back)) f),
        subst (λ all. IsFull back all) (append_assoc front (leaf ∷ []) back)
            (none-IsFull (front ++ (leaf ∷ [])) back
              (ap (find_collapse back) (append_assoc front (leaf ∷ []) back) ∙ ground arith)),
      )
    ]

abbrev pub ids : List Leaf → List ℕ
ids = map (λ (leaf : Leaf). leaf.id)

ids-collapse : (parent : List Bool) (leaves : List Leaf) → ids (collapse parent leaves) ≡ ids leaves
unfolding collapse
ids-collapse parent [] = refl
ids-collapse parent (leaf ∷ leaves) = ap (λ l. leaf.id ∷ l) (ids-collapse parent leaves)

ids-collapse_loop : (fuel : ℕ) (leaves : List Leaf) → ids (collapse_loop fuel leaves) ≡ ids leaves
unfolding collapse_loop
ids-collapse_loop zero leaves = refl
ids-collapse_loop (suc fuel) leaves = elim (Option-cases (find_collapse leaves leaves)) [
  | inl e ↦ rw (e, collapse_loop)
  | inr (parent, e) ↦
      rw (e, collapse_loop)
        (ids-collapse_loop fuel (collapse parent leaves) ∙ ids-collapse parent leaves)
]

-- On leaves of which no path begins with another, the collapsing of half-empty splits ends within as
-- many rounds as the paths have bits, and leaves a full binary tree for the same windows: still no path
-- begins with another, and every split on the way to a leaf has leaves in both halves.
pub collapse_loop-IsFull :
    (leaves : List Leaf)
    → Apart leaves
    → let r = collapse_loop (total_depth leaves) leaves in
      IsFull r r × Apart r × (ids r ≡ ids leaves)
collapse_loop-IsFull leaves a = (
  none-IsFull [] (collapse_loop (total_depth leaves) leaves)
      (collapse_loop_ends (total_depth leaves) leaves (omega arith)),
  collapse_loop-Apart (total_depth leaves) leaves a,
  ids-collapse_loop (total_depth leaves) leaves,
)
