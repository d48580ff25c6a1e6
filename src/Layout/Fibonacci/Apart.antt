-- ===== src/Layout/Fibonacci/Apart.antt =====
-- The paths of the leaves in focus_fibonacci.cpp: where two of them part, and how collapsing acts on that.
use zwwm.Common.{
  ℕ, zero, suc, ◌≡◌, refl, ◌∙◌, arith, Bool, true, false, not, ◌||◌, none, some, List, [], ◌∷◌,
  ◌++◌, Bool-cases, Option-cases, inl, inr,
}
use zwwm.Layout.Fibonacci.{
  Leaf, same, behind, is_branch, has_branch, erase_bit, collapse, is_collapsible, find_collapse,
  collapse_loop,
}
use zwwm.Layout.Fibonacci.Collapse.{find_collapse_lem}

-- The paths part at some split.
abbrev pub diverge : List Bool → List Bool → Bool
diverge [] q = false
diverge (a ∷ p) [] = false
diverge (a ∷ p) (b ∷ q) = not (same a b) || diverge p q

abbrev pub AllDiverge : List Bool → List Leaf → Type 0
AllDiverge p [] = Unit
AllDiverge p (leaf ∷ leaves) = (diverge p leaf.path ≡ true) × AllDiverge p leaves

abbrev pub Apart : List Leaf → Type 0
Apart [] = Unit
Apart (leaf ∷ leaves) = AllDiverge leaf.path leaves × Apart leaves

pub diverge_sym : (p q : List Bool) → diverge p q ≡ diverge q p
diverge_sym [] [] = refl
diverge_sym [] (b ∷ q) = refl
diverge_sym (a ∷ p) [] = refl
diverge_sym (a ∷ p) (b ∷ q) = ground (arith, diverge_sym p q)

pub diverge_prefix : (x p q : List Bool) → diverge (x ++ p) (x ++ q) ≡ diverge p q
diverge_prefix [] p q = refl
diverge_prefix (a ∷ x) p q = ground (arith, diverge_prefix x p q)

pub diverge_extend : (p q x : List Bool) → diverge p q ≡ true → diverge (p ++ x) q ≡ true
diverge_extend [] q x h = cc
diverge_extend (a ∷ p) [] x h = cc
diverge_extend (a ∷ p) (b ∷ q) x h = ground (arith, diverge_extend p q x)

pub diverge_extend_right : (p q x : List Bool) → diverge p q ≡ true → diverge p (q ++ x) ≡ true
diverge_extend_right p q x h = diverge_sym p (q ++ x) ∙ diverge_extend q p x (diverge_sym q p ∙ h)

behind-some :
    (parent path : List Bool) (b : Bool) (rest : List Bool)
    → behind parent path ≡ some (b, rest)
    → path ≡ parent ++ (b ∷ rest)
unfolding behind
behind-some parent [] b rest e = cc
behind-some [] (c ∷ path) b rest e = ground arith
behind-some (p ∷ parent) (c ∷ path) b rest e = ground (arith, behind-some parent path b rest)

-- A path that does not go on below `parent` parts from it before its end, if at all.
behind-none :
    (parent q x y : List Bool)
    → behind parent q ≡ none
    → diverge (parent ++ x) q ≡ diverge (parent ++ y) q
unfolding behind
behind-none [] [] [] [] e = refl
behind-none [] [] [] (b ∷ y) e = refl
behind-none [] [] (a ∷ x) [] e = refl
behind-none [] [] (a ∷ x) (b ∷ y) e = refl
behind-none [] (c ∷ q) x y e = cc
behind-none (p ∷ parent) [] x y e = refl
behind-none (p ∷ parent) (c ∷ q) x y e = ground (arith, behind-none parent q x y)

-- Erasing one bit below `parent` keeps two paths apart, unless they take both of its halves.
erase_apart :
    (b : Bool) (parent p q : List Bool)
    → is_branch b (behind parent p) ≡ false
    → is_branch b (behind parent q) ≡ false
    → diverge p q ≡ true
    → diverge (erase_bit parent p) (erase_bit parent q) ≡ true
unfolding erase_bit
erase_apart b parent p q hp hq h = elim (Option-cases (behind parent p)) [
  | inl e ↦ elim (Option-cases (behind parent q)) [
    | inl f ↦ rw (e, f, erase_bit) h
    | inr ((d, s), f) ↦
        rw (e, f, erase_bit)
          (diverge_sym p (parent ++ s)
            ∙ behind-none parent p s (d ∷ s) e
            ∙ diverge_sym (parent ++ (d ∷ s)) p
            ∙ (rw (behind-some parent q d s f) at h))
  ]
  | inr ((c, r), e) ↦ elim (Option-cases (behind parent q)) [
    | inl f ↦
        rw (e, f, erase_bit)
          (behind-none parent q r (c ∷ r) f ∙ (rw (behind-some parent p c r e) at h))
    | inr ((d, s), f) ↦
        rw (e, f, erase_bit)
          (ground (
            arith,
            hp,
            hq,
            e,
            f,
            diverge_prefix parent r s,
            diverge_prefix parent (c ∷ r) (d ∷ s),
            behind-some parent p c r e,
            behind-some parent q d s f,
          ))
  ]
]

collapse-AllDiverge :
    (b : Bool) (parent p : List Bool) (leaves : List Leaf)
    → is_branch b (behind parent p) ≡ false
    → has_branch b parent leaves ≡ false
    → AllDiverge p leaves
    → AllDiverge (erase_bit parent p) (collapse parent leaves)
unfolding collapse has_branch
collapse-AllDiverge b parent p [] hp h d = tt
collapse-AllDiverge b parent p (leaf ∷ leaves) hp h d = (
  erase_apart b parent p leaf.path hp (ground arith) d.0,
  collapse-AllDiverge b parent p leaves hp (ground arith) d.1,
)

collapse-Apart :
    (b : Bool) (parent : List Bool) (leaves : List Leaf)
    → has_branch b parent leaves ≡ false
    → Apart leaves
    → Apart (collapse parent leaves)
unfolding collapse has_branch
collapse-Apart b parent [] h a = tt
collapse-Apart b parent (leaf ∷ leaves) h a = (
  collapse-AllDiverge b parent leaf.path leaves (ground arith) (ground arith) a.0,
  collapse-Apart b parent leaves (ground arith) a.1,
)

collapsible-Apart :
    (parent : List Bool) (leaves : List Leaf)
    → is_collapsible parent leaves ≡ true
    → Apart leaves
    → Apart (collapse parent leaves)
unfolding is_collapsible
collapsible-Apart parent leaves h a = elim (Bool-cases (has_branch true parent leaves)) [
  | inl e ↦ collapse-Apart false parent leaves (ground arith) a
  | inr e ↦ collapse-Apart true parent leaves e a
]

pub collapse_loop-Apart :
    (fuel : ℕ) (leaves : List Leaf) → Apart leaves → Apart (collapse_loop fuel leaves)
unfolding collapse_loop
collapse_loop-Apart zero leaves a = a
collapse_loop-Apart (suc fuel) leaves a = elim (Option-cases (find_collapse leaves leaves)) [
  | inl e ↦ rw (e, collapse_loop) a
  | inr (parent, e) ↦
      rw (e, collapse_loop)
        (collapse_loop-Apart fuel (collapse parent leaves)
          (collapsible-Apart parent leaves (find_collapse_lem leaves leaves parent e) a))
]
