-- ===== src/Server/Globals/Names.antt =====
-- The names of globals, and what a client may bind after each call.
use zwwm.Common.{
  ℕ, ◌+◌, ◌≡◌, ◌≢◌, ◌≤◌, ◌<◌, refl, ◌∙◌, arith, Bool, false, ◌||◌, List, [], ◌∷◌, ◌++◌, ◌==◌,
  if◌then◌else◌, Bool-cases, inl, inr,
}
use zwwm.Server.{Client}
use zwwm.Server.Globals.{
  Global, Display, mark_removed, erase_global, max_uint32, Binding, checked, find_binding,
}

abbrev pub has_name : ℕ → List Global → Bool
has_name name [] = false
has_name name (g ∷ gs) = g.name == name || has_name name gs

abbrev pub Distinct : List Global → Type 0
Distinct [] = Unit
Distinct (g ∷ gs) = (has_name g.name gs ≡ false) × Distinct gs

abbrev pub Below : ℕ → List Global → Type 0
Below n [] = Unit
Below n (g ∷ gs) = (g.name < n) × Below n gs

-- The names of the globals are distinct, and none of them is still to be given.
pub record IsNamed (d : Display) : Type 0 where
  pub distinct : Distinct d.globals
  pub below : Below d.next_global_name d.globals
  pub bounded : d.next_global_name ≤ max_uint32

pub has_name-append :
    (name : ℕ) (gs : List Global) (g : Global)
    → has_name name (gs ++ (g ∷ [])) ≡ (has_name name gs || g.name == name)
has_name-append name [] g = ground arith
has_name-append name (h ∷ gs) g = ground (arith, has_name-append name gs g)

pub Below-has_name : (n : ℕ) (gs : List Global) → Below n gs → has_name n gs ≡ false
Below-has_name n [] h = refl
Below-has_name n (g ∷ gs) h = ground (arith, Below-has_name n gs)

pub Below-append :
    (n : ℕ) (gs : List Global) (g : Global)
    → Below n gs
    → g.name ≡ n
    → Below (n + 1) (gs ++ (g ∷ []))
Below-append n [] g h e = (omega arith, tt)
Below-append n (k ∷ gs) g (a, h) e = (omega arith, Below-append n gs g h e)

pub Distinct-append :
    (gs : List Global) (g : Global)
    → Distinct gs
    → has_name g.name gs ≡ false
    → Distinct (gs ++ (g ∷ []))
Distinct-append [] g h e = (refl, tt)
Distinct-append (k ∷ gs) g (a, h) e =
    (ground (arith, has_name-append k.name gs g), Distinct-append gs g h (ground arith))

has_name-mark_removed :
    (name n : ℕ) (gs : List Global) → has_name n (mark_removed name gs) ≡ has_name n gs
unfolding mark_removed
has_name-mark_removed name n [] = refl
has_name-mark_removed name n (g ∷ gs) = ground (arith, has_name-mark_removed name n gs)

pub Below-mark_removed :
    (name n : ℕ) (gs : List Global) → Below n gs → Below n (mark_removed name gs)
unfolding mark_removed
Below-mark_removed name n [] h = tt
Below-mark_removed name n (g ∷ gs) (a, h) = elim (Bool-cases (g.name == name)) [
  | inl e ↦ rw e (a, h)
  | inr e ↦ rw e (a, Below-mark_removed name n gs h)
]

pub Distinct-mark_removed :
    (name : ℕ) (gs : List Global) → Distinct gs → Distinct (mark_removed name gs)
unfolding mark_removed
Distinct-mark_removed name [] h = tt
Distinct-mark_removed name (g ∷ gs) (a, h) = elim (Bool-cases (g.name == name)) [
  | inl e ↦ rw e (a, h)
  | inr e ↦ rw e (has_name-mark_removed name g.name gs ∙ a, Distinct-mark_removed name gs h)
]

has_name-erase_global :
    (name n : ℕ) (gs : List Global)
    → has_name n gs ≡ false
    → has_name n (erase_global name gs) ≡ false
unfolding erase_global
has_name-erase_global name n [] h = refl
has_name-erase_global name n (g ∷ gs) h = ground (arith, has_name-erase_global name n gs)

pub Below-erase_global :
    (name n : ℕ) (gs : List Global) → Below n gs → Below n (erase_global name gs)
unfolding erase_global
Below-erase_global name n [] h = tt
Below-erase_global name n (g ∷ gs) (a, h) = elim (Bool-cases (g.name == name)) [
  | inl e ↦ rw e (Below-erase_global name n gs h)
  | inr e ↦ rw e (a, Below-erase_global name n gs h)
]

pub Distinct-erase_global :
    (name : ℕ) (gs : List Global) → Distinct gs → Distinct (erase_global name gs)
unfolding erase_global
Distinct-erase_global name [] h = tt
Distinct-erase_global name (g ∷ gs) (a, h) = elim (Bool-cases (g.name == name)) [
  | inl e ↦ rw e (Distinct-erase_global name gs h)
  | inr e ↦ rw e (has_name-erase_global name g.name gs a, Distinct-erase_global name gs h)
]

-- What a client may bind.
module _ (visible : Client → Global → Bool) (iface : List ℕ) (version : ℕ) (c : Client) where
  pub find_binding-append :
      (gs : List Global) (g : Global)
      → has_name g.name gs ≡ false
      → find_binding visible g.name iface version c (gs ++ (g ∷ []))
        ≡ checked iface version (visible c g) g
  unfolding find_binding
  find_binding-append [] g h = ground arith
  find_binding-append (k ∷ gs) g h = ground (arith, find_binding-append gs g)

  pub find_binding-mark_removed :
      (name other : ℕ) (gs : List Global)
      → other ≢ name
      → find_binding visible other iface version c (mark_removed name gs)
        ≡ find_binding visible other iface version c gs
  unfolding find_binding mark_removed
  find_binding-mark_removed name other [] h = refl
  find_binding-mark_removed name other (g ∷ gs) h =
      ground (arith, find_binding-mark_removed name other gs h)

  pub find_binding-erase_global :
      (name other : ℕ) (gs : List Global)
      → find_binding visible other iface version c (erase_global name gs) ≡ (
          if other == name
          then Binding.unknown_global
          else find_binding visible other iface version c gs)
  unfolding find_binding erase_global
  find_binding-erase_global name other [] = ground arith
  find_binding-erase_global name other (g ∷ gs) =
      ground (arith, find_binding-erase_global name other gs)
