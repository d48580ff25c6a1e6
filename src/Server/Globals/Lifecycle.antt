-- ===== src/Server/Globals/Lifecycle.antt =====
-- What holds of the globals of a display after each call.
use mathlib.Core.Path.{subst}
use zwwm.Common.{
  ℕ, ◌≡◌, ◌≢◌, ◌≤◌, refl, sym, ap, ◌∙◌, arith, Bool, true, false, Option, some, List, ltb, ◌==◌,
  Result, ok, throw, ◌>>=◌, Result-cases, inl, inr,
}
use zwwm.Config.Checks.Ranges.{same_text_self}
use zwwm.Server.{Interface, Client}
use zwwm.Server.Globals.{
  BindHandler, Global, Display, DisplayError, add_global, remove_global, destroy_global, Binding,
  checked, find_binding,
}
use zwwm.Server.Globals.Names.{
  has_name, Distinct, IsNamed, Below-has_name, Below-append, Distinct-append, Below-mark_removed,
  Distinct-mark_removed, Below-erase_global, Distinct-erase_global, find_binding-append,
  find_binding-mark_removed, find_binding-erase_global,
}
use zwwm.Server.Globals.Calls.{
  new_global, Adds, Withdraws, add_global_inv, remove_global-Withdraws, destroy_global_inv,
}
use zwwm.Wire.Connection.{Connection}

Withdraws-IsNamed : (name : ℕ) (d e : Display) → Withdraws name d e → IsNamed d → IsNamed e
Withdraws-IsNamed name d e (next, kept) i = elim kept [
  | inl same ↦ record {
    distinct = subst Distinct (sym same) i.distinct;
    below = rw (same, next) i.below;
    bounded = rw next i.bounded;
  }
  | inr marked ↦ record {
    distinct = subst Distinct (sym marked) (Distinct-mark_removed name d.globals i.distinct);
    below = rw (marked, next) (Below-mark_removed name d.next_global_name d.globals i.below);
    bounded = rw next i.bounded;
  }
]

checked_lem :
    (g : Global) (version : ℕ)
    → version ≢ 0
    → version ≤ g.version
    → checked g.interface.name version true g ≡ Binding.bound g
unfolding checked
checked_lem g version h k = rw (same_text_self g.interface.name, not_zero, not_above) refl
  where
    not_zero : (version == 0) ≡ false
    not_zero = ground arith

    not_above : ltb g.version version ≡ false
    not_above = ground arith

withdraw-keeps :
    (visible : Client → Global → Bool) (iface : List ℕ) (version : ℕ) (c : Client) (name other : ℕ)
    (d e : Display)
    → Withdraws name d e
    → other ≢ name
    → find_binding visible other iface version c e.globals
      ≡ find_binding visible other iface version c d.globals
withdraw-keeps visible iface version c name other d e (next, kept) ne = elim kept [
  | inl same ↦ rw same refl
  | inr marked ↦
      rw marked (find_binding-mark_removed visible iface version c name other d.globals ne)
]

-- The calls of the display that change its globals.
pub data Call : Type 0 where
  add : Option Interface → ℕ → BindHandler → Call
  remove destroy : ℕ → Call

module _ (flush : Connection → Connection) (visible : Client → Global → Bool) where
  abbrev pub run : Call → Display → Result DisplayError Display
  run (Call.add interface version bind) d =
      add_global flush visible interface version bind d >>= λ added. ok added.1
  run (Call.remove name) d = remove_global flush visible name d
  run (Call.destroy name) d = destroy_global flush visible name d

  Adds-IsNamed :
      (interface : Option Interface) (version : ℕ) (bind : BindHandler) (d : Display) (name : ℕ)
      (e : Display)
      → Adds interface version bind d name e
      → IsNamed d
      → IsNamed e
  Adds-IsNamed interface version bind d name e a i =
      let g = new_global a.which version d.next_global_name bind in
      record {
        distinct = rw a.globals (
            Distinct-append d.globals g i.distinct
              (Below-has_name d.next_global_name d.globals i.below));
        below = rw (a.globals, a.next) (Below-append d.next_global_name d.globals g i.below refl);
        bounded = omega (arith, a.next, a.left, i.bounded);
      }

  -- A call that does not throw keeps the names of the globals distinct and below the next one.
  pub run-IsNamed : (call : Call) (d e : Display) → IsNamed d → run call d ≡ ok e → IsNamed e
  run-IsNamed (Call.add interface version bind) d e i h =
      let added = add_global flush visible interface version bind d in
      elim (Result-cases added) [
        | inl ((name, f), there) ↦ subst IsNamed (result name f there) (
            Adds-IsNamed interface version bind d name f
              (add_global_inv flush visible interface version bind d name f there) i)
        | inr (failed, there) ↦ absurd (thrown failed there)
      ]
    where
      result :
          (name : ℕ) (f : Display)
          → add_global flush visible interface version bind d ≡ ok (name, f)
          → f ≡ e
      result name f there = ground arith

      thrown :
          (failed : DisplayError)
          → add_global flush visible interface version bind d ≡ throw failed
          → ⊥
      thrown failed there = ground arith
  run-IsNamed (Call.remove name) d e i h =
      Withdraws-IsNamed name d e (remove_global-Withdraws flush visible name d e h) i
  run-IsNamed (Call.destroy name) d e i h =
      let (between, w, same) = destroy_global_inv flush visible name d e h in
      let b : IsNamed between = Withdraws-IsNamed name d between w i in
      subst IsNamed (sym same) (record {
        distinct = Distinct-erase_global name between.globals b.distinct;
        below = Below-erase_global name between.next_global_name between.globals b.below;
        bounded = b.bounded;
      })

  -- A global that was added has a name that no other had, and a client that sees it binds it by that name
  -- with its interface, in every version up to the one published.
  pub add_global-binds :
      (interface : Option Interface) (version : ℕ) (bind : BindHandler) (d : Display) (name : ℕ)
      (e : Display)
      → IsNamed d
      → add_global flush visible interface version bind d ≡ ok (name, e)
      → (which : Interface) × (interface ≡ some which)
        × (has_name name d.globals ≡ false)
        × ((c : Client) (wanted : ℕ)
            → visible c (new_global which version name bind) ≡ true
            → wanted ≢ 0
            → wanted ≤ version
            → find_binding visible name which.name wanted c e.globals
              ≡ Binding.bound (new_global which version name bind))
  add_global-binds interface version bind d name e i h =
      let a = add_global_inv flush visible interface version bind d name e h in
      let g = new_global a.which version d.next_global_name bind in
      let fresh = Below-has_name d.next_global_name d.globals i.below in
      (
        a.which,
        a.given,
        rw a.fresh fresh,
        λ c wanted sees positive low.
            rw (a.globals, a.fresh)
              (find_binding-append visible a.which.name wanted c d.globals g fresh
                ∙ ap (λ b. checked a.which.name wanted b g) (rw a.fresh at sees)
                ∙ checked_lem g wanted positive low),
      )

  -- After destroy_global a client that binds its name gets the error for an unknown global, and every
  -- other name binds as before.
  pub destroy_global-unbinds :
      (name : ℕ) (d e : Display)
      → destroy_global flush visible name d ≡ ok e
      → (iface : List ℕ) (version : ℕ) (c : Client)
      → (find_binding visible name iface version c e.globals ≡ Binding.unknown_global)
        × ((other : ℕ)
            → other ≢ name
            → find_binding visible other iface version c e.globals
              ≡ find_binding visible other iface version c d.globals)
  destroy_global-unbinds name d e h iface version c =
      let (between, w, same) = destroy_global_inv flush visible name d e h in
      (
        rw same (
            find_binding-erase_global visible iface version c name name between.globals
            ∙ rw (self name) refl),
        λ other ne. rw same (
            find_binding-erase_global visible iface version c name other between.globals
            ∙ rw (differs other ne)
                (withdraw-keeps visible iface version c name other d between w ne)),
      )
    where
      self : (n : ℕ) → (n == n) ≡ true
      self n = ground arith

      differs : (other : ℕ) → other ≢ name → (other == name) ≡ false
      differs other ne = ground arith
