-- ===== src/Server/Globals/Calls.antt =====
-- The calls that change the globals of a display, one after the other.
use zwwm.Common.{
  ℕ, ◌+◌, ◌≡◌, ◌≢◌, ◌≤◌, refl, arith, Bool, true, false, ◌⊎◌, Option, none, some, List, [], ◌∷◌,
  ◌++◌, ltb, ◌==◌, Result, ok, throw, ◌>>=◌, Bool-cases, Result-cases, inl, inr,
}
use zwwm.Server.{Interface, Client}
use zwwm.Server.Globals.{
  BindHandler, Global, Display, DisplayError, lift, each_client, find_global, mark_removed,
  erase_global, max_uint32, published, withdrawn, notify_global, notify_removed, publish,
  add_global, withdraw, remove_global, destroy_global,
}
use zwwm.Wire.Connection.{Connection}

abbrev pub new_global : Interface → ℕ → ℕ → BindHandler → Global
new_global interface version name bind = record {
  interface = interface;
  version = version;
  name = name;
  bind = bind;
  removed = false;
}

-- What add_global does where it does not throw.
pub record Adds (interface : Option Interface) (version : ℕ) (bind : BindHandler) (d : Display)
    (name : ℕ) (e : Display) : Type 0 where
  pub which : Interface
  pub given : interface ≡ some which
  pub low : version ≤ which.version
  pub left : d.next_global_name ≢ max_uint32
  pub fresh : name ≡ d.next_global_name
  pub globals : e.globals ≡ d.globals ++ (new_global which version d.next_global_name bind ∷ [])
  pub next : e.next_global_name ≡ d.next_global_name + 1

-- What remove_global does to the globals.
abbrev pub Withdraws : ℕ → Display → Display → Type 0
Withdraws name d e =
    (e.next_global_name ≡ d.next_global_name)
    × ((e.globals ≡ d.globals) ⊎ (e.globals ≡ mark_removed name d.globals))

publish_inv :
    (m : Result DisplayError (List Client)) (g : Global) (d : Display) (name : ℕ) (e : Display)
    → (m >>= λ cs. ok (published g d cs)) ≡ ok (name, e)
    → (name ≡ g.name)
      × (e.globals ≡ d.globals ++ (g ∷ []))
      × (e.next_global_name ≡ d.next_global_name + 1)
publish_inv (ok cs) g d name e h = (ground arith, ground arith, ground arith)
publish_inv (throw f) g d name e h = cc

withdraw_inv :
    (m : Result DisplayError (List Client)) (name : ℕ) (d e : Display)
    → (m >>= λ cs. ok (withdrawn name d cs)) ≡ ok e
    → (e.next_global_name ≡ d.next_global_name) × (e.globals ≡ mark_removed name d.globals)
withdraw_inv (ok cs) name d e h = (ground arith, ground arith)
withdraw_inv (throw f) name d e h = cc

module _ (flush : Connection → Connection) (visible : Client → Global → Bool) where
  pub add_global_inv :
      (interface : Option Interface) (version : ℕ) (bind : BindHandler) (d : Display) (name : ℕ)
      (e : Display)
      → add_global flush visible interface version bind d ≡ ok (name, e)
      → Adds interface version bind d name e
  unfolding add_global publish
  add_global_inv none version bind d name e h = cc
  add_global_inv (some i) version bind d name e h = elim (Bool-cases (version == 0)) [
    | inl a ↦ absurd (ground arith)
    | inr a ↦ elim (Bool-cases (ltb i.version version)) [
      | inl b ↦ absurd (ground arith)
      | inr b ↦ elim (Bool-cases (d.next_global_name == max_uint32)) [
        | inl f ↦ absurd (ground arith)
        | inr f ↦
            let g = new_global i version d.next_global_name bind in
            let (fresh, globals, next) =
              publish_inv (lift (each_client (notify_global flush visible g) d.clients)) g d name e
                (rw (a, b, f) at h) in
            record {
              which = i;
              given = refl;
              low = ground arith;
              left = ground arith;
              fresh = fresh;
              globals = globals;
              next = next;
            }
      ]
    ]
  ]

  withdraw-Withdraws :
      (name : ℕ) (found : Option Global) (d e : Display)
      → withdraw flush visible name found d ≡ ok e
      → Withdraws name d e
  unfolding withdraw
  withdraw-Withdraws name none d e h = (ground arith, inl (ground arith))
  withdraw-Withdraws name (some g) d e h = elim (Bool-cases g.removed) [
    | inl a ↦ (ground arith, inl (ground arith))
    | inr a ↦
        let (next, globals) =
          withdraw_inv
            (lift
              (each_client (notify_removed flush visible (record g { removed = true })) d.clients))
            name d e (rw a at h) in
        (next, inr globals)
  ]

  pub remove_global-Withdraws :
      (name : ℕ) (d e : Display) → remove_global flush visible name d ≡ ok e → Withdraws name d e
  unfolding remove_global
  remove_global-Withdraws name d e h = withdraw-Withdraws name (find_global name d.globals) d e h

  pub destroy_global_inv :
      (name : ℕ) (d e : Display)
      → destroy_global flush visible name d ≡ ok e
      → (between : Display) × Withdraws name d between
        × (e ≡ record between { globals = erase_global name between.globals })
  unfolding destroy_global
  destroy_global_inv name d e h = elim (Result-cases (remove_global flush visible name d)) [
    | inl (between, there) ↦
        (between, remove_global-Withdraws name d between there, destroyed between there)
    | inr (failed, there) ↦ absurd (thrown failed there)
  ]
    where
      destroyed :
          (between : Display)
          → remove_global flush visible name d ≡ ok between
          → e ≡ record between { globals = erase_global name between.globals }
      destroyed between there = ground arith

      thrown : (failed : DisplayError) → remove_global flush visible name d ≡ throw failed → ⊥
      thrown failed there = ground arith
