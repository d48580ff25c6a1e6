-- ===== src/Server/Objects.antt =====
-- The ids of a client's objects.
use mathlib.Core.Path.{subst}
use zwwm.Common.{
  ℕ, zero, suc, ◌+◌, ◌-◌, ◌%◌, ◌≡◌, ◌<◌, ◌≤◌, refl, ap, sym, ◌∙◌, arith, true, false, ◌||◌, ◌==◌,
  Option, none, some, List, [], ◌∷◌, Bool-cases, inl, inr, ◌⊎◌, ◌≢◌, ℕ_discrete,
}
use Prim.Native.Nat.{min}
use zwwm.Server.{
  Interface, Resource, Client, contains, in_range, first_server_id, new_resource, alloc_loop,
  alloc_id, create_at, create_resource, valid_new_id, find_resource,
}

-- Each id stands once.
abbrev pub Unique : List Resource → Type 0
Unique [] = Unit
Unique (r ∷ rs) = (contains r.id rs ≡ false) × Unique rs

-- The resources have unique ids, and the counter for the next id is a 32-bit number.
abbrev pub IsValid : Client → Type 0
IsValid c = Unique c.resources × (c.next_server_id < 4294967296)

-- A free id of the server's range, or 0; the resources stay.
abbrev pub Allocates : Client → ℕ × Client → Type 0
Allocates c (id, d) =
    (d.resources ≡ c.resources)
    × (d.connection ≡ c.connection)
    × (d.dead ≡ c.dead)
    × (d.next_server_id < 4294967296)
    × (¬ (id ≡ 0) → (first_server_id ≤ id) × (id < 4294967296) × (contains id c.resources ≡ false))

alloc_loop-Allocates :
    (attempts : ℕ) (c : Client)
    → c.next_server_id < 4294967296
    → Allocates c (alloc_loop attempts c)
unfolding alloc_loop
alloc_loop-Allocates zero c h = (refl, refl, refl, h, λ n. absurd (n refl))
alloc_loop-Allocates (suc attempts) c h =
    elim (Bool-cases (contains (in_range c.next_server_id) c.resources)) [
      | inl e ↦
          rw (e, alloc_loop)
            (alloc_loop-Allocates attempts
              (record c { next_server_id = (in_range c.next_server_id + 1) % 4294967296 })
              (omega arith))
      | inr e ↦
          rw (e, alloc_loop) (refl, refl, refl, omega arith, λ n. (ground arith, ground arith, e))
    ]

-- The id of the server's range that is `k` places behind `id`.
abbrev later_id : ℕ → ℕ → ℕ
later_id id k = first_server_id + (in_range id - first_server_id + k) % 16777216

later_id-suc :
    (n k : ℕ) → n < 4294967296 → later_id ((in_range n + 1) % 4294967296) k ≡ later_id n (suc k)
later_id-suc n k h = ground arith

later_id-zero : (n : ℕ) → n < 4294967296 → later_id n 0 ≡ in_range n
later_id-zero n h = ground arith

-- If no attempt finds an id, then those that were tried are taken.
alloc_loop-taken :
    (attempts : ℕ) (c : Client)
    → c.next_server_id < 4294967296
    → (alloc_loop attempts c).0 ≡ 0
    → (k : ℕ) → k < attempts
    → contains (later_id c.next_server_id k) c.resources ≡ true
unfolding alloc_loop
alloc_loop-taken zero c h e k l = elim l [ ]
alloc_loop-taken (suc attempts) c h e k l =
    elim (Bool-cases (contains (in_range c.next_server_id) c.resources)) [
      | inr free ↦ absurd (ground (arith, first_positive c.next_server_id, free))
      | inl taken ↦ elim (zero_or_suc k) [
        | inl z ↦ rw (z, later_id-zero c.next_server_id h) taken
        | inr (j, s) ↦
            rw (s, ← later_id-suc c.next_server_id j h)
              (alloc_loop-taken attempts
                (record c { next_server_id = (in_range c.next_server_id + 1) % 4294967296 })
                (omega arith) (ground (arith, taken)) j (omega arith))
      ]
    ]
  where
    zero_or_suc : (k : ℕ) → (k ≡ 0) ⊎ ((j : ℕ) × (k ≡ suc j))
    zero_or_suc zero = inl refl
    zero_or_suc (suc j) = inr (j, refl)

    first_positive : (n : ℕ) → 0 < in_range n
    first_positive n = ground arith

-- The counter stays a 32-bit number, and an id that is not 0 is free and in the server's range.
alloc_id-Allocates : (c : Client) → c.next_server_id < 4294967296 → Allocates c (alloc_id c)
unfolding alloc_id
alloc_id-Allocates c h = alloc_loop-Allocates 16777216 c h

-- No id of the server's range is free.
abbrev pub RangeTaken : Client → Type 0
RangeTaken c = (id : ℕ) → first_server_id ≤ id → id < 4294967296 → contains id c.resources ≡ true

reach_id :
    (n id : ℕ)
    → n < 4294967296
    → first_server_id ≤ id
    → id < 4294967296
    → later_id n ((id + 16777216 - in_range n) % 16777216) ≡ id
reach_id n id h low high = ground arith

alloc_id-RangeTaken :
    (c : Client) → c.next_server_id < 4294967296 → (alloc_id c).0 ≡ 0 → RangeTaken c
unfolding alloc_id
alloc_id-RangeTaken c h e id low high =
    ap (λ i. contains i c.resources) (sym (reach_id c.next_server_id id h low high))
    ∙ alloc_loop-taken 16777216 c h e ((id + 16777216 - in_range c.next_server_id) % 16777216)
        (omega arith)

-- Why create_resource makes nothing: no version, a taken id, or no free id to choose.
abbrev pub Refused : ℕ → ℕ → Client → Type 0
Refused asked version c =
    (version ≡ 0)
    ⊎ (((asked ≢ 0) × (contains asked c.resources ≡ true)) ⊎ ((asked ≡ 0) × RangeTaken c))

-- The id that was asked for, or one of the server's range where none was.
abbrev pub IdFor : ℕ → ℕ → Type 0
IdFor asked id = (asked ≢ 0 → id ≡ asked) × (asked ≡ 0 → (first_server_id ≤ id) × (id < 4294967296))

-- Nothing made and nothing added, for one of the reasons, or an object of the interface under a free
-- id, with the lower of the two versions.
abbrev pub Added : Option Interface → ℕ → ℕ → Client → Option Resource → Client → Type 0
Added none asked version c none d = d.resources ≡ c.resources
Added none asked version c (some r) d = ⊥
Added (some interface) asked version c none d =
    (d.resources ≡ c.resources) × Refused asked version c
Added (some interface) asked version c (some r) d =
    (d.resources ≡ r ∷ c.resources)
    × (contains r.id c.resources ≡ false)
    × (r.id ≢ 0)
    × IdFor asked r.id
    × (version ≢ 0)
    × (r.version ≡ min version interface.version)
    × (r.interface ≡ interface)

abbrev pub Creates : Option Interface → ℕ → ℕ → Client → Option Resource × Client → Type 0
Creates interface asked version c (result, d) = IsValid d × Added interface asked version c result d

-- With a chosen id, on the client that choosing leaves.
create_at-Creates :
    (interface : Option Interface) (asked id version : ℕ) (c d : Client)
    → Unique c.resources
    → d.resources ≡ c.resources
    → d.next_server_id < 4294967296
    → (id ≢ 0 → IdFor asked id)
    → ((id ≡ 0) ⊎ (contains id c.resources ≡ true) → Refused asked version c)
    → Creates interface asked version c (create_at interface id version d)
unfolding create_at
create_at-Creates none asked id version c d u same b chosen refused =
    ((subst Unique (sym same) u, b), same)
create_at-Creates (some interface) asked id version c d u same b chosen refused =
    elim (Bool-cases (id == 0 || version == 0 || contains id d.resources)) [
      | inl e ↦
          rw (e, create_at)
            (
              (subst Unique (sym same) u, b),
              (
                same,
                why (elim (Bool-cases (version == 0)) [
                  | inl z ↦ inl (ground arith)
                  | inr z ↦ inr (elim (Bool-cases (id == 0)) [
                    | inl y ↦ inl (ground arith)
                    | inr y ↦ inr (ap (λ rs. contains id rs) (sym same) ∙ ground (arith, e, z, y))
                  ])
                ]),
              ),
            )
      | inr e ↦
          let free : contains id c.resources ≡ false =
            ap (λ rs. contains id rs) (sym same) ∙ ground (arith, e) in
          rw (e, create_at)
            (
              ((ground (arith, e), subst Unique (sym same) u), b),
              (
                ap (λ rs. new_resource id version interface ∷ rs) same,
                free,
                (λ z. ground (arith, e)),
                chosen (λ z. ground (arith, e)),
                (λ z. ground (arith, e)),
                refl,
                refl,
              ),
            )
    ]
  where
    why : (version ≡ 0) ⊎ ((id ≡ 0) ⊎ (contains id c.resources ≡ true)) → Refused asked version c
    why (inl z) = inl z
    why (inr taken) = refused taken

-- create_resource keeps the ids of a client unique and its counter a 32-bit number. It makes nothing
-- and adds nothing exactly for an unknown interface, no version, an asked id that is taken, or no id
-- asked and none free in the server's range. Else it adds one object of the interface, under the
-- asked id or, if none is asked, one of the server's range, which was free; its version is the lower
-- of the asked one and that of the interface.
pub create_resource-Creates :
    (interface : Option Interface) (id version : ℕ) (c : Client)
    → IsValid c
    → Creates interface id version c (create_resource interface id version c)
unfolding create_resource
create_resource-Creates interface id version c v = elim (Bool-cases (id == 0)) [
  | inr e ↦
      rw (e, create_resource)
        (create_at-Creates interface id id version c c v.0 refl v.1
          (λ n. ((λ m. refl), (λ z. absurd (n z))))
          (λ why. inr (inl (named e, elim why [ inl z ↦ absurd (named e z) | inr t ↦ t ]))))
  | inl e ↦
      let (same, linked, alive, bounded, free) = alloc_id-Allocates c v.1 in
      rw (e, create_resource)
        (create_at-Creates interface id (alloc_id c).0 version c (alloc_id c).1 v.0 same bounded
          (λ n. ((λ m. absurd (m (ground (arith, e)))), (λ z. ((free n).0, (free n).1))))
          (λ why. inr (inr (ground (arith, e), none_free (free) why))))
]
  where
    named : {id : ℕ} → (id == 0) ≡ false → id ≢ 0
    named h z = ground arith

    none_free :
        (¬ ((alloc_id c).0 ≡ 0)
          → (first_server_id ≤ (alloc_id c).0)
            × ((alloc_id c).0 < 4294967296)
            × (contains (alloc_id c).0 c.resources ≡ false))
        → ((alloc_id c).0 ≡ 0) ⊎ (contains (alloc_id c).0 c.resources ≡ true)
        → RangeTaken c
    none_free free (inl z) = alloc_id-RangeTaken c v.1 z
    none_free free (inr t) = elim (ℕ_discrete (alloc_id c).0 0) [
      | yes z ↦ alloc_id-RangeTaken c v.1 z
      | no n ↦ absurd (cc (t, (free n).2))
    ]

-- An id that valid_new_id accepts, with an interface and a version: create_resource makes the object
-- under this id, and find_resource finds it.
pub create_resource-find :
    (interface : Interface) (id version : ℕ) (c : Client)
    → valid_new_id id c ≡ true
    → 1 ≤ version
    → let (result, d) = create_resource (some interface) id version c in
      (result ≡ some (new_resource id version interface))
      × (find_resource id d ≡ some (new_resource id version interface))
unfolding create_resource create_at valid_new_id find_resource
create_resource-find interface id version c h v = ground arith
