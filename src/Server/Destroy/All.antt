-- ===== src/Server/Destroy/All.antt =====
-- Client::destroy: every resource of the client is destroyed.
use zwwm.Common.{
  ℕ, ◌≡◌, refl, ap, ◌∙◌, arith, Bool, true, false, ◌||◌, ◌⊎◌, none, some, List, [], ◌∷◌, map, ◌==◌,
  if◌then◌else◌, Result, ok, Bool-cases, Option-cases, inl, inr,
}
use zwwm.Server.{Resource, Client, find, contains}
use zwwm.Server.Destroy.{
  Failure, Heard, insert_id, sort, Removal, destroy_resource, destroy_all, destroy,
}
use zwwm.Server.Destroy.Gone.{Destroyed, Erases, destroy_resource-Destroyed}
use zwwm.Wire.Connection.{Connection}

mem_id : ℕ → List ℕ → Bool
mem_id id [] = false
mem_id id (i ∷ ids) = i == id || mem_id id ids

mem_id-insert_id : (id i : ℕ) (ids : List ℕ) → mem_id id (insert_id i ids) ≡ mem_id id (i ∷ ids)
unfolding mem_id insert_id
mem_id-insert_id id i [] = refl
mem_id-insert_id id i (j ∷ ids) = ground (arith, mem_id-insert_id id i ids)

mem_id-sort : (id : ℕ) (ids : List ℕ) → mem_id id (sort ids) ≡ mem_id id ids
unfolding mem_id sort
mem_id-sort id [] = refl
mem_id-sort id (i ∷ ids) = ground (arith, mem_id-insert_id id i (sort ids), mem_id-sort id ids)

mem_id-map :
    (id : ℕ) (rs : List Resource) → mem_id id (map (λ (r : Resource). r.id) rs) ≡ contains id rs
unfolding mem_id
mem_id-map id [] = refl
mem_id-map id (r ∷ rs) = ap (λ b. r.id == id || b) (mem_id-map id rs)

find-none : (id : ℕ) (rs : List Resource) → contains id rs ≡ false → find id rs ≡ none
find-none id [] h = refl
find-none id (r ∷ rs) h = ground (arith, find-none id rs)

contains-find : (id : ℕ) (rs : List Resource) → find id rs ≡ none → contains id rs ≡ false
contains-find id [] h = refl
contains-find id (r ∷ rs) h = ground (arith, contains-find id rs)

find-some :
    (id : ℕ) (rs : List Resource) → contains id rs ≡ true → (r : Resource) × (find id rs ≡ some r)
find-some id rs h = elim (Option-cases (find id rs)) [
  | inr found ↦ found
  | inl missing ↦ absurd (cc (contains-find id rs missing, h))
]

none_contained : (rs : List Resource) → ((id : ℕ) → contains id rs ≡ false) → rs ≡ []
none_contained [] h = refl
none_contained (r ∷ rs) h = absurd (ground (arith, h r.id))

one_id :
    (id i : ℕ) (rs : List Resource)
    → mem_id id (i ∷ []) ≡ true
    → contains i rs ≡ false
    → contains id rs ≡ false
unfolding mem_id
one_id id i rs h k = rw (← same_id i id h) k
  where
    same_id : (i id : ℕ) → (i == id || false) ≡ true → i ≡ id
    same_id i id h = ground arith

-- The ids of the list are gone, and those that were gone still are.
abbrev Leaves : List ℕ → List Resource → List Resource → Type 0
Leaves ids before after =
    (id : ℕ) → (mem_id id ids ≡ true) ⊎ (contains id before ≡ false) → contains id after ≡ false

-- The listeners of a resource make no resources and leave the iterator to it valid, since they do not
-- destroy it again.
abbrev pub MakesNone : (Resource → Client → Heard) → Type 0
MakesNone on_destroy =
    (r : Resource) (c : Client)
    → ((on_destroy r c).iterator_valid ≡ true)
      × ((id : ℕ)
          → contains id c.resources ≡ false
          → contains id (on_destroy r c).client.resources ≡ false)

module _ (flush : Connection → Connection) (on_destroy : Resource → Client → Heard)
    (makes_none : MakesNone on_destroy) where
  erased :
      (valid : Bool) (id : ℕ) (heard : Client) (result : Result Failure Client)
      → valid ≡ true
      → Erases flush valid id heard result
      → (d : Client) × (result ≡ ok d) × Destroyed flush id heard d
  erased true id heard result e h = h
  erased false id heard result e h = absurd (cc e)

  one-Leaves :
      (i : ℕ) (c : Client)
      → (d : Client) × ((if contains i c.resources
            then destroy_resource flush on_destroy i c
            else ok c)
          ≡ ok d)
        × Leaves (i ∷ []) c.resources d.resources
  unfolding mem_id
  one-Leaves i c = elim (Bool-cases (contains i c.resources)) [
    | inr e ↦ (
      c,
      rw e refl,
      λ id h. elim h [ inl same ↦ one_id id i c.resources same e | inr gone ↦ gone ],
    )
    | inl e ↦
        let (r, there) = find-some i c.resources e in
        let (d, here, destroyed) =
          erased (on_destroy r c).iterator_valid i (on_destroy r c).client
            (destroy_resource flush on_destroy i c) (makes_none r c).0
            (destroy_resource-Destroyed flush on_destroy i r c there) in
        (
          d,
          rw e here,
          λ id h. elim (Bool-cases (i == id)) [
            | inl same ↦ ground (arith, contains-find id d.resources, destroyed.free)
            | inr other ↦ contains-find id d.resources (
                destroyed.others id (ground arith)
                ∙ find-none id (on_destroy r c).client.resources
                    ((makes_none r c).1 id (elim h [ inl same ↦ ground arith | inr gone ↦ gone ])))
          ],
        )
  ]

  destroy_all-Leaves :
      (ids : List ℕ) (c : Client)
      → (d : Client) × (destroy_all flush on_destroy ids c ≡ ok d)
        × Leaves ids c.resources d.resources
  unfolding destroy_all mem_id
  destroy_all-Leaves [] c = (c, refl, λ id h. elim h [ inl f ↦ cc | inr gone ↦ gone ])
  destroy_all-Leaves (i ∷ ids) c =
      let (d, here, first) = one-Leaves i c in
      let (e, there, others) = destroy_all-Leaves ids d in
      (
        e,
        rw here there,
        λ id h. others id (elim h [
          | inr gone ↦ inr (first id (inr gone))
          | inl listed ↦ elim (Bool-cases (i == id)) [
            | inl same ↦ inr (first id (inl (ground arith)))
            | inr other ↦ inl (ground arith)
          ]
        ]),
      )

  -- destroy, called for the first time on a client whose resources' listeners make no resources and do
  -- not destroy their own resource again, does not throw. The client has no resource left, whatever its own listeners added before; it is dead, and
  -- its removal from the display is scheduled.
  pub destroy-all_gone :
      (on_destroy_client : Client → Client) (c : Client)
      → c.destroying ≡ false
      → (r : Removal) × (destroy flush on_destroy on_destroy_client c ≡ ok r)
        × (r.client.resources ≡ [])
        × (r.client.dead ≡ true)
        × (r.scheduled ≡ true)
  unfolding destroy
  destroy-all_gone on_destroy_client c once =
      let begun : Client = on_destroy_client (record c { destroying = true }) in
      let (e, here, gone) =
        destroy_all-Leaves (sort (map (λ (r : Resource). r.id) begun.resources)) begun in
      (
        record {
          client = record e { connection = flush e.connection; dead = true };
          scheduled = true;
        },
        rw (once, here) refl,
        none_contained e.resources (λ id. gone id (elim (Bool-cases (contains id begun.resources)) [
          | inr missing ↦ inr missing
          | inl there ↦ inl (
              mem_id-sort id (map (λ (r : Resource). r.id) begun.resources)
              ∙ mem_id-map id begun.resources
              ∙ there)
        ])),
        refl,
        refl,
      )
