-- ===== src/Server/Destroy/Gone.antt =====
-- What is left of a resource that was destroyed, and of a client.
use zwwm.Common.{
  ℕ, ◌+◌, ◌*◌, ◌≡◌, ◌≢◌, refl, ap, ◌∙◌, arith, Bool, true, false, not, ◌&&◌, none, some, List, [],
  ◌∷◌, ◌++◌, ltb, if◌then◌else◌, ok, Result, throw, Bool-cases, inl, inr,
}
use zwwm.Server.{Resource, Client, find, first_server_id}
use zwwm.Server.Destroy.{
  Failure, Heard, erase, delete_id_event, client_output_changed, send_built, announce,
  destroy_found, destroy_resource,
}
use zwwm.Wire.Builder
use zwwm.Wire.Builder.{
  MessageBuilder, append_uint, set_opcode, finish, take_fds, pad_to_alignment, pad_loop,
}
use zwwm.Wire.Bytes.{le32}
use zwwm.Wire.Connection.{Connection, queue}

-- The bytes of wl_display.delete_id: object 1, twelve bytes, opcode 1 and the id.
abbrev pub delete_id_bytes : ℕ → List ℕ
delete_id_bytes id = le32 1 ++ (le32 (12 * 65536 + 1) ++ le32 id)

delete_id_event_lem :
    (id : ℕ)
    → (left : MessageBuilder) × (delete_id_event id ≡ ok (delete_id_bytes id, left))
      × ((take_fds left).0 ≡ [])
unfolding delete_id_event finish append_uint set_opcode zwwm.Wire.Builder.make pad_to_alignment
    pad_loop take_fds
delete_id_event_lem id = (record { buffer = []; fds = []; opcode = 1 }, refl, refl)

find-erase_self : (id : ℕ) (rs : List Resource) → find id (erase id rs) ≡ none
unfolding erase
find-erase_self id [] = refl
find-erase_self id (r ∷ rs) = ground (arith, find-erase_self id rs)

find-erase_ne :
    (id other : ℕ) (rs : List Resource) → other ≢ id → find other (erase id rs) ≡ find other rs
unfolding erase
find-erase_ne id other [] h = refl
find-erase_ne id other (r ∷ rs) h = ground (arith, find-erase_ne id other rs)

module _ (flush : Connection → Connection) where
  -- The client with the bytes queued on its connection, which is flushed if it is a link.
  abbrev pub Queued : List ℕ → Connection → Connection → Type 0
  Queued bytes before after =
      after ≡ (if before.loopback then flush (queue bytes [] before) else queue bytes [] before)

  -- The client is told if the id is its own and it lives.
  record Announced (id : ℕ) (c d : Client) : Type 0 where
    pub resources : d.resources ≡ c.resources
    pub dead : d.dead ≡ c.dead
    pub told :
        (ltb id first_server_id && not c.dead) ≡ true
        → Queued (delete_id_bytes id) c.connection d.connection
    pub quiet : (ltb id first_server_id && not c.dead) ≡ false → d.connection ≡ c.connection

  changed_lem :
      (c : Client)
      → ((client_output_changed flush c).resources ≡ c.resources)
        × ((client_output_changed flush c).dead ≡ c.dead)
        × ((client_output_changed flush c).connection
            ≡ (if c.connection.loopback then flush c.connection else c.connection))
  unfolding client_output_changed
  changed_lem c = elim (Bool-cases (c.connection.loopback)) [
    | inl e ↦ rw e (refl, refl, refl)
    | inr e ↦ rw e (refl, refl, refl)
  ]

  told_lem :
      (id : ℕ) (c : Client) (left : MessageBuilder)
      → (take_fds left).0 ≡ []
      → (ltb id first_server_id && not c.dead) ≡ true
      → (d : Client) × (send_built flush (ok (delete_id_bytes id, left)) c ≡ ok d)
        × Announced id c d
  unfolding send_built queue
  told_lem id c left none_taken e =
      let (resources, dead, connection) =
        changed_lem (record c { connection = queue (delete_id_bytes id) [] c.connection }) in
      (
        client_output_changed flush
            (record c { connection = queue (delete_id_bytes id) [] c.connection }),
        rw none_taken refl,
        record {
          resources = resources;
          dead = dead;
          told = λ _. connection;
          quiet = λ f. absurd (both e f);
        },
      )
    where
      both : {b : Bool} → b ≡ true → b ≡ false → ⊥
      both p q = cc

  announce_lem :
      (id : ℕ) (c : Client) → (d : Client) × (announce flush id c ≡ ok d) × Announced id c d
  unfolding announce
  announce_lem id c = elim (Bool-cases (ltb id first_server_id && not c.dead)) [
    | inr e ↦ (
      c,
      rw e refl,
      record { resources = refl; dead = refl; told = λ f. absurd (cc e); quiet = λ _. refl },
    )
    | inl e ↦
        let (left, built, none_taken) = delete_id_event_lem id in
        let (d, here, told) = told_lem id c left none_taken e in (d, rw (e, built) here, told)
  ]

  -- What destroy_resource leaves: the id is free, other resources are as the listeners left them, and
  -- the client has the event.
  pub record Destroyed (id : ℕ) (heard : Client) (d : Client) : Type 0 where
    pub free : find id d.resources ≡ none
    pub others : (other : ℕ) → other ≢ id → find other d.resources ≡ find other heard.resources
    pub dead : d.dead ≡ heard.dead
    pub told :
        (ltb id first_server_id && not heard.dead) ≡ true
        → Queued (delete_id_bytes id) heard.connection d.connection
    pub quiet : (ltb id first_server_id && not heard.dead) ≡ false → d.connection ≡ heard.connection

  -- What comes of it, by whether the iterator is still valid after the listeners ran.
  abbrev pub Erases : Bool → ℕ → Client → Result Failure Client → Type 0
  Erases true id heard result = (d : Client) × (result ≡ ok d) × Destroyed id heard d
  Erases false id heard result = result ≡ throw Failure.undefined_erase

  Erases-if :
      (valid : Bool) (id : ℕ) (heard d : Client)
      → Announced id heard d
      → Erases valid id heard (
          if valid
          then ok (record d { resources = erase id d.resources })
          else throw Failure.undefined_erase)
  Erases-if false id heard d a = refl
  Erases-if true id heard d a = (
    record d { resources = erase id d.resources },
    refl,
    record {
      free = find-erase_self id d.resources;
      others = λ other ne. find-erase_ne id other d.resources ne ∙ ap (find other) a.resources;
      dead = a.dead;
      told = a.told;
      quiet = a.quiet;
    },
  )

  pub destroy_resource-Destroyed :
      (on_destroy : Resource → Client → Heard) (id : ℕ) (r : Resource) (c : Client)
      → find id c.resources ≡ some r
      → Erases
          (on_destroy r c).iterator_valid
          id
          (on_destroy r c).client
          (destroy_resource flush on_destroy id c)
  unfolding destroy_resource destroy_found
  destroy_resource-Destroyed on_destroy id r c there =
      let (d, here, a) = announce_lem id (on_destroy r c).client in
      rw (there, here) (Erases-if (on_destroy r c).iterator_valid id (on_destroy r c).client d a)
