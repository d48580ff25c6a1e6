-- ===== src/Server/Globals/Told.antt =====
-- The events that clients get when a global is added.
use zwwm.Common.{
  ℕ, ◌+◌, ◌≡◌, ◌≢◌, ◌≤◌, refl, sym, ap, ◌∙◌, arith, Bool, true, false, not, ◌&&◌, none, some, List,
  [], ◌∷◌, ◌++◌, map, append-nil, append_assoc, ltb, length, ◌==◌, if◌then◌else◌, Result, ok, throw,
  ◌>>=◌, Bool-cases, inl, inr,
}
use zwwm.Server.{Interface, Client}
use zwwm.Server.Destroy.{client_output_changed, send_event}
use zwwm.Server.Globals.{
  BindHandler, Global, Display, global_event, send_made, notify_ids, notify_global, each_client,
  published, publish, add_global, max_uint32,
}
use zwwm.Server.Globals.Calls.{new_global}
use zwwm.Wire.Args.{Arg, AllFit, append_arg, append_args, encode_all}
use zwwm.Wire.Builder
use zwwm.Wire.Builder.{MessageBuilder, append_uint, append_string, set_opcode, finish, take_fds}
use zwwm.Wire.Connection.{Connection, queue}
use zwwm.Wire.Error.{Error}
use zwwm.Wire.Message.{build, build_lem, message_bytes}

-- The arguments of wl_registry.global.
abbrev pub global_args : Global → List Arg
global_args g = Arg.uint g.name ∷ Arg.string g.interface.name ∷ Arg.uint g.version ∷ []

-- The event fits a message.
abbrev pub IsSendable : Global → Type 0
IsSendable g = AllFit (global_args g) × (8 + length (encode_all (global_args g)) ≤ 65535)

-- The messages that wait to be sent.
abbrev pub outputs : Client → List (List ℕ)
outputs c = c.connection.output_chunks

abbrev taken : List ℕ × MessageBuilder → Result Error (List ℕ × List ℕ)
taken (bytes, left) = ok (bytes, (take_fds left).0)

from_build :
    (m : Result Error (List ℕ × MessageBuilder)) (bytes : List ℕ)
    → (m >>= taken) ≡ ok (bytes, [])
    → (left : MessageBuilder) × (m ≡ ok (bytes, left)) × ((take_fds left).0 ≡ [])
from_build (ok (b, left)) bytes h = (left, ground arith, ground arith)
from_build (throw e) bytes h = cc

regroup :
    (m : Result Error MessageBuilder) (version : ℕ)
    → ((m >>= λ b. ok (append_uint version b)) >>= λ b. (finish b >>= taken))
      ≡ ((m >>= λ b. finish (append_uint version b)) >>= taken)
regroup (ok b) version = refl
regroup (throw e) version = refl

same_build :
    (id : ℕ) (g : Global) → build (λ n. none) id 0 (global_args g) ≡ (global_event id g >>= taken)
unfolding build append_args append_arg global_event
same_build id g =
    regroup
      (append_string g.interface.name
        (append_uint g.name (set_opcode 0 (zwwm.Wire.Builder.make id))))
      g.version

global_event_lem :
    (id : ℕ) (g : Global)
    → IsSendable g
    → (left : MessageBuilder) × (global_event id g ≡ ok (message_bytes id 0 (global_args g), left))
      × ((take_fds left).0 ≡ [])
global_event_lem id g (fit, small) =
    from_build (global_event id g) (message_bytes id 0 (global_args g)) (
      sym (same_build id g)
      ∙ build_lem (λ n. none) id 0 (global_args g) fit (tt, (tt, (tt, tt))) small (omega arith))

module _ (flush : Connection → Connection) (visible : Client → Global → Bool) where
  -- An event for each registry.
  pub tell : Global → List ℕ → Client → Client
  tell g [] c = c
  tell g (id ∷ ids) c = tell g ids (send_event flush (message_bytes id 0 (global_args g)) [] c)

  pub tell_visible : Global → Client → Client
  tell_visible g c = if visible c g then tell g c.registry_ids c else c

  notify_ids_lem :
      (g : Global) (ids : List ℕ) (c : Client)
      → IsSendable g
      → notify_ids flush visible (λ id. global_event id g) ids c ≡ ok (tell g ids c)
  unfolding notify_ids send_made tell
  notify_ids_lem g [] c s = refl
  notify_ids_lem g (id ∷ ids) c s =
      let (left, event, none_taken) = global_event_lem id g s in
      rw (event, none_taken)
        (notify_ids_lem g ids (send_event flush (message_bytes id 0 (global_args g)) [] c) s)

  notify_global_lem :
      (g : Global) (c : Client)
      → IsSendable g
      → notify_global flush visible g c ≡ ok (tell_visible g c)
  unfolding notify_global tell_visible
  notify_global_lem g c s = elim (Bool-cases (visible c g)) [
    | inl e ↦ rw e (notify_ids_lem g c.registry_ids c s)
    | inr e ↦ rw e refl
  ]

  each_client_lem :
      (g : Global) (cs : List Client)
      → IsSendable g
      → each_client (notify_global flush visible g) cs ≡ ok (map (tell_visible g) cs)
  unfolding each_client
  each_client_lem g [] s = refl
  each_client_lem g (c ∷ cs) s = rw (notify_global_lem g c s, each_client_lem g cs s) refl

  send_event-output :
      (bytes : List ℕ) (c : Client)
      → c.dead ≡ false
      → c.connection.loopback ≡ false
      → (outputs (send_event flush bytes [] c) ≡ outputs c ++ (bytes ∷ []))
        × ((send_event flush bytes [] c).dead ≡ false)
        × ((send_event flush bytes [] c).connection.loopback ≡ false)
  unfolding send_event client_output_changed queue
  send_event-output bytes c alive socket = (ground arith, ground arith, ground arith)

  tell-output :
      (g : Global) (ids : List ℕ) (c : Client)
      → c.dead ≡ false
      → c.connection.loopback ≡ false
      → outputs (tell g ids c) ≡ outputs c ++ map (λ id. message_bytes id 0 (global_args g)) ids
  unfolding tell
  tell-output g [] c alive socket = sym (append-nil (outputs c))
  tell-output g (id ∷ ids) c alive socket =
      let bytes = message_bytes id 0 (global_args g) in
      let (sent, lives, stays) = send_event-output bytes c alive socket in
      tell-output g ids (send_event flush bytes [] c) lives stays
      ∙ ap (λ l. l ++ map (λ i. message_bytes i 0 (global_args g)) ids) sent
      ∙ append_assoc (outputs c) (bytes ∷ []) (map (λ i. message_bytes i 0 (global_args g)) ids)

  send_event-dead : (bytes : List ℕ) (c : Client) → c.dead ≡ true → send_event flush bytes [] c ≡ c
  unfolding send_event
  send_event-dead bytes c dead = ground arith

  -- A dead client gets nothing.
  tell-dead : (g : Global) (ids : List ℕ) (c : Client) → c.dead ≡ true → tell g ids c ≡ c
  unfolding tell
  tell-dead g [] c dead = refl
  tell-dead g (id ∷ ids) c dead =
      ap (tell g ids) (send_event-dead (message_bytes id 0 (global_args g)) c dead)
      ∙ tell-dead g ids c dead

  -- One wl_registry.global event for each registry of a living client that sees the global.
  abbrev pub events : Global → Client → List (List ℕ)
  events g c =
      if visible c g && not c.dead
      then map
          (λ id.
            message_bytes id 0
              (Arg.uint g.name ∷ Arg.string g.interface.name ∷ Arg.uint g.version ∷ []))
          c.registry_ids
      else []

  -- A client on a socket has the events queued behind what waits already. One on a link in this
  -- process gets them through the flush as well.
  abbrev pub ToldOn : Bool → Global → Client → Client → Type 0
  ToldOn false g c d = outputs d ≡ outputs c ++ events g c
  ToldOn true g c d = d ≡ tell_visible g c

  -- The clients before and after, one by one.
  abbrev pub AllTold : Global → List Client → List Client → Type 0
  AllTold g [] [] = Unit
  AllTold g [] (d ∷ ds) = ⊥
  AllTold g (c ∷ cs) [] = ⊥
  AllTold g (c ∷ cs) (d ∷ ds) = ToldOn c.connection.loopback g c d × AllTold g cs ds

  tell-output_or_none :
      (g : Global) (c : Client)
      → c.connection.loopback ≡ false
      → outputs (tell g c.registry_ids c)
        ≡ outputs c
          ++ (if not c.dead
              then map (λ id. message_bytes id 0 (global_args g)) c.registry_ids
              else [])
  tell-output_or_none g c socket =
      let sent = map (λ id. message_bytes id 0 (global_args g)) c.registry_ids in
      elim (Bool-cases c.dead) [
        | inl dead ↦
            ap outputs (tell-dead g c.registry_ids c dead)
            ∙ sym (append-nil (outputs c))
            ∙ ap (λ b. outputs c ++ (if not b then sent else [])) (sym dead)
        | inr alive ↦
            tell-output g c.registry_ids c alive socket
            ∙ ap (λ b. outputs c ++ (if not b then sent else [])) (sym alive)
      ]

  tell_visible-output :
      (g : Global) (c : Client)
      → c.connection.loopback ≡ false
      → outputs (tell_visible g c) ≡ outputs c ++ events g c
  unfolding tell_visible
  tell_visible-output g c socket = elim (Bool-cases (visible c g)) [
    | inr hidden ↦ rw hidden (sym (append-nil (outputs c)))
    | inl sees ↦ rw sees (tell-output_or_none g c socket)
  ]

  ToldOn_lem :
      (link : Bool) (g : Global) (c : Client)
      → c.connection.loopback ≡ link
      → ToldOn link g c (tell_visible g c)
  ToldOn_lem false g c e = tell_visible-output g c e
  ToldOn_lem true g c e = refl

  AllTold_lem : (g : Global) (cs : List Client) → AllTold g cs (map (tell_visible g) cs)
  AllTold_lem g [] = tt
  AllTold_lem g (c ∷ cs) = (ToldOn_lem c.connection.loopback g c refl, AllTold_lem g cs)

  -- add_global of an interface in one of its versions, whose event fits a message, does not throw while
  -- there are names left. It publishes the global under the next name, and tells the clients: one on a
  -- socket has behind its output one wl_registry.global event for each of its registries, with the name,
  -- the interface and the version, if it lives and sees the global, and else nothing.
  pub add_global-tells :
      (interface : Interface) (version : ℕ) (bind : BindHandler) (d : Display)
      → version ≢ 0
      → version ≤ interface.version
      → d.next_global_name ≢ max_uint32
      → IsSendable (new_global interface version d.next_global_name bind)
      → (told : List Client) × (add_global flush visible (some interface) version bind d
          ≡ ok (published (new_global interface version d.next_global_name bind) d told))
        × AllTold (new_global interface version d.next_global_name bind) d.clients told
  unfolding add_global publish
  add_global-tells interface version bind d positive low left s =
      let g = new_global interface version d.next_global_name bind in
      (
        map (tell_visible g) d.clients,
        rw (not_zero, not_above, not_last, each_client_lem g d.clients s) refl,
        AllTold_lem g d.clients,
      )
    where
      not_zero : (version == 0) ≡ false
      not_zero = ground arith

      not_above : ltb interface.version version ≡ false
      not_above = ground arith

      not_last : (d.next_global_name == max_uint32) ≡ false
      not_last = ground arith
