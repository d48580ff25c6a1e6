-- ===== src/Server/Drained.antt =====
-- The loop in dispatch_available, over the input that is there.
use zwwm.Common.{
  ℕ, zero, suc, ◌≡◌, ◌≤◌, ◌<◌, ap, arith, Option, none, some, Option-cases, inl, inr, length,
  length-drop,
}
use zwwm.Wire.Parser
use zwwm.Wire.Parser.{MessageParser}
use zwwm.Wire.Connection.{Connection, Message, next_message, consume, word_at, byte_at, bad_size}
use zwwm.Wire.Connection.Stream.{IsValid, input}
use zwwm.Wire.Connection.Consume.{consume-input}
use zwwm.Server.{
  Interface, Resource, Client, Handler, Handled, Step, Texts, handle, consumed, dispatch_message,
  dispatch_loop,
}
use zwwm.Server.Dispatch.{StopsOr, StopsOr-map, dispatch_message_lem}

next_message-again :
    (c : Connection) → (next_message c).0 ≡ none → (next_message (next_message c).1).0 ≡ none
unfolding next_message word_at byte_at
next_message-again c h = ground arith

next_message-some :
    (c : Connection) (m : Message)
    → (next_message c).0 ≡ some m
    → ((next_message c).1 ≡ c) × (8 ≤ m.size) × (m.size ≤ c.input_bytes)
unfolding next_message bad_size
next_message-some c m h = ground arith

-- The handlers leave the input of the connection to the loop.
abbrev pub KeepsInput : (Resource → ℕ → MessageParser → Client → Handled) → Type 0
KeepsInput run =
    (r : Resource) (opcode : ℕ) (parser : MessageParser) (c : Client)
    → IsValid c.connection
    → IsValid (run r opcode parser c).client.connection
      × (input (run r opcode parser c).client.connection ≡ input c.connection)

-- What the loop leaves.
abbrev pub Drained : Option Step → Type 0
Drained none = ⊥
Drained (some s) = StopsOr (λ d. (next_message d.connection).0 ≡ none) s

consumed_lem :
    (c : Connection) (size fds : ℕ)
    → IsValid c
    → 8 ≤ size
    → size ≤ c.input_bytes
    → IsValid (consume size fds c) × (length (input (consume size fds c)) < length (input c))
consumed_lem c size fds v big fits =
    let counted : c.input_bytes ≡ length (input c) = v.counted in
    let within : size ≤ length (input c) = omega (arith, fits, counted) in
    let (dropped, waiting, valid) = consume-input c size fds v within in
    (valid, omega (arith, ap length dropped, length-drop size (input c), big, within))

-- One round and the rest of the loop.
go_on :
    (P : Client → Type 0) (rest : Client → Option Step) (s : Step)
    → StopsOr P s
    → ((d : Client) → P d → Drained (rest d))
    → Drained (elim s as (λ x. Option Step) [
      | Step.next d ↦ rest d
      | Step.stop d ↦ some (Step.stop d)
      | Step.thrown e d ↦ some (Step.thrown e d)
    ])
go_on P rest (Step.next d) h k = k d h
go_on P rest (Step.stop d) h k = h
go_on P rest (Step.thrown e d) h k = h

module _ (flush : Connection → Connection) (own_handler : Resource → Option Handler)
    (handler_for : Interface → Option Handler) (texts : Texts)
    (keeps : KeepsInput (handle own_handler handler_for texts)) where
  -- A round that goes on leaves a valid connection with less input.
  round_lem :
      (m : Message) (c : Client)
      → IsValid c.connection
      → 8 ≤ m.size
      → m.size ≤ c.connection.input_bytes
      → StopsOr
          (λ d. IsValid d.connection × (length (input d.connection) < length (input c.connection)))
          (dispatch_message flush own_handler handler_for texts m c)
  round_lem m c v big fits =
      StopsOr-map (dispatch_message flush own_handler handler_for texts m c)
        (λ d (r, found, (known, new_enough, (threw, read, alive, same))).
          shorter d
            (handle own_handler handler_for texts r m.opcode (zwwm.Wire.Parser.make m.body m.fds) c)
            (keeps r m.opcode (zwwm.Wire.Parser.make m.body m.fds) c v) same)
        (dispatch_message_lem flush own_handler handler_for texts m c)
    where
      shorter :
          (d : Client) (h : Handled)
          → IsValid h.client.connection × (input h.client.connection ≡ input c.connection)
          → d ≡ consumed m.size h.parser.fd_pos h.client
          → IsValid d.connection × (length (input d.connection) < length (input c.connection))
      shorter d h (w, kept) same =
          let there : h.client.connection.input_bytes ≡ length (input h.client.connection) =
            w.counted in
          let here : c.connection.input_bytes ≡ length (input c.connection) = v.counted in
          let equal : length (input h.client.connection) ≡ length (input c.connection) =
            ap length kept in
          let (valid, less) =
            consumed_lem h.client.connection m.size h.parser.fd_pos w big
              (omega (arith, there, here, equal, fits)) in
          rw same (valid, omega (arith, less, equal))

  loop_lem :
      (fuel : ℕ) (c : Client)
      → IsValid c.connection
      → length (input c.connection) < fuel
      → Drained (dispatch_loop flush own_handler handler_for fuel texts c)
  unfolding dispatch_loop
  loop_lem zero c v h = elim h [ ]
  loop_lem (suc fuel) c v h = elim (Option-cases (next_message c.connection).0) [
    | inl e ↦ rw (e, dispatch_loop) (next_message-again c.connection e)
    | inr (m, e) ↦
        let (same, big, fits) = next_message-some c.connection m e in
        rw (e, same, dispatch_loop)
          (go_on
            (λ d.
              IsValid d.connection × (length (input d.connection) < length (input c.connection)))
            (dispatch_loop flush own_handler handler_for fuel texts)
            (dispatch_message flush own_handler handler_for texts m c) (round_lem m c v big fits)
            (λ d (w, less). loop_lem fuel d w (omega (arith, less, h))))
  ]

  -- If the handlers leave the input of the connection alone, the loop of dispatch_available ends within
  -- one round for each byte of input and one more. It ends with a dead client, or without a complete
  -- message in the input.
  pub dispatch_loop-Drained :
      (c : Client)
      → IsValid c.connection
      → Drained
          (dispatch_loop flush own_handler handler_for (suc (length (input c.connection))) texts c)
  dispatch_loop-Drained c v = loop_lem (suc (length (input c.connection))) c v (omega arith)
