-- ===== src/Server/Dispatch.antt =====
-- One request in dispatch_available: when it is served and when it ends the loop.
use zwwm.Common.{
  ℕ, ◌≡◌, ◌<◌, ◌≤◌, refl, arith, true, false, Option, none, some, List, length, ltb, leb, get_or,
  Bool-cases, Option-cases, Result, inl, inr, ok, throw,
}
use zwwm.Wire.Error.{Error}
use zwwm.Wire.Builder.{MessageBuilder}
use zwwm.Wire.Parser
use zwwm.Wire.Parser.{MessageParser, at_end}
use zwwm.Wire.Connection.{Connection, Message}
use zwwm.Server.{
  Interface, Resource, Client, Handler, Handled, Step, Texts, find, consumed, handle, error_event,
  send_error, post_error, after_handler, dispatch_request, dispatch_message,
}

-- The client is dead.
abbrev pub IsStopped : Step → Type 0
IsStopped (Step.next d) = ⊥
IsStopped (Step.stop d) = d.dead ≡ true
IsStopped (Step.thrown e d) = d.dead ≡ true

send_error-IsStopped :
    (flush : Connection → Connection) (e : Result Error (List ℕ × MessageBuilder)) (c : Client)
    → c.dead ≡ true
    → IsStopped (send_error flush e c)
unfolding send_error
send_error-IsStopped flush (throw e) c h = h
send_error-IsStopped flush (ok (bytes, left)) c h = h

post_error-IsStopped :
    (flush : Connection → Connection) (object_id code : ℕ) (message : List ℕ) (c : Client)
    → IsStopped (post_error flush object_id code message c)
unfolding post_error
post_error-IsStopped flush object_id code message c = elim (Bool-cases c.dead) [
  | inl e ↦ rw (e, post_error) refl
  | inr e ↦
      rw (e, post_error)
        (elim (Option-cases (find 1 c.resources)) [
          | inl f ↦ rw f refl
          | inr (r, f) ↦ rw f (
              send_error-IsStopped flush (error_event object_id code message)
                (record c { dead = true }) refl)
        ])
]

-- The handler that served the request succeeded, read all of it and left the client alive.
abbrev pub Served : ℕ → Handled → Client → Type 0
Served size h d =
    (h.failure ≡ none)
    × (at_end h.parser ≡ true)
    × (h.client.dead ≡ false)
    × (d ≡ consumed size h.parser.fd_pos h.client)

-- Either the client is dead, or P holds of the client that the loop goes on with.
abbrev pub StopsOr : (Client → Type 0) → Step → Type 0
StopsOr P (Step.next d) = P d
StopsOr P (Step.stop d) = d.dead ≡ true
StopsOr P (Step.thrown e d) = d.dead ≡ true

IsStopped-StopsOr : (P : Client → Type 0) (s : Step) → IsStopped s → StopsOr P s
IsStopped-StopsOr P (Step.next d) h = absurd h
IsStopped-StopsOr P (Step.stop d) h = h
IsStopped-StopsOr P (Step.thrown e d) h = h

after_handler-StopsOr :
    (flush : Connection → Connection) (size : ℕ) (h : Handled) (id : ℕ) (trailing : List ℕ)
    → StopsOr (Served size h) (after_handler flush size h id trailing)
unfolding after_handler
after_handler-StopsOr flush size h id trailing = elim (Option-cases h.failure) [
  | inr (what, f) ↦
      rw (f, after_handler)
        (IsStopped-StopsOr _ _
          (post_error-IsStopped flush id 1 what (consumed size h.parser.fd_pos h.client)))
  | inl f ↦
      rw (f, after_handler)
        (elim (Bool-cases (at_end h.parser)) [
          | inr e ↦ rw e (
              IsStopped-StopsOr _ _
                (post_error-IsStopped flush id 1 trailing (consumed size h.parser.fd_pos h.client)))
          | inl e ↦ rw e (elim (Bool-cases h.client.dead) [
            | inl g ↦ rw g refl
            | inr g ↦ rw g (refl, e, refl, refl)
          ])
        ])
]

pub StopsOr-map :
    {P Q : Client → Type 0} (s : Step) → ((d : Client) → P d → Q d) → StopsOr P s → StopsOr Q s
StopsOr-map (Step.next d) f h = f d h
StopsOr-map (Step.stop d) f h = h
StopsOr-map (Step.thrown e d) f h = h

module _ (flush : Connection → Connection) (own_handler : Resource → Option Handler)
    (handler_for : Interface → Option Handler) (texts : Texts) where
  -- The object knows the method, in its version, and the handler served it.
  abbrev pub Answered : Message → Client → Resource → Client → Type 0
  Answered m c r d =
      (m.opcode < length r.interface.methods)
      × (get_or r.interface.methods m.opcode 0 ≤ r.version)
      × Served m.size
          (handle own_handler handler_for texts r m.opcode (zwwm.Wire.Parser.make m.body m.fds) c) d

  dispatch_request-StopsOr :
      (m : Message) (r : Resource) (c : Client)
      → StopsOr (Answered m c r) (dispatch_request flush own_handler handler_for texts m r c)
  unfolding dispatch_request
  dispatch_request-StopsOr m r c = elim (Bool-cases (leb (length r.interface.methods) m.opcode)) [
    | inl e ↦
        rw (e, dispatch_request)
          (IsStopped-StopsOr (Answered m c r) _
            (post_error-IsStopped flush r.id 1 texts.invalid_method (consumed m.size 0 c)))
    | inr e ↦
        rw (e, dispatch_request)
          (elim (Bool-cases (ltb r.version (get_or r.interface.methods m.opcode 0))) [
            | inl f ↦ rw f (
                IsStopped-StopsOr (Answered m c r) _
                  (post_error-IsStopped flush r.id 1 texts.newer_version (consumed m.size 0 c)))
            | inr f ↦ rw f (
                StopsOr-map (after_handler flush m.size _ r.id texts.trailing_data)
                  (λ d served. (ground arith, ground arith, served))
                  (after_handler-StopsOr flush m.size _ r.id texts.trailing_data))
          ])
  ]

  -- Whatever the handlers do: dispatch goes on with the next request only if the object exists, its
  -- interface has the method, its version is new enough, and the handler threw nothing, read the
  -- whole body and left the client alive; then exactly this message and the descriptors read are
  -- consumed. In every other case the client is dead.
  pub dispatch_message_lem :
      (m : Message) (c : Client)
      → StopsOr
          (λ d. (r : Resource) × (find m.object_id c.resources ≡ some r) × Answered m c r d)
          (dispatch_message flush own_handler handler_for texts m c)
  unfolding dispatch_message
  dispatch_message_lem m c = elim (Option-cases (find m.object_id c.resources)) [
    | inl e ↦
        rw (e, dispatch_message)
          (IsStopped-StopsOr _ _
            (post_error-IsStopped flush 1 0 texts.invalid_object (consumed m.size 0 c)))
    | inr (r, e) ↦
        rw (e, dispatch_message)
          (StopsOr-map (dispatch_request flush own_handler handler_for texts m r c)
            (λ d h. (r, refl, h)) (dispatch_request-StopsOr m r c))
  ]
