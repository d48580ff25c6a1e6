-- ===== src/Wire/Connection/Flush.antt =====
-- The loop of Connection::flush on a socket, as a whole.
use zwwm.Common.{
  ℕ, ◌+◌, ◌≤◌, ◌<◌, ◌≡◌, refl, sym, ap, ◌∙◌, arith, Bool, true, false, List, [], ◌∷◌, ◌++◌, length,
  drop, take, ltb, Bool-cases, inl, inr, length-drop, append-nil, append_assoc, length-take, ◌⊎◌,
  if◌then◌else◌,
}
use zwwm.Wire.Connection.{Connection, front_size, is_empty}
use zwwm.Wire.Connection.Socket.{
  Sent, Packet, gather, offered, packet, sent_packet, flush_loop, flush_socket, control_overflow,
  max_fds_per_send,
}
use zwwm.Wire.Connection.Stream.{output}
use zwwm.Wire.Connection.Sending.{IsSendable, Inside, Sends, sent_packet-Sends, gather_reaches}

abbrev pub payloads : List Packet → List ℕ
payloads [] = []
payloads (p ∷ rest) = p.payload ++ payloads rest

abbrev pub sent_fds : List Packet → List ℕ
sent_fds [] = []
sent_fds (p ∷ rest) = p.fds ++ sent_fds rest

-- What a packet is: at least one byte, with at most 28 descriptors.
abbrev pub WellFormed : List Packet → Type 0
WellFormed [] = Unit
WellFormed (p ∷ rest) = (0 < length p.payload) × (length p.fds ≤ 28) × WellFormed rest

-- A flush from `c` to `d` that sends the packets `new`.
pub record Flushed (new : List Packet) (c d : Connection) : Type 0 where
  pub bytes : output c ≡ payloads new ++ output d
  pub fds : c.output_fds ≡ sent_fds new ++ d.output_fds
  pub closes : d.closed ≡ c.closed ++ sent_fds new
  pub well_formed : WellFormed new
  pub sendable : IsSendable d

Flushed-stop :
    (c : Connection) (failed : Bool) → IsSendable c → Flushed [] c (record c { failed = failed })
Flushed-stop c failed v = record {
  bytes = refl;
  fds = refl;
  closes = sym (append-nil c.closed);
  well_formed = tt;
  sendable = record { solid = v.solid; inside = v.inside };
}

Flushed-next :
    (p : Packet) (new : List Packet) (c d e : Connection)
    → Sends p c d
    → (0 < length p.payload) × (length p.fds ≤ 28)
    → Flushed new d e
    → Flushed (p ∷ new) c e
Flushed-next p new c d e s (some_byte, few) f = record {
  bytes =
      s.bytes
      ∙ ap (◌++◌ p.payload) f.bytes
      ∙ sym (append_assoc p.payload (payloads new) (output e));
  fds = s.fds ∙ ap (◌++◌ p.fds) f.fds ∙ sym (append_assoc p.fds (sent_fds new) e.output_fds);
  closes =
      f.closes ∙ ap (λ k. k ++ sent_fds new) s.closes ∙ append_assoc c.closed p.fds (sent_fds new);
  well_formed = (some_byte, few, f.well_formed);
  sendable = f.sendable;
}

Inside-lt :
    (start : ℕ) (chunks : List (List ℕ))
    → is_empty chunks ≡ false
    → Inside start chunks
    → start < front_size chunks
Inside-lt start [] h i = cc
Inside-lt start (chunk ∷ rest) h i = i

packet_bounds :
    (k : ℕ) (c : Connection)
    → IsSendable c
    → is_empty c.output_chunks ≡ false
    → (0 < length (packet k c).payload) × (length (packet k c).fds ≤ 28)
unfolding packet offered
packet_bounds k c v h = (bytes (Bool-cases (ltb max_fds_per_send (length c.output_fds))), fds)
  where
    fds : length (take max_fds_per_send c.output_fds) ≤ 28
    fds = omega (arith, length-take max_fds_per_send c.output_fds)

    all : ℕ
    all = length (drop c.output_start (gather 64 c.output_chunks))

    some_byte : 0 < all
    some_byte = omega (
      arith,
      length-drop c.output_start (gather 64 c.output_chunks),
      gather_reaches 63 c.output_chunks,
      Inside-lt c.output_start c.output_chunks h v.inside,
    )

    bytes :
        ((ltb max_fds_per_send (length c.output_fds) ≡ true)
          ⊎ (ltb max_fds_per_send (length c.output_fds) ≡ false))
        → 0 < length (take (k + 1) (offered c))
    bytes (inl e) = rw (e, offered) (omega (arith, some_byte, length-take {0}))
    bytes (inr e) = rw (e, offered) (omega (arith, some_byte, length-take {0}))

-- What `flush_loop` gives: more packets in the log, and the connection that they leave.
abbrev pub Logs : Connection → List Packet → Bool × Connection × List Packet → Type 0
Logs c log r = (new : List Packet) × (r.2 ≡ log ++ new) × Flushed new c r.1

Logs-stop :
    (c : Connection) (log : List Packet) (b failed : Bool)
    → IsSendable c
    → Logs c log (b, record c { failed = failed }, log)
Logs-stop c log b failed v = ([], sym (append-nil log), Flushed-stop c failed v)

-- The two tests at the head of the loop.
guarded :
    (c : Connection) (log : List Packet) (overflow : Bool) (r : Bool × Connection × List Packet)
    → IsSendable c
    → (is_empty c.output_chunks ≡ false → Logs c log r)
    → Logs c log (
        if is_empty c.output_chunks
        then (true, c, log)
        else if overflow
        then (false, record c { failed = true }, log)
        else r)
guarded c log overflow r v h = elim (Bool-cases (is_empty c.output_chunks)) [
  | inl e ↦ rw e (Logs-stop c log true c.failed v)
  | inr e ↦ rw e (second overflow (h e))
]
  where
    second :
        (b : Bool)
        → Logs c log r
        → Logs c log (if b then (false, record c { failed = true }, log) else r)
    second true k = Logs-stop c log false true v
    second false k = k

Logs-next :
    (k : ℕ) (c : Connection) (log : List Packet) (r : Bool × Connection × List Packet)
    → IsSendable c
    → is_empty c.output_chunks ≡ false
    → Logs (sent_packet (packet k c) c) (log ++ (packet k c ∷ [])) r
    → Logs c log r
Logs-next k c log r v h (new, e, f) = (
  packet k c ∷ new,
  e ∙ append_assoc log (packet k c ∷ []) new,
  Flushed-next (packet k c) new c (sent_packet (packet k c) c) r.1 (sent_packet-Sends k c v)
      (packet_bounds k c v h) f,
)

flush_loop-Logs :
    (cmsg_space : ℕ → ℕ) (answers : List Sent) (c : Connection) (log : List Packet)
    → IsSendable c
    → Logs c log (flush_loop cmsg_space answers c log)
unfolding flush_loop
flush_loop-Logs cmsg_space [] c log v =
    guarded c log (control_overflow cmsg_space c) _ v (λ _. Logs-stop c log true c.failed v)
flush_loop-Logs cmsg_space (Sent.interrupted ∷ later) c log v =
    guarded c log (control_overflow cmsg_space c) _ v
      (λ _. flush_loop-Logs cmsg_space later c log v)
flush_loop-Logs cmsg_space (Sent.would_block ∷ later) c log v =
    guarded c log (control_overflow cmsg_space c) _ v (λ _. Logs-stop c log true c.failed v)
flush_loop-Logs cmsg_space (Sent.failure ∷ later) c log v =
    guarded c log (control_overflow cmsg_space c) _ v (λ _. Logs-stop c log false true v)
flush_loop-Logs cmsg_space (Sent.accepted k ∷ later) c log v =
    let d : Connection = sent_packet (packet k c) c in
    let longer : List Packet = log ++ (packet k c ∷ []) in
    let r : Bool × Connection × List Packet = flush_loop cmsg_space later d longer in
    guarded c log (control_overflow cmsg_space c) r v λ h.
      Logs-next k c log r v h
        (flush_loop-Logs cmsg_space later d longer (sent_packet-Sends k c v).sendable)

-- Whatever the socket answers, the bytes that `flush` sends are those at the front of the output, in
-- order, and what is left is the rest; likewise the descriptors, each of which is closed once it is
-- sent and not before. Every packet has at least one byte and at most 28 descriptors. The output
-- keeps its shape: no empty chunk, and the offset inside the first one.
pub flush_socket_sends :
    (cmsg_space : ℕ → ℕ) (answers : List Sent) (c : Connection)
    → IsSendable c
    → let r = flush_socket cmsg_space answers c in Flushed r.2 c r.1
unfolding flush_socket
flush_socket_sends cmsg_space answers c v =
    let (new, e, f) = flush_loop-Logs cmsg_space answers c [] v in rw e f

-- A socket that keeps accepting takes everything.
abbrev pub AllAccepted : List Sent → Type 0
AllAccepted [] = Unit
AllAccepted (Sent.accepted k ∷ rest) = AllAccepted rest
AllAccepted _ = ⊥
