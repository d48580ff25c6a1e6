-- ===== src/Wire/Connection/Receiving.antt =====
-- Connection::read_available on a socket.
use zwwm.Common.{
  ℕ, ◌≤◌, ◌≡◌, Bool, true, false, List, [], ◌∷◌, ◌++◌, length, ltb, if◌then◌else◌, ◌||◌, ◌+◌, ◌⊎◌,
}
use zwwm.Wire.Connection.{Connection}
use zwwm.Wire.Connection.Socket.{Received, max_buffered_input}
use zwwm.Wire.Connection.Stream.{input, pending_fds, IsValid}

-- What the answers of the socket deliver.
pub record Arrival : Type 0 where
  pub bytes : List ℕ
  pub fds : List ℕ
  pub any : Bool
  pub failed : Bool
  pub closed : Bool

abbrev pub nothing : Arrival
nothing = record { bytes = []; fds = []; any = false; failed = false; closed = false }

-- A chunk, and what comes behind it.
abbrev behind : List ℕ → List ℕ → Arrival → Arrival
behind chunk fds a = record {
  bytes = chunk ++ a.bytes;
  fds = fds ++ a.fds;
  any = true;
  failed = a.failed;
  closed = a.closed;
}

-- The chunks and descriptors up to the first answer that ends the reading, with `buffered` bytes there
-- already: the first one that is no chunk and no interruption, a chunk that was cut, of which only the
-- descriptors count, or the chunk with which more than 16 MiB are buffered.
abbrev pub arrival : ℕ → List Received → Arrival
arrival buffered [] = nothing
arrival buffered (Received.interrupted ∷ later) = arrival buffered later
arrival buffered (Received.would_block ∷ later) = nothing
arrival buffered (Received.failure ∷ later) = record nothing { failed = true }
arrival buffered (Received.hangup ∷ later) = record nothing { closed = true }
arrival buffered (Received.bytes chunk fds cut ∷ later) =
    let rest = behind chunk fds (arrival (buffered + length chunk) later) in
    if cut
    then record nothing { fds = fds; failed = true }
    else if ltb max_buffered_input (buffered + length chunk)
    then record nothing { bytes = chunk; fds = fds; any = true; failed = true }
    else rest

-- These bytes came at the end of the stream, and these descriptors at the end of theirs; none was closed.
pub record Receives (bytes fds : List ℕ) (c d : Connection) : Type 0 where
  pub stream : input d ≡ input c ++ bytes
  pub waiting : pending_fds d ≡ pending_fds c ++ fds
  pub kept : d.closed ≡ c.closed
  pub valid : IsValid d

-- After the loop the buffer is within its limit, or the connection has failed.
abbrev pub Bounded : Connection → Type 0
Bounded c = (c.failed ≡ true) ⊎ (c.input_bytes ≤ max_buffered_input)

-- The arrival is stored and nothing else; the result says whether a chunk was, and the flags whether the
-- socket failed or was closed.
pub record Stores (a : Arrival) (got_any : Bool) (c : Connection) (r : Bool × Connection)
    : Type 0 where
  pub received : Receives a.bytes a.fds c r.1
  pub got : r.0 ≡ (got_any || a.any)
  pub failed : r.1.failed ≡ (c.failed || a.failed)
  pub closed : r.1.peer_closed ≡ (c.peer_closed || a.closed)
  pub bounded : Bounded r.1
