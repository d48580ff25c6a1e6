-- ===== src/Wire/Connection/Loopback.antt =====
-- Two linked connections of one process: Connection::link, the destructor, the loopback branches of `flush` and
-- `read_available`, and Connection::notify_data_ready.
use zwwm.Common.{
  ℕ, zero, suc, ◌+◌, Bool, true, false, not, ◌&&◌, ◌||◌, Option, none, some, List, [], ◌∷◌, ◌++◌,
  if◌then◌else◌, length,
}
use zwwm.Wire.Connection.{Connection, destroy, has_input, is_alive, is_empty}

-- The connection on which a method is called, and its peer.
pub record Link : Type 0 where
  pub near : Connection
  pub far : Connection

-- What the reader of the far connection runs: it may use and change both ends.
abbrev pub DataReady : Type 0
DataReady = Option (Link → Link)

abbrev shared_flag : Option Bool → Option Bool
shared_flag none = some true
shared_flag (some alive) = some alive

unfoldable pub link : Link → Link
link l =
    let flag = shared_flag l.near.link_alive in
    record l {
      near = record (l.near) { loopback = true; has_peer = true; link_alive = flag };
      far = record (l.far) { link_alive = flag };
    }

-- The destructor of the near connection: the flag that the two share is cleared for both.
unfoldable pub destroy_near : Option ℕ → Link → Link
destroy_near fd l = record l {
  near = destroy fd l.near;
  far = record (l.far) {
    link_alive = elim l.near.link_alive [ none ↦ l.far.link_alive | some _ ↦ some false ];
  };
}

abbrev pub set_pending : Bool → Link → Link
set_pending b l = record l { far = record (l.far) { data_ready_pending = b } }

abbrev pub set_notifying : Bool → Link → Link
set_notifying b l = record l { far = record (l.far) { notifying_data_ready = b } }

-- The do-while loop; `fuel` bounds the rounds, one for each time that the reader is called again.
unfoldable pub notify_loop : ℕ → (Link → Link) → Link → Link
notify_loop zero ready l = l
notify_loop (suc fuel) ready l =
    let after = ready (set_pending false l) in
    elim after.far.data_ready_pending [ true ↦ notify_loop fuel ready after | false ↦ after ]

unfoldable pub notify_data_ready : ℕ → DataReady → Link → Link
notify_data_ready fuel none l = l
notify_data_ready fuel (some ready) l =
    let run = set_notifying false (notify_loop fuel ready (set_notifying true l)) in
    if l.far.notifying_data_ready then set_pending true l else run

abbrev pub total_size : List (List ℕ) → ℕ
total_size [] = 0
total_size (chunk ∷ rest) = length chunk + total_size rest

-- The queued chunks and descriptors move to the peer's input.
unfoldable pub hand_over : Link → Link
hand_over l = record l {
  near = record (l.near) { output_chunks = []; output_fds = [] };
  far = record (l.far) {
    input_bytes = l.far.input_bytes + total_size l.near.output_chunks;
    input_chunks = l.far.input_chunks ++ l.near.output_chunks;
    input_fds = l.far.input_fds ++ l.near.output_fds;
  };
}

unfoldable pub flush_loopback : ℕ → DataReady → Link → Bool × Link
flush_loopback fuel ready l =
    let delivered = notify_data_ready fuel ready (hand_over l) in
    if not (is_alive l.near.link_alive) || not l.near.has_peer
    then (false, record l { near = record (l.near) { failed = true } })
    else if is_empty l.near.output_chunks && is_empty l.near.output_fds
    then (true, l)
    else (true, delivered)

-- `read_available` on a linked connection receives nothing itself.
unfoldable pub read_available_loopback : Connection → Bool
read_available_loopback c = is_alive c.link_alive && has_input c
