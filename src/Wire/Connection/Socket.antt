-- ===== src/Wire/Connection/Socket.antt =====
-- Connection::read_available and Connection::flush on a socket. What `recvmsg` and `sendmsg` return
-- is the list of their answers; after its end the socket would block.
use zwwm.Common.{
  ℕ, zero, suc, ◌+◌, ◌-◌, ◌*◌, Bool, true, false, ◌&&◌, List, [], ◌∷◌, ◌++◌, ltb, ◌==◌,
  if◌then◌else◌, length, drop, take,
}
use Prim.Native.Nat.{min}
use zwwm.Wire.Connection.{Connection, is_empty}

-- A successful `recvmsg` returns 1 to 16384 bytes; `cut` says that MSG_CTRUNC or MSG_TRUNC is set.
pub data Received : Type 0 where
  interrupted would_block : Received
  failure : Received
  hangup : Received
  bytes : List ℕ → List ℕ → Bool → Received

abbrev pub recv_chunk : ℕ
recv_chunk = 16384

abbrev pub max_buffered_input : ℕ
max_buffered_input = 16 * 1024 * 1024

unfoldable pub store_input : List ℕ → Connection → Connection
store_input chunk c = record c {
  input_bytes = c.input_bytes + length chunk;
  input_chunks = c.input_chunks ++ (chunk ∷ []);
}

abbrev pub keep_fds : List ℕ → Connection → Connection
keep_fds fds c = record c { input_fds = c.input_fds ++ fds }

-- The loop of `read_available`; the flag is `got_any`.
unfoldable pub receive_loop : List Received → Bool → Connection → Bool × Connection
unfolding store_input
receive_loop [] got_any c = (got_any, c)
receive_loop (Received.interrupted ∷ later) got_any c = receive_loop later got_any c
receive_loop (Received.would_block ∷ later) got_any c = (got_any, c)
receive_loop (Received.failure ∷ later) got_any c = (got_any, record c { failed = true })
receive_loop (Received.hangup ∷ later) got_any c = (got_any, record c { peer_closed = true })
receive_loop (Received.bytes chunk fds cut ∷ later) got_any c =
    let stored = store_input chunk (keep_fds fds c) in
    let more = receive_loop later true stored in
    if cut
    then (got_any, record (keep_fds fds c) { failed = true })
    else if ltb max_buffered_input stored.input_bytes
    then (true, record stored { failed = true })
    else more

unfoldable pub read_available : List Received → Connection → Bool × Connection
unfolding receive_loop
read_available answers c = receive_loop answers false c

-- `accepted k`: the kernel takes k + 1 bytes of what is offered, or all if that is less.
pub data Sent : Type 0 where
  interrupted would_block : Sent
  failure : Sent
  accepted : ℕ → Sent

abbrev pub max_iovecs_per_send : ℕ
max_iovecs_per_send = 64

abbrev pub max_fds_per_send : ℕ
max_fds_per_send = 28

abbrev pub max_control_bytes : ℕ
max_control_bytes = 4096

-- The bytes of up to `count` chunks, one after the other.
unfoldable pub gather : ℕ → List (List ℕ) → List ℕ
gather zero chunks = []
gather (suc count) [] = []
gather (suc count) (chunk ∷ rest) = chunk ++ gather count rest

-- The payload of one `sendmsg`: the first chunk from `output_start` on and the next ones, but only
-- one byte while more descriptors wait than fit.
unfoldable pub offered : Connection → List ℕ
unfolding gather
offered c =
    let payload = drop c.output_start (gather max_iovecs_per_send c.output_chunks) in
    if ltb max_fds_per_send (length c.output_fds) then take 1 payload else payload

-- The loop that drops what was sent: the chunks left, and the offset into the first.
unfoldable pub drop_sent : ℕ → ℕ → List (List ℕ) → List (List ℕ) × ℕ
drop_sent sent start [] = ([], start)
drop_sent sent start (chunk ∷ rest) =
    let left = length chunk - start in
    let later = drop_sent (sent - left) 0 rest in
    if ltb sent left
    then (chunk ∷ rest, start + sent)
    else if sent - left == 0
    then (rest, 0)
    else later

-- One message to the kernel: its bytes and its descriptors.
pub record Packet : Type 0 where
  pub payload : List ℕ
  pub fds : List ℕ

unfoldable pub packet : ℕ → Connection → Packet
packet k c = record { payload = take (k + 1) (offered c); fds = take max_fds_per_send c.output_fds }

-- The descriptors that went out are closed here, and the bytes leave the queue.
unfoldable pub sent_packet : Packet → Connection → Connection
sent_packet p c =
    let (chunks, start) = drop_sent (length p.payload) c.output_start c.output_chunks in
    record c {
      closed = c.closed ++ p.fds;
      output_fds = drop max_fds_per_send c.output_fds;
      output_chunks = chunks;
      output_start = start;
    }

abbrev pub control_overflow : (ℕ → ℕ) → Connection → Bool
control_overflow cmsg_space c =
    let fd_count = min (length c.output_fds) max_fds_per_send in
    ltb 0 fd_count && ltb max_control_bytes (cmsg_space (fd_count * 4))

-- The loop of `flush`, with the packets that the kernel took so far. `cmsg_space` is the system's
-- CMSG_SPACE. An interrupted call is made again.
unfoldable pub flush_loop :
    (ℕ → ℕ) → List Sent → Connection → List Packet → Bool × Connection × List Packet
flush_loop cmsg_space [] c log =
    if is_empty c.output_chunks
    then (true, c, log)
    else if control_overflow cmsg_space c
    then (false, record c { failed = true }, log)
    else (true, c, log)
flush_loop cmsg_space (answer ∷ later) c log =
    if is_empty c.output_chunks
    then (true, c, log)
    else if control_overflow cmsg_space c
    then (false, record c { failed = true }, log)
    else elim answer [
      | Sent.interrupted ↦ flush_loop cmsg_space later c log
      | Sent.would_block ↦ (true, c, log)
      | Sent.failure ↦ (false, record c { failed = true }, log)
      | Sent.accepted k ↦
          flush_loop cmsg_space later (sent_packet (packet k c) c) (log ++ (packet k c ∷ []))
    ]

unfoldable pub flush_socket : (ℕ → ℕ) → List Sent → Connection → Bool × Connection × List Packet
flush_socket cmsg_space answers c = flush_loop cmsg_space answers c []
