-- ===== src/Wire/Connection.antt =====
-- Connection of zwayland/wire/src/connection.cpp: the chunked input and output, the queue of
-- descriptors, and the framing of messages. The system calls are in Connection/Socket, the link of
-- two connections of one process in Connection/Loopback.
pub mod Socket
pub mod Loopback
pub mod Stream
pub mod Framing
pub mod Consume
pub mod Delivery
pub mod Sending
pub mod Flush
pub mod Receiving
use zwwm.Common.{
  ℕ, zero, suc, ◌+◌, ◌-◌, ◌*◌, ◌/◌, ◌%◌, Bool, true, false, not, ◌&&◌, ◌||◌, Option, none, some,
  List, [], ◌∷◌, ◌++◌, ltb, leb, ◌==◌, if◌then◌else◌, length, get_or, drop, take,
}

-- `link_alive` is the flag that two linked connections share; `none` is the null pointer.
-- `closed` lists the descriptors that the connection has closed.
pub record Connection : Type 0 where
  pub loopback : Bool
  pub has_peer : Bool
  pub link_alive : Option Bool
  pub notifying_data_ready : Bool
  pub data_ready_pending : Bool
  pub peer_closed : Bool
  pub failed : Bool
  pub input_chunks : List (List ℕ)
  pub input_start : ℕ
  pub input_bytes : ℕ
  pub output_chunks : List (List ℕ)
  pub output_start : ℕ
  pub output_fds : List ℕ
  pub input_fds : List ℕ
  pub input_fd_cursor : ℕ
  pub closed : List ℕ

unfoldable pub make : Connection
make = record {
  loopback = false;
  has_peer = false;
  link_alive = none;
  notifying_data_ready = false;
  data_ready_pending = false;
  peer_closed = false;
  failed = false;
  input_chunks = [];
  input_start = 0;
  input_bytes = 0;
  output_chunks = [];
  output_start = 0;
  output_fds = [];
  input_fds = [];
  input_fd_cursor = 0;
  closed = [];
}

abbrev pub own_fd : Option ℕ → List ℕ
own_fd none = []
own_fd (some fd) = fd ∷ []

-- The destructor closes what was never sent, what no handler took, and the socket's own descriptor,
-- `none` if `fd_` is negative. The flag that it clears is the peer's too: see Loopback.destroy_near.
unfoldable pub destroy : Option ℕ → Connection → Connection
destroy fd c = record c {
  closed = c.closed ++ (c.output_fds ++ (drop c.input_fd_cursor c.input_fds ++ own_fd fd));
  output_fds = [];
  link_alive = elim c.link_alive [ none ↦ none | some _ ↦ some false ];
}

abbrev pub total_input : Connection → ℕ
total_input c = c.input_bytes

unfoldable pub has_input : Connection → Bool
has_input c = ltb 0 (total_input c)

abbrev pub is_empty {ℓ} : {A : Type ℓ} → List A → Bool
is_empty [] = true
is_empty (_ ∷ _) = false

unfoldable pub has_output : Connection → Bool
has_output c = not (is_empty c.output_chunks) || not (is_empty c.output_fds)

-- `link_alive_ && link_alive_->load()`.
abbrev pub is_alive : Option Bool → Bool
is_alive none = false
is_alive (some alive) = alive

unfoldable pub healthy : Connection → Bool
healthy c = not c.failed && (not c.loopback || is_alive c.link_alive)

-- The walk over the chunks; past the end there is the static zero byte.
unfoldable pub byte_in : List (List ℕ) → ℕ → ℕ
byte_in [] pos = 0
byte_in (chunk ∷ rest) pos =
    if ltb pos (length chunk) then get_or chunk pos 0 else byte_in rest (pos - length chunk)

unfoldable pub byte_at : Connection → ℕ → ℕ
byte_at c pos = byte_in c.input_chunks (pos + c.input_start)

unfoldable pub queue : List ℕ → List ℕ → Connection → Connection
queue bytes fds c = record c {
  output_chunks = c.output_chunks ++ (bytes ∷ []);
  output_fds = c.output_fds ++ fds;
}

pub record Message : Type 0 where
  pub object_id : ℕ
  pub opcode : ℕ
  pub size : ℕ
  pub body : List ℕ
  pub fds : List ℕ

abbrev pub max_message_size : ℕ
max_message_size = 4096 * 16

-- The loops that put four bytes together: `|=` of bytes that do not overlap is a sum.
unfoldable pub word_at : Connection → ℕ → ℕ
word_at c base =
    byte_at c base
    + byte_at c (base + 1) * 256
    + byte_at c (base + 2) * 65536
    + byte_at c (base + 3) * 16777216

-- The bytes `base`, `base + 1`, … one by one, for a message that straddles chunks.
unfoldable pub linearize : Connection → ℕ → ℕ → List ℕ
linearize c base zero = []
linearize c base (suc count) = byte_at c base ∷ linearize c (base + 1) count

abbrev pub front_size : List (List ℕ) → ℕ
front_size [] = 0
front_size (chunk ∷ _) = length chunk

abbrev pub front : List (List ℕ) → List ℕ
front [] = []
front (chunk ∷ _) = chunk

-- The body of a message of `size` bytes: a view into the first chunk, or a copy.
unfoldable pub message_body : Connection → ℕ → List ℕ
message_body c size =
    if leb size (front_size c.input_chunks - c.input_start)
    then take (size - 8) (drop (c.input_start + 8) (front c.input_chunks))
    else linearize c 8 (size - 8)

unfoldable pub bad_size : ℕ → Bool
bad_size size = ltb size 8 || ltb max_message_size size || not (size % 4 == 0)

unfoldable pub next_message : Connection → Option Message × Connection
next_message c =
    let header = word_at c 4 in
    let size = header / 65536 in
    if ltb (total_input c) 8
    then (none, c)
    else if bad_size size
    then (none, record c { failed = true })
    else if ltb (total_input c) size
    then (none, c)
    else (
      some (record {
        object_id = word_at c 0;
        opcode = header % 65536;
        size = size;
        body = message_body c size;
        fds = drop c.input_fd_cursor c.input_fds;
      }),
      c,
    )

-- The loop that drops the chunks which are used up: their number falls with each round.
unfoldable pub pop_chunks : List (List ℕ) → ℕ → List (List ℕ) × ℕ
pop_chunks [] start = ([], 0)
pop_chunks (chunk ∷ rest) start =
    let shorter = pop_chunks rest (start - length chunk) in
    if leb (length chunk) start then shorter else (chunk ∷ rest, start)

unfoldable pub fds_used : Connection → Connection
fds_used c =
    if leb (length c.input_fds) c.input_fd_cursor
    then record c { input_fds = []; input_fd_cursor = 0 }
    else c

unfoldable pub consume : ℕ → ℕ → Connection → Connection
consume size fds_consumed c =
    let (chunks, start) = pop_chunks c.input_chunks (c.input_start + size) in
    fds_used (record c {
      input_bytes = c.input_bytes - size;
      input_chunks = chunks;
      input_start = start;
      input_fd_cursor = c.input_fd_cursor + fds_consumed;
    })
