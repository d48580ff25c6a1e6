-- ===== src/Wire/Tests.antt =====
-- Runs of zwayland/wire on concrete inputs, and its theorems at such inputs.
use zwwm.Common.{
  ℕ, ◌+◌, ◌≡◌, refl, arith, true, false, Option, some, List, [], ◌∷◌, ◌++◌, ok, throw,
}
use zwwm.Common.Int.{negsuc}
use zwwm.Wire.Error.{Error}
use zwwm.Wire.Signature.{ArgType, ArgSpec, parse_signature}
use zwwm.Wire.Signature.Discard.{skip_all, discard-skip_all}
use zwwm.Wire.Signature.Print.{print, parse_signature-print}
use zwwm.Wire.Builder
use zwwm.Wire.Parser.{MessageParser, skip, discard}
use zwwm.Wire.Parser.Safety.{Moves, final, skip-Safe}
use zwwm.Wire.Args.{Arg}
use zwwm.Wire.Connection.{Connection, next_message, consume}
use zwwm.Wire.Connection.Socket.{Sent, Received, flush_socket}
use zwwm.Wire.Connection.Loopback.{Link, hand_over}
use zwwm.Wire.Connection.Stream.{IsValid, concat, input, pending_fds}
use zwwm.Wire.Connection.Framing.{deliver, frame, next_message-frame}
use zwwm.Wire.Connection.Consume.{consume-input}
use zwwm.Wire.Connection.Delivery.{hand_over_lem}
use zwwm.Wire.Connection.Sending.{IsSendable}
use zwwm.Wire.Connection.Flush.{Flushed, flush_socket_sends}

-- wl_registry.bind on global 3: a name, an interface, a version and a new id.
abbrev bind_args : List Arg
bind_args =
    Arg.uint 3
    ∷ Arg.string (b'w' ∷ b'l' ∷ [])
    ∷ Arg.int (negsuc 4)
    ∷ Arg.null_string
    ∷ Arg.fd 9
    ∷ []

abbrev dup_fd : ℕ → Option ℕ
dup_fd fd = some (fd + 100)

abbrev idle : Connection
idle = record {
  loopback = true;
  has_peer = true;
  link_alive = some true;
  notifying_data_ready = false;
  data_ready_pending = false;
  peer_closed = false;
  failed = false;
  input_chunks = [];
  input_start = 0;
  input_bytes = 0;
  output_chunks = [];
  output_start = 0;
  output_fds = [];
  input_fds = [];
  input_fd_cursor = 0;
  closed = [];
}

abbrev idle_link : Link
idle_link = record { near = idle; far = idle }

-- One message of twelve bytes over two chunks, and four bytes of the next.
abbrev straddling : Connection
straddling = record idle {
  input_chunks =
      (9 ∷ 1 ∷ 0 ∷ 0 ∷ 0 ∷ 7 ∷ 0 ∷ []) ∷ (12 ∷ 0 ∷ 42 ∷ 0 ∷ 0 ∷ 0 ∷ 2 ∷ 0 ∷ 0 ∷ 0 ∷ []) ∷ [];
  input_start = 1;
  input_bytes = 16;
  input_fds = 5 ∷ 6 ∷ [];
}

straddling-IsValid : IsValid straddling
straddling-IsValid = record { counted = refl; in_front = omega arith; in_fds = omega arith }

next_message-frame_example :
    next_message straddling ≡ deliver (frame (input straddling) (pending_fds straddling)) straddling
next_message-frame_example = next_message-frame straddling straddling-IsValid

consume-input_example :
    (input (consume 12 1 straddling) ≡ 2 ∷ 0 ∷ 0 ∷ 0 ∷ [])
    × (pending_fds (consume 12 1 straddling) ≡ 6 ∷ [])
    × IsValid (consume 12 1 straddling)
consume-input_example = consume-input straddling 12 1 straddling-IsValid (omega arith)

abbrev loaded : Link
loaded = record {
  near = record idle { output_chunks = (1 ∷ 2 ∷ []) ∷ (3 ∷ []) ∷ []; output_fds = 8 ∷ [] };
  far = straddling;
}

hand_over_lem_example :
    (input (hand_over loaded).far ≡ input loaded.far ++ concat loaded.near.output_chunks)
    × (pending_fds (hand_over loaded).far ≡ 5 ∷ 6 ∷ 8 ∷ [])
    × IsValid (hand_over loaded).far
hand_over_lem_example = hand_over_lem loaded straddling-IsValid

abbrev sending : Connection
sending = record idle {
  loopback = false;
  output_chunks = (1 ∷ 2 ∷ 3 ∷ []) ∷ (4 ∷ 5 ∷ []) ∷ [];
  output_start = 1;
  output_fds = 7 ∷ 8 ∷ [];
}

sending-IsSendable : IsSendable sending
sending-IsSendable = record { solid = omega arith; inside = omega arith }

abbrev partial_answers : List Sent
partial_answers = Sent.interrupted ∷ Sent.accepted 1 ∷ Sent.would_block ∷ []

flush_socket_sends_example :
    let r = flush_socket (λ n. n + 16) partial_answers sending in Flushed r.2 sending r.1
flush_socket_sends_example =
    flush_socket_sends (λ n. n + 16) partial_answers sending sending-IsSendable

abbrev enough_answers : List Sent
enough_answers = Sent.accepted 0 ∷ Sent.accepted 1 ∷ Sent.accepted 0 ∷ Sent.accepted 9 ∷ []

abbrev arriving : List Received
arriving = Received.bytes (1 ∷ 2 ∷ []) (3 ∷ []) false ∷ Received.hangup ∷ []

abbrev some_text : MessageParser
some_text = record {
  body = 3 ∷ 0 ∷ 0 ∷ 0 ∷ b'o' ∷ b'k' ∷ 0 ∷ 0 ∷ [];
  pos = 0;
  fds = 4 ∷ [];
  fd_pos = 0;
  closed = [];
}

abbrev text_spec : ArgSpec
text_spec = record { type = ArgType.string; nullable = true }

abbrev fd_spec : ArgSpec
fd_spec = record { type = ArgType.fd; nullable = false }

skip-Safe_example : Moves some_text (final (skip text_spec some_text))
skip-Safe_example = skip-Safe text_spec some_text (omega arith)

parse_signature-print_example :
    parse_signature ((b'2' ∷ []) ++ print (text_spec ∷ fd_spec ∷ []))
    ≡ ok (text_spec ∷ fd_spec ∷ [])
parse_signature-print_example =
    parse_signature-print (b'2' ∷ []) (text_spec ∷ fd_spec ∷ []) (refl, tt)

discard-skip_all_example :
    discard (b'2' ∷ b'?' ∷ b's' ∷ b'h' ∷ []) some_text
    ≡ skip_all (text_spec ∷ fd_spec ∷ []) some_text
discard-skip_all_example =
    discard-skip_all (b'2' ∷ b'?' ∷ b's' ∷ b'h' ∷ []) (text_spec ∷ fd_spec ∷ []) some_text
      parse_signature-print_example

-- A marker at the end of a signature is refused.
dangling_marker : parse_signature (b'i' ∷ b'?' ∷ []) ≡ throw Error.dangling_nullable
unfolding parse_signature
dangling_marker = refl
