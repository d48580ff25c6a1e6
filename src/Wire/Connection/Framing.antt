-- ===== src/Wire/Connection/Framing.antt =====
-- Connection::next_message against a framing of the byte stream that knows nothing of chunks.
use zwwm.Common.{
  ℕ, ◌+◌, ◌-◌, ◌*◌, ◌/◌, ◌%◌, ◌≤◌, ◌≡◌, refl, sym, ap, ◌∙◌, arith, true, false, Option, none, some,
  List, [], ◌∷◌, length, get_or, drop, take, ltb, leb, Bool, not, ◌&&◌, ◌==◌, if◌then◌else◌,
  length-drop,
}
use zwwm.Wire.Bytes.{word}
use zwwm.Wire.Connection.{Connection, Message, byte_at, word_at, bad_size, next_message}
use zwwm.Wire.Connection.Stream.{
  input, pending_fds, IsValid, byte_at-input, get_or-drop, message_body-input,
}

pub data Framed : Type 0 where
  incomplete malformed : Framed
  complete : Message → Framed

-- A message has its header and at most 64 KiB, in whole words.
abbrev pub is_size : ℕ → Bool
is_size size = leb 8 size && leb size 65536 && size % 4 == 0

-- The first message of a stream: the object, then size and opcode in one word, then the body.
unfoldable pub frame : List ℕ → List ℕ → Framed
frame bytes fds =
    let header = word (drop 4 bytes) in
    let size = header / 65536 in
    if ltb (length bytes) 8
    then incomplete
    else if not (is_size size)
    then malformed
    else if ltb (length bytes) size
    then incomplete
    else complete (record {
      object_id = word bytes;
      opcode = header % 65536;
      size = size;
      body = take (size - 8) (drop 8 bytes);
      fds = fds;
    })

-- A malformed header marks the connection as failed.
abbrev pub deliver : Framed → Connection → Option Message × Connection
deliver Framed.incomplete c = (none, c)
deliver Framed.malformed c = (none, record c { failed = true })
deliver (Framed.complete m) c = (some m, c)

word-get_or :
    (xs : List ℕ)
    → 4 ≤ length xs
    → get_or xs 0 0 + get_or xs 1 0 * 256 + get_or xs 2 0 * 65536 + get_or xs 3 0 * 16777216
      ≡ word xs
word-get_or [] h = absurd (omega arith)
word-get_or (a ∷ []) h = absurd (omega arith)
word-get_or (a ∷ b ∷ []) h = absurd (omega arith)
word-get_or (a ∷ b ∷ d ∷ []) h = absurd (omega arith)
word-get_or (a ∷ b ∷ d ∷ e ∷ xs) h = refl

byte_at-drop :
    (c : Connection) (base i : ℕ) → byte_at c (base + i) ≡ get_or (drop base (input c)) i 0
byte_at-drop c base i = byte_at-input c (base + i) ∙ sym (get_or-drop base i (input c))

-- A word by its position is that word of the stream.
word_at-input :
    (c : Connection) (base : ℕ)
    → base + 4 ≤ length (input c)
    → word_at c base ≡ word (drop base (input c))
unfolding word_at
word_at-input c base h =
    cc (zero_th, byte_at-drop c base 1, byte_at-drop c base 2, byte_at-drop c base 3)
    ∙ word-get_or (drop base (input c)) (omega (arith, length-drop base (input c)))
  where
    zero_th : byte_at c base ≡ get_or (drop base (input c)) 0 0
    zero_th = ap (byte_at c) (let e : base ≡ base + 0 = omega arith in e) ∙ byte_at-drop c base 0

bad_size_lem : (size : ℕ) → bad_size size ≡ not (is_size size)
unfolding bad_size
bad_size_lem size = ground arith

good_size : (size : ℕ) → bad_size size ≡ false → 8 ≤ size
unfolding bad_size
good_size size h = ground arith

-- On a valid connection, next_message answers what framing the concatenated input says: no message
-- yet, an error, or the first message with its header, body and the pending descriptors; how the
-- input is cut into chunks makes no difference.
pub next_message-frame :
    (c : Connection) → IsValid c → next_message c ≡ deliver (frame (input c) (pending_fds c)) c
unfolding next_message frame
next_message-frame c v = ground (
  arith,
  v.counted,
  word_at-input c 4,
  word_at-input c 0,
  bad_size_lem (word (drop 4 (input c)) / 65536),
  good_size (word (drop 4 (input c)) / 65536),
  message_body-input c (word (drop 4 (input c)) / 65536) v,
)

-- The framing at a well-formed header with all its bytes there.
pub frame_complete :
    (bytes fds : List ℕ) (size opcode : ℕ)
    → word (drop 4 bytes) ≡ size * 65536 + opcode
    → opcode ≤ 65535
    → 8 ≤ size
    → size ≤ 65535
    → size % 4 ≡ 0
    → size ≤ length bytes
    → frame bytes fds
      ≡ complete (record {
        object_id = word bytes;
        opcode = opcode;
        size = size;
        body = take (size - 8) (drop 8 bytes);
        fds = fds;
      })
unfolding frame
frame_complete bytes fds size opcode e low big small aligned fits =
    let halves : (word (drop 4 bytes) / 65536 ≡ size) × (word (drop 4 bytes) % 65536 ≡ opcode) =
      (omega (arith, e, low), omega (arith, e, low)) in
    rw (halves.0, halves.1) (ground arith)
