-- ===== src/Wire/Message.antt =====
-- One message from its arguments to its bytes, and through the framing back to its arguments.
pub mod Transmit
use zwwm.Common.{
  ℕ, zero, suc, ◌+◌, ◌-◌, ◌*◌, ◌/◌, ◌%◌, ◌≤◌, ◌<◌, ◌≡◌, refl, sym, ap, ◌∙◌, arith, Bool, true,
  false, Option, none, some, List, [], ◌∷◌, ◌++◌, length, map, drop, take, replicate, ltb, leb,
  Result, ok, throw, ◌>>=◌, length-append, append-nil, append_assoc,
}
use zwwm.Wire.Bytes.{le32, word, word-le32, word_limit, take-append, drop-append}
use zwwm.Wire.Error.{Error}
use zwwm.Wire.Builder.{MessageBuilder, set_opcode, finish, take_fds, header_word, pad_to_alignment}
use zwwm.Wire.Builder
use zwwm.Wire.Builder.Padding.{pad_aligned}
use zwwm.Wire.Args.{Arg, AllFit, AllDuplicate, append_args, encode_all, fds_of, sent}
use zwwm.Wire.Args.Append.{append_args_lem, encode_all-aligns, grown}
use zwwm.Wire.Connection.{Message}
use zwwm.Wire.Connection.Framing.{Framed, frame, frame_complete}

-- What the generated bindings do: a builder, its opcode and arguments, then bytes and descriptors.
unfoldable pub build : (ℕ → Option ℕ) → ℕ → ℕ → List Arg → Result Error (List ℕ × List ℕ)
build dup object_id opcode args = do
  b ← append_args dup args (set_opcode opcode (Builder.make object_id))
  (bytes, c) ← finish b
  ok (bytes, (take_fds c).0)

-- The bytes of a message: object, header and arguments.
abbrev pub message_bytes : ℕ → ℕ → List Arg → List ℕ
message_bytes object_id opcode args =
    le32 object_id ++ (le32 (header_word (8 + length (encode_all args)) opcode) ++ encode_all args)

abbrev started : ℕ → ℕ → List Arg → List ℕ → MessageBuilder
started object_id opcode args fds = record {
  buffer = (le32 object_id ++ replicate 4 0) ++ encode_all args;
  fds = fds;
  opcode = opcode;
}

finish_lem :
    (object_id opcode : ℕ) (args : List Arg) (fds : List ℕ)
    → 8 + length (encode_all args) ≤ 65535
    → opcode ≤ 65535
    → finish (started object_id opcode args fds)
      ≡ ok (
        message_bytes object_id opcode args,
        record (started object_id opcode args fds) { buffer = [] },
      )
unfolding finish
finish_lem object_id opcode args fds small low =
    rw (pad_aligned (started object_id opcode args fds) (omega (arith, encode_all-aligns args)))
      (ground arith)

pub build_lem :
    (dup : ℕ → Option ℕ) (object_id opcode : ℕ) (args : List Arg)
    → AllFit args
    → AllDuplicate dup args
    → 8 + length (encode_all args) ≤ 65535
    → opcode ≤ 65535
    → build dup object_id opcode args
      ≡ ok (message_bytes object_id opcode args, fds_of (map (sent dup) args))
unfolding build set_opcode Builder.make take_fds
build_lem dup object_id opcode args fit dups small low =
    rw (append_args_lem dup args (set_opcode opcode (Builder.make object_id)) refl fit dups)
      (rw (finish_lem object_id opcode args (fds_of (map (sent dup) args)) small low) refl)

-- A message at the front of a stream is framed as it was written, whatever follows it.
pub frame-message_bytes :
    (object_id opcode : ℕ) (args : List Arg) (rest fds : List ℕ)
    → object_id < word_limit
    → 8 + length (encode_all args) ≤ 65535
    → opcode ≤ 65535
    → frame (message_bytes object_id opcode args ++ rest) fds
      ≡ Framed.complete (record {
        object_id = object_id;
        opcode = opcode;
        size = 8 + length (encode_all args);
        body = encode_all args;
        fds = fds;
      })
frame-message_bytes object_id opcode args rest fds h small low =
    frame_complete (message_bytes object_id opcode args ++ rest) fds size opcode
      (word-le32 (header_word size opcode) (encode_all args ++ rest) (omega arith)
        ∙ omega (arith, low))
      low (omega arith) small (omega (arith, encode_all-aligns args))
      (omega (arith, length-append (encode_all args) rest))
    ∙ cc (word-le32 object_id [] h, body)
  where
    size : ℕ
    size = 8 + length (encode_all args)

    body : take (size - 8) (encode_all args ++ rest) ≡ encode_all args
    body =
        ap (λ k. take k (encode_all args ++ rest))
          (let e : size - 8 ≡ length (encode_all args) = omega arith in e)
        ∙ take-append (encode_all args) rest
