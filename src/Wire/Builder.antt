-- ===== src/Wire/Builder.antt =====
-- MessageBuilder of zwayland/wire/src/message.cpp: the buffer with its header of eight bytes, the
-- descriptors and the opcode. `int32_t` arguments are integers, `uint32_t` ones numbers below
-- `word_limit`; a method that may throw returns a `Result`.
pub mod Padding
use zwwm.Common.{
  ℕ, zero, suc, ◌+◌, ◌-◌, ◌*◌, ◌%◌, ◌<◌, Bool, false, ◌||◌, Option, none, some, List, [], ◌∷◌, ◌++◌,
  ltb, leb, ◌==◌, if◌then◌else◌, length, drop, take, replicate, Result, ok, throw,
}
use zwwm.Common.Int.{ℤ, pos, negsuc}
use zwwm.Wire.Bytes.{le32, word_limit}
use zwwm.Wire.Error.{Error}

pub record MessageBuilder : Type 0 where
  pub buffer : List ℕ
  pub fds : List ℕ
  pub opcode : ℕ

-- The constructor: eight bytes, the object id in the first four.
unfoldable pub make : ℕ → MessageBuilder
make object_id = record { buffer = le32 object_id ++ replicate 4 0; fds = []; opcode = 0 }

unfoldable pub set_opcode : ℕ → MessageBuilder → MessageBuilder
set_opcode opcode b = record b { opcode = opcode }

-- `while (size % 4 != 0) push_back(0)`, with a bound on the rounds.
unfoldable pub pad_loop : ℕ → List ℕ → List ℕ
pad_loop zero buffer = buffer
pad_loop (suc fuel) buffer =
    let more = pad_loop fuel (buffer ++ (0 ∷ [])) in if length buffer % 4 == 0 then buffer else more

-- Three rounds are the most that a length needs.
unfoldable pub pad_to_alignment : MessageBuilder → MessageBuilder
unfolding pad_loop
pad_to_alignment b = record b { buffer = pad_loop 3 b.buffer }

abbrev pub append_bytes : List ℕ → MessageBuilder → MessageBuilder
append_bytes bytes b = record b { buffer = b.buffer ++ bytes }

-- `static_cast<std::uint32_t>` of an `int32_t`.
abbrev pub to_uint32 : ℤ → ℕ
to_uint32 (pos n) = n % word_limit
to_uint32 (negsuc n) = word_limit - 1 - n % word_limit

-- The range of `int32_t`.
abbrev pub IsInt32 : ℤ → Type 0
IsInt32 (pos n) = n < 2147483648
IsInt32 (negsuc n) = n < 2147483648

unfoldable pub append_uint : ℕ → MessageBuilder → MessageBuilder
append_uint value b = append_bytes (le32 value) (pad_to_alignment b)

unfoldable pub append_int : ℤ → MessageBuilder → MessageBuilder
append_int value b = append_bytes (le32 (to_uint32 value)) (pad_to_alignment b)

-- `value.find('\0') != npos`.
unfoldable pub contains_nul : List ℕ → Bool
contains_nul [] = false
contains_nul (c ∷ rest) = c == 0 || contains_nul rest

unfoldable pub append_string : List ℕ → MessageBuilder → Result Error MessageBuilder
append_string value b =
    if leb (word_limit - 1) (length value)
    then throw Error.string_too_large
    else if contains_nul value
    then throw Error.string_has_nul
    else ok (
        pad_to_alignment (
          append_bytes (0 ∷ [])
            (append_bytes value (append_uint (length value + 1) (pad_to_alignment b)))))

unfoldable pub append_null_string : MessageBuilder → MessageBuilder
append_null_string b = append_uint 0 b

unfoldable pub append_object : ℕ → MessageBuilder → MessageBuilder
append_object id b = append_uint id b

unfoldable pub append_new_id : ℕ → MessageBuilder → MessageBuilder
append_new_id id b = append_uint id b

unfoldable pub append_array : List ℕ → MessageBuilder → Result Error MessageBuilder
append_array bytes b =
    if ltb (word_limit - 1) (length bytes)
    then throw Error.array_too_large
    else ok
        (pad_to_alignment (append_bytes bytes (append_uint (length bytes) (pad_to_alignment b))))

-- `dup` is `fcntl(fd, F_DUPFD_CLOEXEC, 0)`; `none` stands for a negative result.
unfoldable pub add_fd : (ℕ → Option ℕ) → ℕ → MessageBuilder → Result Error MessageBuilder
add_fd dup fd b = elim (dup fd) [
  | none ↦ throw Error.dup_failed
  | some copy ↦ ok (record b { fds = b.fds ++ (copy ∷ []) })
]

-- `(size << 16) | (opcode & 0xffff)`: the two halves do not overlap.
abbrev pub header_word : ℕ → ℕ → ℕ
header_word size opcode = size * 65536 + opcode % 65536

-- The header goes over the bytes 4 to 7. The buffer is moved out, which leaves it empty.
unfoldable pub finish : MessageBuilder → Result Error (List ℕ × MessageBuilder)
finish b =
    let padded = (pad_to_alignment b).buffer in
    let size = length padded in
    if ltb 65535 size || ltb 65535 b.opcode
    then throw Error.message_too_large
    else ok (
      take 4 padded ++ (le32 (header_word size b.opcode) ++ drop 8 padded),
      record b { buffer = [] },
    )

unfoldable pub take_fds : MessageBuilder → List ℕ × MessageBuilder
take_fds b = (b.fds, record b { fds = [] })
