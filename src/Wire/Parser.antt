-- ===== src/Wire/Parser.antt =====
-- MessageParser of zwayland/wire/src/message.cpp. A method takes the parser and gives the parser
-- that it leaves, also where it throws: what it had consumed by then stays consumed.
pub mod Reads
pub mod Safety
use zwwm.Common.{
  ℕ, ◌+◌, ◌-◌, ◌*◌, ◌/◌, Bool, ◌||◌, none, some, List, [], ◌∷◌, ◌++◌, ltb, leb, ◌==◌, if◌then◌else◌,
  length, get_elem?, get_or, drop, take,
}
use zwwm.Common.Int.{ℤ, pos, negsuc}
use zwwm.Wire.Bytes.{word, word_limit}
use zwwm.Wire.Error.{Error}
use zwwm.Wire.Signature.{ArgType, ArgSpec, is_digit}
use zwwm.Wire.Builder.{contains_nul}

-- `fds` are the descriptors of the message, and `closed` those that the parser has closed.
pub record MessageParser : Type 0 where
  pub body : List ℕ
  pub pos : ℕ
  pub fds : List ℕ
  pub fd_pos : ℕ
  pub closed : List ℕ

pub data Outcome {ℓ} (A : Type ℓ) : Type ℓ where
  ok : A → MessageParser → Outcome A
  throw : Error → MessageParser → Outcome A

abbrev pub Reader : Type 0 → Type 0
Reader A = MessageParser → Outcome A

infixl 5 ◌>>=◌ ◌>>◌
abbrev pub ◌>>=◌ : {A B : Type 0} → Reader A → (A → Reader B) → Reader B
◌>>=◌ m f p = elim (m p) [ Outcome.ok a q ↦ f a q | Outcome.throw e q ↦ Outcome.throw e q ]

abbrev pub ◌>>◌ : {B : Type 0} → Reader (Unit {0}) → Reader B → Reader B
m >> k = m >>= λ _. k

abbrev pub pure : {A : Type 0} → A → Reader A
pure a p = Outcome.ok a p

unfoldable pub make : List ℕ → List ℕ → MessageParser
make body fds = record { body = body; pos = 0; fds = fds; fd_pos = 0; closed = [] }

unfoldable pub at_end : MessageParser → Bool
at_end p = leb (length p.body) p.pos

unfoldable pub ensure : ℕ → Reader (Unit {0})
ensure bytes p =
    if ltb (length p.body) (p.pos + bytes) then Outcome.throw Error.truncated p else Outcome.ok tt p

abbrev pub remaining : MessageParser → List ℕ
remaining p = drop p.pos p.body

abbrev pub advance : ℕ → MessageParser → MessageParser
advance n p = record p { pos = p.pos + n }

abbrev move : ℕ → Reader (Unit {0})
move n p = Outcome.ok tt (advance n p)

abbrev peek : {A : Type 0} → (List ℕ → A) → Reader A
peek f p = Outcome.ok (f (remaining p)) p

-- `read_raw<std::uint32_t>`.
unfoldable pub read_raw : Reader ℕ
read_raw = do ensure 4; value ← peek word; move 4; pure value

abbrev pub to_int32 : ℕ → ℤ
to_int32 w = if ltb w (word_limit / 2) then pos w else negsuc (word_limit - w - 1)

unfoldable pub read_int : Reader ℤ
read_int = do value ← read_raw; pure (to_int32 value)

unfoldable pub read_uint : Reader ℕ
read_uint = read_raw

unfoldable pub read_object : Reader ℕ
read_object = read_raw

unfoldable pub read_new_id : Reader ℕ
read_new_id = read_raw

unfoldable pub is_null_string : Reader Bool
is_null_string = do ensure 4; peek (λ bytes. word bytes == 0)

-- `aligned = (pos_ + 3) & ~3; ensure(aligned - pos_); pos_ = aligned`.
unfoldable pub align : Reader (Unit {0})
align p =
    let aligned = (p.pos + 3) / 4 * 4 in
    (do ensure (aligned - p.pos); λ q. Outcome.ok tt (record q { pos = aligned })) p

abbrev fail : {A : Type 0} → Error → Reader A
fail e p = Outcome.throw e p

-- The checks on the text with its terminator, and what follows them.
unfoldable pub finish_text : ℕ → List ℕ → Reader (List ℕ)
finish_text count text =
    if get_or text (count - 1) 0 == 0
    then (if contains_nul (take (count - 1) text)
        then fail Error.embedded_nul
        else do move count; align; pure (take (count - 1) text))
    else fail Error.not_terminated

-- The part of `read_string` behind the length.
unfoldable pub read_text : ℕ → Reader (List ℕ)
read_text count = do ensure count; text ← peek (take count); finish_text count text

unfoldable pub read_string : Reader (List ℕ)
read_string = do count ← read_raw; if count == 0 then pure [] else read_text count

unfoldable pub read_array : Reader (List ℕ)
read_array = do
  count ← read_raw
  ensure count
  view ← peek (take count)
  move count
  align
  pure view

unfoldable pub consume_fd : Reader (Unit {0})
consume_fd p =
    if leb (length p.fds) p.fd_pos
    then Outcome.throw Error.missing_fd p
    else Outcome.ok tt (record p { fd_pos = p.fd_pos + 1 })

unfoldable pub read_fd : Reader ℕ
read_fd p = elim (get_elem? p.fds p.fd_pos) [
  | none ↦ Outcome.throw Error.missing_fd p
  | some fd ↦ Outcome.ok fd (record p { fd_pos = p.fd_pos + 1 })
]

-- `close(read_fd())`.
unfoldable pub close_fd : Reader (Unit {0})
close_fd = do fd ← read_fd; λ p. Outcome.ok tt (record p { closed = p.closed ++ (fd ∷ []) })

abbrev ignore : {A : Type 0} → Reader A → Reader (Unit {0})
ignore m = do _ ← m; pure tt

unfoldable pub skip : ArgSpec → Reader (Unit {0})
skip spec = elim spec.type [
  | ArgType.int32 ↦ ignore read_raw
  | ArgType.uint32 ↦ ignore read_raw
  | ArgType.fixed ↦ ignore read_raw
  | ArgType.object ↦ ignore read_raw
  | ArgType.new_id ↦ ignore read_raw
  | ArgType.string ↦ ignore read_string
  | ArgType.array ↦ ignore read_array
  | ArgType.fd ↦ close_fd
]

-- One round of the loop of `discard` on a letter that is neither a digit nor the marker.
unfoldable pub discard_letter : ℕ → Reader (Unit {0})
discard_letter c =
    if c == b'i'
    then ignore read_int
    else if c == b'u'
    then ignore read_uint
    else if c == b'f'
    then ignore read_raw
    else if c == b's'
    then ignore read_string
    else if c == b'o'
    then ignore read_object
    else if c == b'n'
    then ignore read_new_id
    else if c == b'a'
    then ignore read_array
    else if c == b'h'
    then close_fd
    else fail Error.invalid_signature

unfoldable pub discard : List ℕ → Reader (Unit {0})
discard [] = pure tt
discard (c ∷ rest) = (if c == b'?' || is_digit c then pure tt else discard_letter c) >> discard rest
