-- ===== src/Wire/Signature.antt =====
-- parse_signature and type_from_letter of zwayland/wire/src/message.cpp, over the code points of a
-- signature.
pub mod Discard
pub mod Print
use zwwm.Common.{
  ℕ, Bool, true, false, ◌&&◌, List, [], ◌∷◌, ◌++◌, leb, ◌==◌, if◌then◌else◌, Result, ok, throw,
  ◌>>=◌,
}
use zwwm.Wire.Error.{Error}

pub data ArgType : Type 0 where
  int32 uint32 fixed string object new_id array fd : ArgType

pub record ArgSpec : Type 0 where
  pub type : ArgType
  pub nullable : Bool

unfoldable pub type_from_letter : ℕ → Result Error ArgType
type_from_letter c =
    if c == b'i'
    then ok ArgType.int32
    else if c == b'u'
    then ok ArgType.uint32
    else if c == b'f'
    then ok ArgType.fixed
    else if c == b's'
    then ok ArgType.string
    else if c == b'o'
    then ok ArgType.object
    else if c == b'n'
    then ok ArgType.new_id
    else if c == b'a'
    then ok ArgType.array
    else if c == b'h'
    then ok ArgType.fd
    else throw Error.invalid_letter

abbrev pub is_digit : ℕ → Bool
is_digit c = leb b'0' c && leb c b'9'

-- The loop over the characters. `nullable` is the local variable, and `specs` the vector so far.
unfoldable pub signature_loop : List ℕ → Bool → List ArgSpec → Result Error (List ArgSpec)
unfolding type_from_letter
signature_loop [] nullable specs = if nullable then throw Error.dangling_nullable else ok specs
signature_loop (c ∷ rest) nullable specs =
    let skip = signature_loop rest nullable specs in
    let mark = signature_loop rest true specs in
    if is_digit c then skip else if c == b'?' then mark else do
      t ← type_from_letter c
      signature_loop rest false (specs ++ (record { type = t; nullable = nullable } ∷ []))

unfoldable pub parse_signature : List ℕ → Result Error (List ArgSpec)
unfolding signature_loop
parse_signature signature = signature_loop signature false []
