-- ===== src/Wire/Args.antt =====
-- The arguments of a message as values, written by the methods of MessageBuilder and read by those
-- of MessageParser, in the way that the bindings of zwayland-scanner call them.
pub mod Append
pub mod Read
pub mod RoundTrip
use zwwm.Common.{
  ℕ, suc, ◌+◌, ◌%◌, ◌≤◌, ◌<◌, ◌≡◌, ◌≢◌, Bool, true, false, List, [], ◌∷◌, ◌++◌, Option, none, some,
  if◌then◌else◌, length, Result, ok, ◌>>=◌,
}
use zwwm.Common.Int.{ℤ, pos, negsuc}
use zwwm.Wire.Bytes.{le32, word_limit}
use zwwm.Wire.Error.{Error}
use zwwm.Wire.Signature.{ArgType}
use zwwm.Wire.Builder.{
  MessageBuilder, append_int, append_uint, append_string, append_null_string, append_object,
  append_new_id, append_array, add_fd, to_uint32, contains_nul, IsInt32,
}
use zwwm.Wire.Builder.Padding.{zeros}

-- The integer of `fixed` is the raw value, in units of 1/256.
pub data Arg : Type 0 where
  int fixed : ℤ → Arg
  uint object new_id : ℕ → Arg
  string array : List ℕ → Arg
  null_string : Arg
  fd : ℕ → Arg

abbrev pub type_of : Arg → ArgType
type_of (Arg.int z) = ArgType.int32
type_of (Arg.fixed z) = ArgType.fixed
type_of (Arg.uint n) = ArgType.uint32
type_of (Arg.object n) = ArgType.object
type_of (Arg.new_id n) = ArgType.new_id
type_of (Arg.string s) = ArgType.string
type_of Arg.null_string = ArgType.string
type_of (Arg.array a) = ArgType.array
type_of (Arg.fd n) = ArgType.fd

-- The values that the wire format holds: words in range, texts without NUL, sizes in a word.
abbrev pub Fits : Arg → Type 0
Fits (Arg.int z) = IsInt32 z
Fits (Arg.fixed z) = IsInt32 z
Fits (Arg.uint n) = n < word_limit
Fits (Arg.object n) = n < word_limit
Fits (Arg.new_id n) = n < word_limit
Fits (Arg.string s) = (contains_nul s ≡ false) × (length s + 1 < word_limit)
Fits Arg.null_string = Unit
Fits (Arg.array a) = length a < word_limit
Fits (Arg.fd n) = Unit

abbrev pub AllFit : List Arg → Type 0
AllFit [] = Unit
AllFit (a ∷ rest) = Fits a × AllFit rest

-- A descriptor is duplicated by the system call `dup`.
unfoldable pub append_arg : (ℕ → Option ℕ) → Arg → MessageBuilder → Result Error MessageBuilder
append_arg dup (Arg.int z) b = ok (append_int z b)
append_arg dup (Arg.fixed z) b = ok (append_int z b)
append_arg dup (Arg.uint n) b = ok (append_uint n b)
append_arg dup (Arg.object n) b = ok (append_object n b)
append_arg dup (Arg.new_id n) b = ok (append_new_id n b)
append_arg dup (Arg.string s) b = append_string s b
append_arg dup Arg.null_string b = ok (append_null_string b)
append_arg dup (Arg.array a) b = append_array a b
append_arg dup (Arg.fd n) b = add_fd dup n b

unfoldable pub append_args :
    (ℕ → Option ℕ) → List Arg → MessageBuilder → Result Error MessageBuilder
append_args dup [] b = ok b
append_args dup (a ∷ rest) b = append_arg dup a b >>= append_args dup rest

abbrev pub copy_of : (ℕ → Option ℕ) → ℕ → ℕ
copy_of dup n = elim (dup n) [ none ↦ n | some copy ↦ copy ]

-- The argument as it is sent: a descriptor goes out as its duplicate.
abbrev pub sent : (ℕ → Option ℕ) → Arg → Arg
sent dup (Arg.fd n) = Arg.fd (copy_of dup n)
sent dup a = a

-- The system duplicates every descriptor among the arguments.
abbrev pub Duplicates : (ℕ → Option ℕ) → Arg → Type 0
Duplicates dup (Arg.fd n) = dup n ≢ none
Duplicates dup a = Unit

abbrev pub AllDuplicate : (ℕ → Option ℕ) → List Arg → Type 0
AllDuplicate dup [] = Unit
AllDuplicate dup (a ∷ rest) = Duplicates dup a × AllDuplicate dup rest

-- A field of variable size: its size, its bytes and the zeros behind them.
abbrev pub encode_field : List ℕ → List ℕ
encode_field bytes = le32 (length bytes) ++ (bytes ++ zeros (length bytes))

-- The bytes that an argument takes, alignment included. Descriptors travel beside the bytes.
abbrev pub encode : Arg → List ℕ
encode (Arg.int z) = le32 (to_uint32 z)
encode (Arg.fixed z) = le32 (to_uint32 z)
encode (Arg.uint n) = le32 n
encode (Arg.object n) = le32 n
encode (Arg.new_id n) = le32 n
encode (Arg.string s) = encode_field (s ++ (0 ∷ []))
encode Arg.null_string = le32 0
encode (Arg.array a) = encode_field a
encode (Arg.fd n) = []

abbrev pub encode_all : List Arg → List ℕ
encode_all [] = []
encode_all (a ∷ rest) = encode a ++ encode_all rest

-- The descriptors among the arguments, in order.
abbrev pub fds_in : Arg → List ℕ
fds_in (Arg.fd n) = n ∷ []
fds_in _ = []

abbrev pub fds_of : List Arg → List ℕ
fds_of [] = []
fds_of (a ∷ rest) = fds_in a ++ fds_of rest
