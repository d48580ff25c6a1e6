-- ===== src/Wire/Signature/Discard.antt =====
-- MessageParser::discard walks a signature, and MessageParser::skip an argument that
-- parse_signature found in it.
use zwwm.Common.{
  ℕ, ◌≡◌, refl, sym, ap, ◌∙◌, arith, Bool, true, false, ◌||◌, List, [], ◌∷◌, ◌++◌, ◌==◌, ok,
  append-nil, append_assoc, Bool-cases, Result-cases, inl, inr,
}
use mathlib.Core.Path.{fun_ext, ap₂}
use zwwm.Wire.Parser
use zwwm.Wire.Parser.{
  Reader, Outcome, MessageParser, skip, discard, discard_letter, read_uint, read_object,
  read_new_id, read_int, read_raw, pure,
}
use zwwm.Wire.Signature.{
  ArgType, ArgSpec, type_from_letter, is_digit, signature_loop, parse_signature,
}

abbrev pub skip_all : List ArgSpec → Reader (Unit {0})
skip_all [] = pure tt
skip_all (spec ∷ rest) = Parser.◌>>◌ (skip spec) (skip_all rest)

-- The letter of each type.
abbrev pub letter : ArgType → ℕ
letter ArgType.int32 = b'i'
letter ArgType.uint32 = b'u'
letter ArgType.fixed = b'f'
letter ArgType.string = b's'
letter ArgType.object = b'o'
letter ArgType.new_id = b'n'
letter ArgType.array = b'a'
letter ArgType.fd = b'h'

type_from_letter-letter : (c : ℕ) (t : ArgType) → type_from_letter c ≡ ok t → c ≡ letter t
unfolding type_from_letter
type_from_letter-letter c ArgType.int32 e = ground arith
type_from_letter-letter c _ e = ground arith

pub letter_lem : (t : ArgType) → type_from_letter (letter t) ≡ ok t
unfolding type_from_letter
letter_lem ArgType.int32 = refl
letter_lem _ = refl

pub letter_plain : (t : ArgType) → (is_digit (letter t) ≡ false) × ((letter t == b'?') ≡ false)
letter_plain ArgType.int32 = (refl, refl)
letter_plain _ = (refl, refl)

-- An `int32_t` that is read and dropped is a word that is read and dropped.
ignore-read_int :
    (p : MessageParser)
    → Parser.◌>>=◌ read_int (λ _. pure tt) p ≡ Parser.◌>>=◌ read_raw (λ _. pure tt) p
unfolding read_int
ignore-read_int p = ground arith

discard_letter-skip :
    (t : ArgType) (nullable : Bool) (p : MessageParser)
    → discard_letter (letter t) p ≡ skip (record { type = t; nullable = nullable }) p
unfolding discard_letter skip read_uint read_object read_new_id
discard_letter-skip ArgType.int32 nullable p = ignore-read_int p
discard_letter-skip _ nullable p = refl

-- What the loop adds to `specs`, and that discarding the rest of the signature is skipping that.
record Adds (rest : List ℕ) (specs result : List ArgSpec) : Type 0 where
  new : List ArgSpec
  added : result ≡ specs ++ new
  agrees : (p : MessageParser) → discard rest p ≡ skip_all new p

Adds-same :
    (c : ℕ) (rest : List ℕ) (specs result : List ArgSpec)
    → (c == b'?' || is_digit c) ≡ true
    → Adds rest specs result
    → Adds (c ∷ rest) specs result
unfolding discard
Adds-same c rest specs result h k = record {
  new = k.new;
  added = k.added;
  agrees = λ p. rw h (k.agrees p);
}

Adds-letter :
    (c : ℕ) (t : ArgType) (nullable : Bool) (rest : List ℕ) (specs result : List ArgSpec)
    → c ≡ letter t
    → Adds rest (specs ++ (record { type = t; nullable = nullable } ∷ [])) result
    → Adds (c ∷ rest) specs result
unfolding discard
Adds-letter c t nullable rest specs result e k = record {
  new = spec ∷ k.new;
  added = k.added ∙ append_assoc specs (spec ∷ []) k.new;
  agrees = λ p.
      rw e (rw ((letter_plain t).0, (letter_plain t).1) (both (discard_letter-skip t nullable) p));
}
  where
    spec : ArgSpec
    spec = record { type = t; nullable = nullable }

    both :
        ((p : MessageParser) → discard_letter (letter t) p ≡ skip spec p)
        → (p : MessageParser)
        → Parser.◌>>◌ (discard_letter (letter t)) (discard rest) p
          ≡ Parser.◌>>◌ (skip spec) (skip_all k.new) p
    both same p =
        ap₂ (λ (f g : Reader (Unit {0})). Parser.◌>>◌ f g p) (fun_ext same) (fun_ext k.agrees)

signature_loop-Adds :
    (rest : List ℕ) (nullable : Bool) (specs result : List ArgSpec)
    → signature_loop rest nullable specs ≡ ok result
    → Adds rest specs result
unfolding signature_loop discard
signature_loop-Adds [] true specs result e = cc
signature_loop-Adds [] false specs result e = record {
  new = [];
  added = ground (arith, append-nil specs);
  agrees = λ p. refl;
}
signature_loop-Adds (c ∷ rest) nullable specs result e = elim (Bool-cases (is_digit c)) [
  | inl d ↦
      Adds-same c rest specs result (ground arith)
        (signature_loop-Adds rest nullable specs result (ground arith))
  | inr d ↦ elim (Bool-cases (c == b'?')) [
    | inl m ↦
        Adds-same c rest specs result (ground arith)
          (signature_loop-Adds rest true specs result (ground arith))
    | inr m ↦ elim (Result-cases (type_from_letter c)) [
      | inl (t, l) ↦
          let spec : ArgSpec = record { type = t; nullable = nullable } in
          Adds-letter c t nullable rest specs result (type_from_letter-letter c t l)
            (signature_loop-Adds rest false (specs ++ (spec ∷ [])) result (ground arith))
      | inr (x, l) ↦ ground arith
    ]
  ]
]

-- For a signature that parse_signature accepts, discarding its arguments is skipping, one by one,
-- the arguments that it lists: the same parser comes out, or the same exception.
pub discard-skip_all :
    (signature : List ℕ) (specs : List ArgSpec) (p : MessageParser)
    → parse_signature signature ≡ ok specs
    → discard signature p ≡ skip_all specs p
unfolding parse_signature
discard-skip_all signature specs p e =
    let adds = signature_loop-Adds signature false [] specs e in
    adds.agrees p ∙ ap (λ all. skip_all all p) (sym adds.added)
