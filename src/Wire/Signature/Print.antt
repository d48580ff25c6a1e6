-- ===== src/Wire/Signature/Print.antt =====
-- Printing and parsing signatures.
use zwwm.Common.{
  ℕ, ◌≡◌, refl, sym, ap, ◌∙◌, Bool, true, false, List, [], ◌∷◌, ◌++◌, if◌then◌else◌, ok, append-nil,
  append_assoc,
}
use zwwm.Wire.Signature.{ArgType, ArgSpec, is_digit, signature_loop, parse_signature}
use zwwm.Wire.Signature.Discard.{letter, letter_lem, letter_plain}

-- The text of an argument list, as the protocol files spell it.
abbrev pub print : List ArgSpec → List ℕ
print [] = []
print (spec ∷ rest) =
    (if spec.nullable then b'?' ∷ letter spec.type ∷ [] else letter spec.type ∷ []) ++ print rest

abbrev pub AllDigits : List ℕ → Type 0
AllDigits [] = Unit
AllDigits (c ∷ rest) = (is_digit c ≡ true) × AllDigits rest

letter_step :
    (t : ArgType) (nullable : Bool) (rest : List ℕ) (before : List ArgSpec)
    → signature_loop (letter t ∷ rest) nullable before
      ≡ signature_loop rest false (before ++ (record { type = t; nullable = nullable } ∷ []))
unfolding signature_loop
letter_step t nullable rest before = rw ((letter_plain t).0, (letter_plain t).1, letter_lem t)

mark_step :
    (rest : List ℕ) (before : List ArgSpec)
    → signature_loop (b'?' ∷ rest) false before ≡ signature_loop rest true before
unfolding signature_loop
mark_step rest before = refl

print_lem :
    (specs before : List ArgSpec) → signature_loop (print specs) false before ≡ ok (before ++ specs)
print_lem [] before = unfold signature_loop in ap ok (sym (append-nil before))
print_lem (spec ∷ rest) before =
    first spec.nullable
    ∙ print_lem rest (before ++ (spec ∷ []))
    ∙ ap ok (append_assoc before (spec ∷ []) rest)
  where
    first :
        (b : Bool)
        → signature_loop
            ((if b then b'?' ∷ letter spec.type ∷ [] else letter spec.type ∷ []) ++ print rest)
            false
            before
          ≡ signature_loop
              (print rest)
              false
              (before ++ (record { type = spec.type; nullable = b } ∷ []))
    first true = mark_step _ before ∙ letter_step spec.type true (print rest) before
    first false = letter_step spec.type false (print rest) before

-- A version in digits before the arguments is skipped.
version_lem :
    (version rest : List ℕ)
    → AllDigits version
    → signature_loop (version ++ rest) false [] ≡ signature_loop rest false []
unfolding signature_loop
version_lem [] rest h = refl
version_lem (c ∷ version) rest h = rw h.0 (version_lem version rest h.1)

-- parse_signature reads every argument list back from its text, in order and with its nullable
-- marks, also behind a version number.
pub parse_signature-print :
    (version : List ℕ) (specs : List ArgSpec)
    → AllDigits version
    → parse_signature (version ++ print specs) ≡ ok specs
unfolding parse_signature
parse_signature-print version specs h = version_lem version (print specs) h ∙ print_lem specs []
