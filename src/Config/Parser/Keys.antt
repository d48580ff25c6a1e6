-- ===== src/Config/Parser/Keys.antt =====
-- Where the key of an assignment stands in the input of zw-lang/src/config.cpp.
use zwwm.Common.{
  ℕ, ◌≡◌, refl, ap, Bool, true, false, not, ◌&&◌, ◌||◌, List, [], ◌∷◌, ◌++◌, ◌==◌, Bool-cases, inl,
  inr,
}
use zwwm.Config.{SourceLocation, Value}
use zwwm.Config.Parser.{
  Parser, Outcome, ◌>>=◌, walk, head, at, skip_loop, skip_ignored, consume, identifier_loop,
  is_identifier_start, is_identifier_character, is_space, parse_identifier, parse_value_list,
  parse_assignment,
}

-- The parser stands behind spaces and comments.
abbrev pub IsSkipped : Parser → Type 0
IsSkipped p = skip_loop false p.rest p.location ≡ at p.rest p.location

skip_loop-again :
    (comment : Bool) (cs : List ℕ) (l : SourceLocation)
    → skip_loop false (skip_loop comment cs l).rest (skip_loop comment cs l).location
      ≡ skip_loop comment cs l
unfolding skip_loop
skip_loop-again true [] l = refl
skip_loop-again false [] l = refl
skip_loop-again true (c ∷ cs) l = skip_loop-again (not (c == b'\n')) cs (walk c l)
skip_loop-again false (c ∷ cs) l = elim (Bool-cases (is_space c || c == b'-' && head cs == b'-')) [
  | inl e ↦ rw e (skip_loop-again (not (is_space c)) cs (walk c l))
  | inr e ↦ rw e (rw e refl)
]

pub skip_ignored-IsSkipped : (p : Parser) → IsSkipped (skip_ignored p)
unfolding skip_ignored
skip_ignored-IsSkipped p = skip_loop-again false p.rest p.location

identifier_loop-append :
    (cs : List ℕ) (l : SourceLocation)
    → cs ≡ (identifier_loop cs l).0 ++ (identifier_loop cs l).1.rest
unfolding identifier_loop
identifier_loop-append [] l = refl
identifier_loop-append (c ∷ cs) l = elim (Bool-cases (is_identifier_character c)) [
  | inl e ↦ rw e (ap (λ k. c ∷ k) (identifier_loop-append cs (walk c l)))
  | inr e ↦ rw e refl
]

-- The rest of the parser begins with the identifier that was read.
abbrev Reads : List ℕ → Outcome (List ℕ) → Type 0
Reads cs (Outcome.done key q) = (rest : List ℕ) × (cs ≡ key ++ rest)
Reads cs (Outcome.failed q) = Unit
Reads cs Outcome.undefined = Unit
Reads cs Outcome.out_of_fuel = Unit

parse_identifier-Reads : (p : Parser) → IsSkipped p → Reads p.rest (parse_identifier p)
unfolding parse_identifier skip_ignored
parse_identifier-Reads p skipped =
    rw skipped (elim (Bool-cases (is_identifier_start (head p.rest))) [
      | inl e ↦
          rw e
            ((identifier_loop p.rest p.location).1.rest, identifier_loop-append p.rest p.location)
      | inr e ↦ rw e tt
    ])

-- The rest begins with the key of the assignment that was read.
abbrev pub Named : List ℕ → Outcome (List ℕ × Value) → Type 0
Named cs (Outcome.done (key, v) q) = (rest : List ℕ) × (cs ≡ key ++ rest)
Named cs (Outcome.failed q) = Unit
Named cs Outcome.undefined = Unit
Named cs Outcome.out_of_fuel = Unit

then_value :
    (cs key rest : List ℕ) (m : Outcome Value)
    → cs ≡ key ++ rest
    → Named cs (m >>= λ v. Outcome.done (key, v))
then_value cs key rest (Outcome.done v q) e = (rest, e)
then_value cs key rest (Outcome.failed q) e = tt
then_value cs key rest Outcome.undefined e = tt
then_value cs key rest Outcome.out_of_fuel e = tt

then_Named :
    (cs : List ℕ) (m : Outcome (List ℕ)) (f : List ℕ → Parser → Outcome (List ℕ × Value))
    → Reads cs m
    → ((key rest : List ℕ) (q : Parser) → cs ≡ key ++ rest → Named cs (f key q))
    → Named cs (m >>= f)
then_Named cs (Outcome.done key q) f (rest, e) k = k key rest q e
then_Named cs (Outcome.failed q) f h k = tt
then_Named cs Outcome.undefined f h k = tt
then_Named cs Outcome.out_of_fuel f h k = tt

pub parse_assignment-Named :
    (f : ℕ) (p : Parser) → IsSkipped p → Named p.rest (parse_assignment f p)
unfolding parse_assignment
parse_assignment-Named f p skipped =
    then_Named p.rest (parse_identifier p) _ (parse_identifier-Reads p skipped) (λ key rest q e.
      elim (Bool-cases (consume b'=' q).0) [
        | inr missing ↦ rw missing tt
        | inl there ↦
            rw there (then_value p.rest key rest (parse_value_list f (consume b'=' q).1) e)
      ])
