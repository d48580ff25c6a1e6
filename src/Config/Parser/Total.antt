-- ===== src/Config/Parser/Total.antt =====
-- The loop of Parser::parse as a whole.
use mathlib.Core.Path.{subst}
use zwwm.Common.{
  ℕ, zero, suc, ◌+◌, ◌*◌, ◌≤◌, ◌<◌, ◌≡◌, refl, sym, ap, ◌∙◌, arith, true, false, some, List, [],
  ◌∷◌, ◌++◌, length, Bool-cases, inl, inr,
}
use zwwm.Config.{
  first_location, DiagnosticLevel, Diagnostic, Value, Assignment, ParseResult, bytes, has_errors,
  is_error,
}
use zwwm.Config.Parser.{
  Parser, Outcome, at_end, skip_ignored, recover, consume, parse_identifier, parse_value_list,
  parse_assignment, parse_loop, start, parse, result_of, parse_config,
}
use zwwm.Config.Parser.Reach.{
  Passes, Passes-trans, Passes-le, error_at, Reaches, Reports, Ensures, Reaches-trans, Ensures-bind,
  small_numbers, Passes-small,
}
use zwwm.Config.Parser.Loops.{
  skip_ignored-Reaches, recover-Reaches, recover-shorter, consume-Reaches, consume-Reaches_one,
  parse_identifier-Ensures,
}
use zwwm.Config.Parser.Places.{IsPlace, StandsAt, Passes-IsPlace, Passes-StandsAt}
use zwwm.Config.Parser.Keys.{IsSkipped, Named, skip_ignored-IsSkipped, parse_assignment-Named}
use zwwm.Config.Parser.Nested.{parse_value_list-Ensures, then_done, then_error, then_part}

parse_assignment-Ensures :
    (f : ℕ) (p : Parser) → 3 * length p.rest + 3 ≤ f → Ensures 1 p (parse_assignment f p)
unfolding parse_assignment
parse_assignment-Ensures f p h =
    Ensures-bind 1 0 p (parse_identifier p) _ (parse_identifier-Ensures p) (λ key q t.
      elim (Bool-cases (consume b'=' q).0) [
        | inr e ↦
            rw e (then_error (bytes "expected '=' after assignment name") (consume-Reaches 60 q))
        | inl e ↦ rw e (
            let on : Reaches 1 q (consume b'=' q).1 = consume-Reaches_one 60 q e in
            then_part 0 0 _ on (omega arith) (
              then_done 0 (consume b'=' q).1 (parse_value_list f (consume b'=' q).1) (λ v. (key, v))
                (parse_value_list-Ensures f (consume b'=' q).1
                  (omega (arith, h, t.shorter, on.shorter)))))
      ])

abbrev pub AllPlaced : List ℕ → List Assignment → Type 0
AllPlaced input [] = Unit
AllPlaced input (a ∷ rest) = StandsAt input a.key a.location × AllPlaced input rest

abbrev pub AllErrors : List ℕ → List Diagnostic → Type 0
AllErrors input [] = Unit
AllErrors input (d ∷ rest) =
    (d.level ≡ DiagnosticLevel.error) × IsPlace input d.location × AllErrors input rest

AllPlaced-append :
    (input : List ℕ) (xs : List Assignment) (a : Assignment)
    → AllPlaced input xs
    → StandsAt input a.key a.location
    → AllPlaced input (xs ++ (a ∷ []))
AllPlaced-append input [] a h k = (k, tt)
AllPlaced-append input (x ∷ xs) a h k = (h.0, AllPlaced-append input xs a h.1 k)

AllErrors-append :
    (input : List ℕ) (xs : List Diagnostic) (d : Diagnostic)
    → AllErrors input xs
    → d.level ≡ DiagnosticLevel.error
    → IsPlace input d.location
    → AllErrors input (xs ++ (d ∷ []))
AllErrors-append input [] d h e k = (e, k, tt)
AllErrors-append input (x ∷ xs) d (a, b, h) e k = (a, b, AllErrors-append input xs d h e k)

-- What the loop keeps.
record IsParsing (input : List ℕ) (read : List Assignment) (p : Parser) : Type 0 where
  skipped : IsSkipped p
  reached : Passes input first_location p.rest p.location
  placed : AllPlaced input read
  reported : AllErrors input p.diagnostics

-- The whole input is read; assignments and errors lie at places of it.
abbrev pub Parsed : List ℕ → Outcome (List Assignment) → Type 0
Parsed input (Outcome.done read p) =
    (p.rest ≡ []) × AllPlaced input read × AllErrors input p.diagnostics
Parsed input (Outcome.failed p) = ⊥
Parsed input Outcome.undefined = small_numbers input ≡ false
Parsed input Outcome.out_of_fuel = ⊥

length_end : (cs : List ℕ) → at_end cs ≡ true → length cs ≡ 0
length_end [] h = refl
length_end (c ∷ cs) h = cc

length_pos : (cs : List ℕ) → at_end cs ≡ false → 1 ≤ length cs
length_pos [] h = cc
length_pos (c ∷ cs) h = omega arith

-- A round that reports an error goes on as well.
failed-shorter :
    (p q : Parser)
    → Reports p q
    → at_end p.rest ≡ false
    → length (skip_ignored (recover q)).rest + 0 ≤ length q.rest
    → length (skip_ignored (recover q)).rest < length p.rest
failed-shorter p q e a on = elim (Bool-cases (at_end q.rest)) [
  | inl f ↦ omega (arith, on, length_end q.rest f, length_pos p.rest a)
  | inr f ↦
      omega
        (arith, recover-shorter q f, Passes-le e.passes, (skip_ignored-Reaches (recover q)).shorter)
]

round :
    (input : List ℕ) (f : ℕ) (read : List Assignment) (p : Parser)
    → IsParsing input read p
    → at_end p.rest ≡ false
    → (m : Outcome (List ℕ × Value)) → Ensures 1 p m
    → Named p.rest m
    → ((read' : List Assignment) (q : Parser)
        → IsParsing input read' q
        → length q.rest < length p.rest
        → Parsed input (parse_loop f read' q))
    → Parsed input (elim m as (λ x. Outcome (List Assignment)) [
      | Outcome.done (key, v) q ↦
          parse_loop f
            (read ++ (record { location = p.location; key = key; value = v } ∷ []))
            (skip_ignored q)
      | Outcome.failed q ↦ parse_loop f read (skip_ignored (recover q))
      | Outcome.undefined ↦ Outcome.undefined
      | Outcome.out_of_fuel ↦ Outcome.out_of_fuel
    ])
round input f read p i a (Outcome.done (key, v) q) e (behind, named) k =
    let on : Reaches 1 p (skip_ignored q) = Reaches-trans e (skip_ignored-Reaches q) in
    k (read ++ (record { location = p.location; key = key; value = v } ∷ [])) (skip_ignored q)
      (record {
        skipped = skip_ignored-IsSkipped q;
        reached = Passes-trans i.reached on.passes;
        placed =
            AllPlaced-append input read _ i.placed
              (Passes-StandsAt input p.rest key behind p.location i.reached named);
        reported = subst (AllErrors input) (sym on.silent) i.reported;
      })
      (omega (arith, on.shorter))
round input f read p i a (Outcome.failed q) e n k =
    let on : Reaches 0 q (skip_ignored (recover q)) =
      Reaches-trans (recover-Reaches q) (skip_ignored-Reaches (recover q)) in
    let there = Passes-trans i.reached e.passes in
    k read (skip_ignored (recover q))
      (record {
        skipped = skip_ignored-IsSkipped (recover q);
        reached = Passes-trans there on.passes;
        placed = i.placed;
        reported = subst (AllErrors input) (sym (on.silent ∙ e.told)) (
            AllErrors-append input p.diagnostics (error_at q.location e.message) i.reported refl
              (Passes-IsPlace input q.rest q.location there));
      })
      (failed-shorter p q e a on.shorter)
round input f read p i a Outcome.undefined e n k = Passes-small i.reached e
round input f read p i a Outcome.out_of_fuel e n k = e

loop_lem :
    (input : List ℕ) (f : ℕ) (read : List Assignment) (p : Parser)
    → IsParsing input read p
    → length p.rest < f
    → Parsed input (parse_loop f read p)
unfolding parse_loop
loop_lem input zero read p i h = elim h [ ]
loop_lem input (suc f) read p i h = elim (Bool-cases (at_end p.rest)) [
  | inl e ↦ rw e (at_end-nil p.rest e, i.placed, i.reported)
  | inr e ↦ rw e (
      round input f read p i e (parse_assignment (3 * length p.rest + 3) p)
        (parse_assignment-Ensures (3 * length p.rest + 3) p (omega arith))
        (parse_assignment-Named (3 * length p.rest + 3) p i.skipped)
        (λ read' q j less. loop_lem input f read' q j (omega (arith, h, less))))
]
  where
    at_end-nil : (cs : List ℕ) → at_end cs ≡ true → cs ≡ []
    at_end-nil [] k = refl
    at_end-nil (c ∷ cs) k = cc

-- The parser has enough fuel for every input, and reads all of it unless a number is too large. All
-- diagnostics are errors, and the locations of assignments and errors are places in the input.
pub parse-Parsed : (input : List ℕ) → Parsed input (parse input)
unfolding parse
parse-Parsed input =
    let begun : Reaches 0 (start input) (skip_ignored (start input)) =
      skip_ignored-Reaches (start input) in
    loop_lem input (length input + 1) [] (skip_ignored (start input))
      (record {
        skipped = skip_ignored-IsSkipped (start input);
        reached = begun.passes;
        placed = tt;
        reported = subst (AllErrors input) (sym begun.silent) tt;
      })
      (omega (arith, begun.shorter))

none_left :
    (input : List ℕ) (ds : List Diagnostic) → AllErrors input ds → has_errors ds ≡ false → ds ≡ []
unfolding has_errors
none_left input [] a h = refl
none_left input (d ∷ ds) (level, place, a) h = cc (ap is_error level, h)

-- What parse_config gives.
abbrev pub IsResult : List ℕ → ParseResult → Type 0
IsResult input r =
    AllPlaced input r.assignments
    × AllErrors input r.diagnostics
    × (has_errors r.diagnostics ≡ false → r.diagnostics ≡ [])

result_lem :
    (input : List ℕ) (m : Outcome (List Assignment))
    → Parsed input m
    → small_numbers input ≡ true
    → (r : ParseResult) × (result_of m ≡ some r) × IsResult input r
unfolding result_of
result_lem input (Outcome.done read p) (e, placed, errors) small = (
  record { assignments = read; diagnostics = p.diagnostics },
  refl,
  (placed, errors, none_left input p.diagnostics errors),
)
result_lem input (Outcome.failed p) h small = absurd h
result_lem input Outcome.undefined h small = absurd (cc (h, small))
result_lem input Outcome.out_of_fuel h small = absurd h

-- parse_config has a result for every input in which no digits make a number of 2 ^ 63 or more, at
-- which the code's behaviour is undefined. Its diagnostics are errors, and it has none if `ok` holds. The
-- line and the column of a diagnostic are one more than the line breaks before some place of the input,
-- and than the characters before it on its line; those of an assignment belong to a place at which its
-- key stands.
pub parse_config-IsResult :
    (input : List ℕ)
    → small_numbers input ≡ true
    → (r : ParseResult) × (parse_config input ≡ some r) × IsResult input r
unfolding parse_config
parse_config-IsResult input small = result_lem input (parse input) (parse-Parsed input) small
