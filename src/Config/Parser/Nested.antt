-- ===== src/Config/Parser/Nested.antt =====
-- The methods that call each other, with enough fuel.
use zwwm.Common.{
  ℕ, zero, suc, ◌+◌, ◌*◌, ◌≤◌, ◌≡◌, arith, false, List, [], ◌==◌, length, Bool-cases, inl, inr,
}
use zwwm.Config.{Value, Values, Fields, bytes, add, push_back}
use zwwm.Config.Parser.{
  Parser, Outcome, ◌>>=◌, head, at_end, advance, skip_ignored, consume, report, starts_integer,
  parse_identifier, parse_string, parse_key, named_value, parse_value, parse_array, array_loop,
  after_element, object_loop, object_field, parse_value_list, list_loop,
}
use zwwm.Config.Parser.Reach.{
  Reaches, Reports, Ensures, Reaches-trans, Reaches-less, Reaches-Reports, report-Reports,
  Reaches-Ensures, Ensures-less, Ensures-bind,
}
use zwwm.Config.Parser.Loops.{
  skip_ignored-Reaches, advance-Reaches, not_at_end, consume-Reaches, consume-Reaches_one,
  parse_identifier-Ensures, parse_string-Ensures, parse_integer-Ensures, parse_key-Ensures,
}

-- A value from what was read, without going on.
pub then_done :
    {A B : Type 0} (k : ℕ) (p : Parser) (m : Outcome A) (f : A → B)
    → Ensures k p m
    → Ensures k p (m >>= λ a. Outcome.done (f a))
then_done k p (Outcome.done a q) f h = h
then_done k p (Outcome.failed q) f h = h
then_done k p Outcome.undefined f h = h
then_done k p Outcome.out_of_fuel f h = h

-- An error behind what was reached.
pub then_error :
    {i : ℕ} {p q : Parser} (message : List ℕ) → Reaches i p q → Reports p (report message q)
then_error {q = q} message h = Reaches-Reports h (report-Reports message q)

-- A part that goes on from what was reached.
pub then_part :
    {A : Type 0} {i : ℕ} {p q : Parser} (j k : ℕ) (m : Outcome A)
    → Reaches i p q
    → k ≤ i + j
    → Ensures j q m
    → Ensures k p m
then_part {i = i} {p = p} j k m h le e = Ensures-less (i + j) k p m le (Reaches-Ensures j m h e)

mutual
  unfolding parse_value parse_array array_loop after_element object_loop object_field
      parse_value_list list_loop

  value_lem : (f : ℕ) (p : Parser) → 3 * length p.rest + 2 ≤ f → Ensures 1 p (parse_value f p)
  value_lem zero p h = absurd (omega (arith, h))
  value_lem (suc f) p h =
      let q : Parser = skip_ignored p in
      let reached : Reaches 0 p q = skip_ignored-Reaches p in
      let le : length q.rest ≤ length p.rest = omega (arith, reached.shorter) in
      elim (Bool-cases (head q.rest == b'"')) [
        | inl e ↦ rw e (
            then_part 1 1 _ reached (omega arith) (
              then_done 1 q (parse_string q) Value.text
                (parse_string-Ensures q (not_at_end q.rest 33 (ground arith)))))
        | inr e ↦ rw e (elim (Bool-cases (head q.rest == b'$')) [
          | inl e2 ↦ rw e2 (
              then_part 1 1 _
                (Reaches-trans reached (advance-Reaches q (not_at_end q.rest 35 (ground arith))))
                (omega arith)
                (then_done 1 (advance q) (parse_identifier (advance q)) Value.reference
                  (parse_identifier-Ensures (advance q))))
          | inr e2 ↦ rw e2 (elim (Bool-cases (head q.rest == b'[')) [
            | inl e3 ↦ rw e3 (
                then_part 1 1 _ reached (omega arith)
                  (array_lem f q (not_at_end q.rest 90 (ground arith)) (omega (arith, h, le))))
            | inr e3 ↦ rw e3 (elim (Bool-cases (head q.rest == b'{')) [
              | inl e4 ↦ rw e4 (
                  let inside : Reaches 1 p (skip_ignored (advance q)) = Reaches-trans reached (
                    Reaches-trans (advance-Reaches q (not_at_end q.rest 122 (ground arith)))
                      (skip_ignored-Reaches (advance q))) in
                  then_part 0 1 _ inside (omega arith) (
                    object_lem f Fields.end (skip_ignored (advance q))
                      (omega (arith, h, inside.shorter))))
              | inr e4 ↦ rw e4 (elim (Bool-cases (starts_integer q.rest)) [
                | inl e5 ↦
                    rw e5 (then_part 1 1 _ reached (omega arith) (parse_integer-Ensures q e5))
                | inr e5 ↦ rw e5 (
                    then_part 1 1 _ reached (omega arith)
                      (then_done 1 q (parse_identifier q) named_value (parse_identifier-Ensures q)))
              ])
            ])
          ])
        ])
      ]

  array_lem :
      (f : ℕ) (p : Parser)
      → at_end p.rest ≡ false
      → 3 * length p.rest + 1 ≤ f
      → Ensures 1 p (parse_array f p)
  array_lem zero p a h = absurd (omega (arith, h))
  array_lem (suc f) p a h =
      let inside : Reaches 1 p (skip_ignored (advance p)) =
        Reaches-trans (advance-Reaches p a) (skip_ignored-Reaches (advance p)) in
      let reached : Reaches 1 p (consume b']' (skip_ignored (advance p))).1 =
        Reaches-trans inside (consume-Reaches 92 (skip_ignored (advance p))) in
      elim (Bool-cases (consume b']' (skip_ignored (advance p))).0) [
        | inl e ↦ rw e reached
        | inr e ↦ rw e (
            then_part 0 1 _ reached (omega arith) (
              array_loop_lem f Values.nil (consume b']' (skip_ignored (advance p))).1
                (omega (arith, h, reached.shorter))))
      ]

  array_loop_lem :
      (f : ℕ) (vs : Values) (p : Parser)
      → 3 * length p.rest + 3 ≤ f
      → Ensures 0 p (array_loop f vs p)
  array_loop_lem zero vs p h = absurd (omega (arith, h))
  array_loop_lem (suc f) vs p h = Ensures-less 1 0 p _ (omega arith) (
      Ensures-bind 1 0 p (parse_value f p) (λ v q. after_element f (push_back v vs) q)
        (value_lem f p (omega (arith, h)))
        (λ v q r. after_element_lem f (push_back v vs) q (omega (arith, h, r.shorter))))

  after_element_lem :
      (f : ℕ) (vs : Values) (p : Parser)
      → 3 * length p.rest + 1 ≤ f
      → Ensures 0 p (after_element f vs p)
  after_element_lem zero vs p h = absurd (omega (arith, h))
  after_element_lem (suc f) vs p h =
      let q : Parser = (consume b']' p).1 in
      let r : Parser = (consume b',' q).1 in
      let s : Parser = (consume b']' r).1 in
      let to_q : Reaches 0 p q = consume-Reaches 92 p in
      elim (Bool-cases (consume b']' p).0) [
        | inl e ↦ rw e to_q
        | inr e ↦ rw e (elim (Bool-cases (consume b',' q).0) [
          | inr e2 ↦ rw e2 (
              then_error (bytes "expected ',' or ']' in array")
                (Reaches-trans to_q (consume-Reaches 43 q)))
          | inl e2 ↦ rw e2 (
              let to_s : Reaches 1 p s =
                Reaches-trans to_q
                  (Reaches-trans (consume-Reaches_one 43 q e2) (consume-Reaches 92 r)) in
              elim (Bool-cases (consume b']' r).0) [
                | inl e3 ↦ rw e3 (Reaches-less 0 to_s (omega arith))
                | inr e3 ↦ rw e3 (
                    then_part 0 0 _ to_s (omega arith)
                      (array_loop_lem f vs s (omega (arith, h, to_s.shorter))))
              ])
        ])
      ]

  object_lem :
      (f : ℕ) (fields : Fields) (p : Parser)
      → 3 * length p.rest + 1 ≤ f
      → Ensures 0 p (object_loop f fields p)
  object_lem zero fields p h = absurd (omega (arith, h))
  object_lem (suc f) fields p h =
      let q : Parser = (consume b'}' p).1 in
      let to_q : Reaches 0 p q = consume-Reaches 124 p in
      elim (Bool-cases (consume b'}' p).0) [
        | inl e ↦ rw e to_q
        | inr e ↦ rw e (elim (Bool-cases (at_end q.rest)) [
          | inl e2 ↦ rw e2 (then_error (bytes "unterminated object") to_q)
          | inr e2 ↦ rw e2 (
              then_part 1 0 _ to_q (omega arith) (
                Ensures-bind 1 0 q (parse_key q) (λ key r. object_field f fields key r)
                  (parse_key-Ensures q e2)
                  (λ key r t.
                    object_field_lem f fields key r (omega (arith, h, to_q.shorter, t.shorter)))))
        ])
      ]

  object_field_lem :
      (f : ℕ) (fields : Fields) (key : List ℕ) (p : Parser)
      → 3 * length p.rest + 1 ≤ f
      → Ensures 0 p (object_field f fields key p)
  object_field_lem zero fields key p h = absurd (omega (arith, h))
  object_field_lem (suc f) fields key p h =
      let q : Parser = (consume b'=' p).1 in
      elim (Bool-cases (consume b'=' p).0) [
        | inr e ↦
            rw e (then_error (bytes "expected '=' after object field name") (consume-Reaches 60 p))
        | inl e ↦ rw e (
            let to_q : Reaches 1 p q = consume-Reaches_one 60 p e in
            then_part 0 0 _ to_q (omega arith) (
              Ensures-bind 0 0 q (parse_value_list f q) (λ v r. object_loop f (add key v fields) r)
                (value_list_lem f q (omega (arith, h, to_q.shorter)))
                (λ v r t.
                  object_lem f (add key v fields) r (omega (arith, h, to_q.shorter, t.shorter)))))
      ]

  value_list_lem :
      (f : ℕ) (p : Parser) → 3 * length p.rest + 3 ≤ f → Ensures 0 p (parse_value_list f p)
  value_list_lem zero p h = absurd (omega (arith, h))
  value_list_lem (suc f) p h = elim (Bool-cases (head p.rest == b',')) [
    | inl e ↦ rw e (list_loop_lem f (Values.cons (Value.text []) Values.nil) p (omega (arith, h)))
    | inr e ↦ rw e (
        Ensures-less 1 0 p _ (omega arith) (
          Ensures-bind 1 0 p (parse_value f p) (λ v q. list_loop f (Values.cons v Values.nil) q)
            (value_lem f p (omega (arith, h)))
            (λ v q t. list_loop_lem f (Values.cons v Values.nil) q (omega (arith, h, t.shorter)))))
  ]

  list_loop_lem :
      (f : ℕ) (vs : Values) (p : Parser)
      → 3 * length p.rest + 1 ≤ f
      → Ensures 0 p (list_loop f vs p)
  list_loop_lem zero vs p h = absurd (omega (arith, h))
  list_loop_lem (suc f) vs p h =
      let q : Parser = (consume b',' p).1 in
      elim (Bool-cases (consume b',' p).0) [
        | inr e ↦ rw e (consume-Reaches 43 p)
        | inl e ↦ rw e (
            let to_q : Reaches 1 p q = consume-Reaches_one 43 p e in
            then_part 1 0 _ to_q (omega arith) (
              Ensures-bind 1 0 q (parse_value f q) (λ v r. list_loop f (push_back v vs) r)
                (value_lem f q (omega (arith, h, to_q.shorter)))
                (λ v r t.
                  list_loop_lem f (push_back v vs) r (omega (arith, h, to_q.shorter, t.shorter)))))
      ]

-- With fuel for the input that is left, parse_value_list has an outcome.
pub parse_value_list-Ensures :
    (f : ℕ) (p : Parser) → 3 * length p.rest + 3 ≤ f → Ensures 0 p (parse_value_list f p)
parse_value_list-Ensures f p h = value_list_lem f p h
