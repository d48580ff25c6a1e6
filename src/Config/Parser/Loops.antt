-- ===== src/Config/Parser/Loops.antt =====
-- The loops over characters, and the methods without recursion.
use zwwm.Common.{
  ℕ, suc, ◌+◌, ◌-◌, ◌*◌, ◌≤◌, ◌≡◌, refl, sym, ap, ◌∙◌, ltb, arith, Bool, true, false, not, ◌&&◌,
  ◌||◌, List, [], ◌∷◌, ◌==◌, if◌then◌else◌, length, Bool-cases, inl, inr,
}
use zwwm.Common.Int.{pos, sub_ℕ}
use zwwm.Config.{SourceLocation, Value, bytes}
use zwwm.Config.Parser.{
  Parser, Outcome, Cursor, walk, head, at_end, at, jump, advance_in, advance, skip_loop,
  skip_ignored, recover_loop, recover, consume, is_space, is_digit, is_alpha, is_identifier_start,
  is_identifier_character, identifier_loop, parse_identifier, string_loop, parse_string, digit_loop,
  int64_limit, parse_integer, starts_integer, second, parse_key,
}
use zwwm.Config.Parser.Reach.{
  Passes, Passes-refl, Passes-cons, Passes-le, Reaches, Ensures, Reaches-trans, Reaches-less,
  Reaches-Reports, Reaches-Ensures, Ensures-less, report-Reports, leading_number, not_small,
}

-- A cursor that a loop leaves lies behind the place where the loop began.
abbrev Stops : List ℕ → SourceLocation → Cursor → Type 0
Stops cs l c = Passes cs l c.rest c.location

skip_loop-Stops :
    (comment : Bool) (cs : List ℕ) (l : SourceLocation) → Stops cs l (skip_loop comment cs l)
unfolding skip_loop
skip_loop-Stops comment [] l = Passes-refl [] l
skip_loop-Stops true (c ∷ cs) l = Passes-cons c (skip_loop-Stops (not (c == b'\n')) cs (walk c l))
skip_loop-Stops false (c ∷ cs) l = elim (Bool-cases (is_space c || c == b'-' && head cs == b'-')) [
  | inl e ↦ rw e (Passes-cons c (skip_loop-Stops (not (is_space c)) cs (walk c l)))
  | inr e ↦ rw e (Passes-refl (c ∷ cs) l)
]

recover_loop-Stops : (cs : List ℕ) (l : SourceLocation) → Stops cs l (recover_loop cs l)
unfolding recover_loop
recover_loop-Stops [] l = Passes-refl [] l
recover_loop-Stops (c ∷ cs) l =
    either (c == b'\n') (Passes-cons c (Passes-refl cs (walk c l)))
      (Passes-cons c (recover_loop-Stops cs (walk c l)))
  where
    either :
        (b : Bool) {x y : Cursor}
        → Stops (c ∷ cs) l x
        → Stops (c ∷ cs) l y
        → Stops (c ∷ cs) l (if b then x else y)
    either true h k = h
    either false h k = k

identifier_loop-Stops : (cs : List ℕ) (l : SourceLocation) → Stops cs l (identifier_loop cs l).1
unfolding identifier_loop
identifier_loop-Stops [] l = Passes-refl [] l
identifier_loop-Stops (c ∷ cs) l = elim (Bool-cases (is_identifier_character c)) [
  | inl e ↦ rw e (Passes-cons c (identifier_loop-Stops cs (walk c l)))
  | inr e ↦ rw e (Passes-refl (c ∷ cs) l)
]

digit_loop-Stops :
    (value : ℕ) (cs : List ℕ) (l : SourceLocation) → Stops cs l (digit_loop value cs l).1
unfolding digit_loop
digit_loop-Stops value [] l = Passes-refl [] l
digit_loop-Stops value (c ∷ cs) l = elim (Bool-cases (is_digit c)) [
  | inl e ↦ rw e (Passes-cons c (digit_loop-Stops (value * 10 + (c - b'0')) cs (walk c l)))
  | inr e ↦ rw e (Passes-refl (c ∷ cs) l)
]

string_loop-Stops : (cs : List ℕ) (l : SourceLocation) → Stops cs l (string_loop cs l).1
unfolding string_loop
string_loop-Stops [] l = Passes-refl [] l
string_loop-Stops (c ∷ []) l = elim (Bool-cases (c == b'"')) [
  | inl e ↦ rw e (Passes-refl (c ∷ []) l)
  | inr e ↦ rw e (elim (Bool-cases (c == b'\\')) [
    | inl f ↦ rw f (Passes-cons c (Passes-refl [] _))
    | inr f ↦ rw f (Passes-cons c (Passes-refl [] _))
  ])
]
string_loop-Stops (c ∷ d ∷ cs) l = elim (Bool-cases (c == b'"')) [
  | inl e ↦ rw e (Passes-refl (c ∷ d ∷ cs) l)
  | inr e ↦ rw e (elim (Bool-cases (c == b'\\')) [
    | inl f ↦ rw f (Passes-cons c (Passes-cons d (string_loop-Stops cs (walk d (walk c l)))))
    | inr f ↦ rw f (Passes-cons c (string_loop-Stops (d ∷ cs) (walk c l)))
  ])
]

jump-Reaches : (p : Parser) (c : Cursor) → Stops p.rest p.location c → Reaches 0 p (jump c p)
jump-Reaches p c h = record { passes = h; shorter = omega (arith, Passes-le h); silent = refl }

pub skip_ignored-Reaches : (p : Parser) → Reaches 0 p (skip_ignored p)
unfolding skip_ignored
skip_ignored-Reaches p = jump-Reaches p _ (skip_loop-Stops false p.rest p.location)

pub recover-Reaches : (p : Parser) → Reaches 0 p (recover p)
unfolding recover
recover-Reaches p = jump-Reaches p _ (recover_loop-Stops p.rest p.location)

-- One character on, if there is one.
advance_in-Reaches :
    (cs : List ℕ) (p : Parser) → p.rest ≡ cs → at_end cs ≡ false → Reaches 1 p (advance_in cs p)
unfolding advance_in
advance_in-Reaches [] p e h = cc
advance_in-Reaches (c ∷ cs) p e h =
    rw e
      (record { passes = Passes-cons c (Passes-refl cs _); shorter = omega arith; silent = refl })

pub advance-Reaches : (p : Parser) → at_end p.rest ≡ false → Reaches 1 p (advance p)
unfolding advance
advance-Reaches p h = advance_in-Reaches p.rest p refl h

pub not_at_end : (cs : List ℕ) (c : ℕ) → head cs ≡ suc c → at_end cs ≡ false
not_at_end [] c h = ground arith
not_at_end (d ∷ cs) c h = refl

-- The skips around one character.
consumed :
    (c : ℕ) (p : Parser)
    → head (skip_ignored p).rest ≡ suc c
    → Reaches 1 p (skip_ignored (advance (skip_ignored p)))
consumed c p h = Reaches-trans (skip_ignored-Reaches p) (
    Reaches-trans (advance-Reaches (skip_ignored p) (not_at_end (skip_ignored p).rest c h))
      (skip_ignored-Reaches (advance (skip_ignored p))))

-- `consume` of a character moves over it, if it is there.
pub consume-Reaches : (c : ℕ) (p : Parser) → Reaches 0 p (consume (suc c) p).1
unfolding consume
consume-Reaches c p = elim (Bool-cases (head (skip_ignored p).rest == suc c)) [
  | inr e ↦ rw e (skip_ignored-Reaches p)
  | inl e ↦ rw e (Reaches-less 0 (consumed c p (ground arith)) (omega arith))
]

pub consume-Reaches_one :
    (c : ℕ) (p : Parser) → (consume (suc c) p).0 ≡ true → Reaches 1 p (consume (suc c) p).1
unfolding consume
consume-Reaches_one c p h = elim (Bool-cases (head (skip_ignored p).rest == suc c)) [
  | inr e ↦ absurd (ground (arith, e))
  | inl e ↦ rw e (consumed c p (ground arith))
]

start-character : (c : ℕ) → is_identifier_start c ≡ true → is_identifier_character c ≡ true
unfolding is_identifier_start is_identifier_character
start-character c h = ground arith

start-not_at_end : (cs : List ℕ) → is_identifier_start (head cs) ≡ true → at_end cs ≡ false
unfolding is_identifier_start is_alpha
start-not_at_end [] h = ground (arith, h)
start-not_at_end (c ∷ cs) h = refl

-- An identifier has its first character at least.
identifier_loop-shorter :
    (cs : List ℕ) (l : SourceLocation)
    → is_identifier_start (head cs) ≡ true
    → length (identifier_loop cs l).1.rest + 1 ≤ length cs
unfolding identifier_loop
identifier_loop-shorter [] l h = absurd (ground (arith, start-not_at_end [] h))
identifier_loop-shorter (c ∷ cs) l h =
    rw (start-character c h) (omega (arith, Passes-le (identifier_loop-Stops cs (walk c l))))

pub parse_identifier-Ensures : (p : Parser) → Ensures 1 p (parse_identifier p)
unfolding parse_identifier
parse_identifier-Ensures p =
    let q : Parser = skip_ignored p in
    let reached : Reaches 0 p q = skip_ignored-Reaches p in
    let r : Parser = jump (identifier_loop q.rest q.location).1 q in
    elim (Bool-cases (is_identifier_start (head q.rest))) [
      | inl e ↦ rw e (
          Reaches-trans reached (
            Reaches-trans
              (let name : Reaches 1 q r = record {
                passes = identifier_loop-Stops q.rest q.location;
                shorter = identifier_loop-shorter q.rest q.location e;
                silent = refl;
              } in
                name)
              (skip_ignored-Reaches r)))
      | inr e ↦ rw e (Reaches-Reports reached (report-Reports (bytes "expected identifier") q))
    ]

-- At a character that is there.
pub parse_string-Ensures : (p : Parser) → at_end p.rest ≡ false → Ensures 1 p (parse_string p)
unfolding parse_string
parse_string-Ensures p h =
    let q : Parser = advance p in
    let r : Parser = jump (string_loop q.rest q.location).1 q in
    let reached : Reaches 1 p r =
      Reaches-trans (advance-Reaches p h)
        (jump-Reaches q (string_loop q.rest q.location).1 (string_loop-Stops q.rest q.location)) in
    elim (Bool-cases (at_end r.rest)) [
      | inl e ↦ rw e (Reaches-Reports reached (report-Reports (bytes "unterminated string") r))
      | inr e ↦ rw e (
          Reaches-less 1
            (Reaches-trans reached
              (Reaches-trans (advance-Reaches r e) (skip_ignored-Reaches (advance r))))
            (omega arith))
    ]

-- An integer has a digit at least, behind a sign or not.
digit_loop-shorter :
    (value : ℕ) (cs : List ℕ) (l : SourceLocation)
    → is_digit (head cs) ≡ true
    → length (digit_loop value cs l).1.rest + 1 ≤ length cs
unfolding digit_loop is_digit
digit_loop-shorter value [] l h = absurd (ground arith)
digit_loop-shorter value (c ∷ cs) l h =
    rw h (omega (arith, Passes-le (digit_loop-Stops (value * 10 + (c - b'0')) cs (walk c l))))

advance_in-second :
    (cs : List ℕ) (p : Parser) → p.rest ≡ cs → head (advance_in cs p).rest ≡ second cs
unfolding advance_in
advance_in-second [] p e = rw e
advance_in-second (c ∷ cs) p e = refl

starts-not_at_end : (cs : List ℕ) → starts_integer cs ≡ true → at_end cs ≡ false
unfolding is_digit
starts-not_at_end [] h = ground (arith, h)
starts-not_at_end (c ∷ cs) h = refl

digit_loop-leading_number :
    (value : ℕ) (cs : List ℕ) (l : SourceLocation)
    → (digit_loop value cs l).0 ≡ leading_number value cs
unfolding digit_loop leading_number
digit_loop-leading_number value [] l = refl
digit_loop-leading_number value (c ∷ cs) l = elim (Bool-cases (is_digit c)) [
  | inl e ↦ rw e (digit_loop-leading_number (value * 10 + (c - b'0')) cs (walk c l))
  | inr e ↦ rw e refl
]

-- An integer at the parser's place, behind its sign.
digits-Ensures :
    (q : Parser) (number : ℕ → Value)
    → is_digit (head q.rest) ≡ true
    → Ensures 1 q (
        let read = digit_loop 0 q.rest q.location in
        if ltb read.0 int64_limit
        then Outcome.done (number read.0) (skip_ignored (jump read.1 q))
        else Outcome.undefined)
digits-Ensures q number h = elim (Bool-cases (ltb (digit_loop 0 q.rest q.location).0 int64_limit)) [
  | inl e ↦ rw e (
      let r : Parser = jump (digit_loop 0 q.rest q.location).1 q in
      let digits : Reaches 1 q r = record {
        passes = digit_loop-Stops 0 q.rest q.location;
        shorter = digit_loop-shorter 0 q.rest q.location h;
        silent = refl;
      } in
      Reaches-trans digits (skip_ignored-Reaches r))
  | inr e ↦ rw e (
      not_small q.rest
        (ap (λ n. ltb n int64_limit) (sym (digit_loop-leading_number 0 q.rest q.location)) ∙ e))
]

behind_sign :
    (p : Parser)
    → starts_integer p.rest ≡ true
    → (head p.rest == b'-') ≡ true
    → is_digit (head (advance p).rest) ≡ true
unfolding advance is_digit
behind_sign p h e = ground (arith, advance_in-second p.rest p refl)

pub parse_integer-Ensures :
    (p : Parser) → starts_integer p.rest ≡ true → Ensures 1 p (parse_integer p)
unfolding parse_integer
parse_integer-Ensures p h = elim (Bool-cases (head p.rest == b'-')) [
  | inl e ↦ rw e (
      Ensures-less 2 1 p _ (omega arith) (
        Reaches-Ensures 1 _ (advance-Reaches p (starts-not_at_end p.rest h))
          (digits-Ensures (advance p) (λ n. Value.integer (sub_ℕ 0 n)) (behind_sign p h e))))
  | inr e ↦ rw e (digits-Ensures p (λ n. Value.integer (pos n)) (ground arith))
]

-- At a character that is there.
pub parse_key-Ensures : (p : Parser) → at_end p.rest ≡ false → Ensures 1 p (parse_key p)
unfolding parse_key
parse_key-Ensures p h = elim (Bool-cases (head p.rest == b'"')) [
  | inl e ↦ rw e (parse_string-Ensures p h)
  | inr e ↦ rw e (parse_identifier-Ensures p)
]

shorter :
    (cs : List ℕ) (l : SourceLocation)
    → at_end cs ≡ false
    → length (recover_loop cs l).rest + 1 ≤ length cs
unfolding recover_loop
shorter [] l h = cc
shorter (c ∷ cs) l h =
    either (c == b'\n') (at cs (walk c l)) (recover_loop cs (walk c l)) (omega arith)
      (omega (arith, Passes-le (recover_loop-Stops cs (walk c l))))
  where
    either :
        (b : Bool) (x y : Cursor)
        → length x.rest + 1 ≤ suc (length cs)
        → length y.rest + 1 ≤ suc (length cs)
        → length (if b then x else y).rest + 1 ≤ suc (length cs)
    either true x y h k = h
    either false x y h k = k

-- `recover` moves on, if there is something left.
pub recover-shorter :
    (p : Parser) → at_end p.rest ≡ false → length (recover p).rest + 1 ≤ length p.rest
unfolding recover
recover-shorter p h = shorter p.rest p.location h
