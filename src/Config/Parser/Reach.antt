-- ===== src/Config/Parser/Reach.antt =====
-- How far a method of the parser gets, and what it reports on the way.
use zwwm.Common.{
  ℕ, ◌+◌, ◌-◌, ◌*◌, ◌≤◌, ◌≡◌, refl, sym, ap, ◌∙◌, arith, Bool, true, false, ◌&&◌, ltb,
  if◌then◌else◌, List, [], ◌∷◌, ◌++◌, length, length-append, append_assoc,
}
use zwwm.Config.{SourceLocation, DiagnosticLevel, Diagnostic}
use zwwm.Config.Parser.{Parser, walk, Outcome, ◌>>=◌, report, is_digit, int64_limit}

-- The location behind some characters.
abbrev pub walk_all : List ℕ → SourceLocation → SourceLocation
walk_all [] l = l
walk_all (c ∷ cs) l = walk_all cs (walk c l)

-- From (cs, l) to (ds, m) by characters of the input.
abbrev pub Passes : List ℕ → SourceLocation → List ℕ → SourceLocation → Type 0
Passes cs l ds m = (passed : List ℕ) × (cs ≡ passed ++ ds) × (m ≡ walk_all passed l)

walk_all-append :
    (xs ys : List ℕ) (l : SourceLocation) → walk_all (xs ++ ys) l ≡ walk_all ys (walk_all xs l)
walk_all-append [] ys l = refl
walk_all-append (x ∷ xs) ys l = walk_all-append xs ys (walk x l)

pub Passes-refl : (cs : List ℕ) (l : SourceLocation) → Passes cs l cs l
Passes-refl cs l = ([], refl, refl)

pub Passes-trans :
    {cs ds es : List ℕ} {l m n : SourceLocation}
    → Passes cs l ds m
    → Passes ds m es n
    → Passes cs l es n
Passes-trans {es = es} {l = l} (xs, e, w) (ys, f, v) = (
  xs ++ ys,
  e ∙ ap (λ t. xs ++ t) f ∙ sym (append_assoc xs ys es),
  v ∙ ap (walk_all ys) w ∙ sym (walk_all-append xs ys l),
)

pub Passes-cons :
    {cs ds : List ℕ} {l m : SourceLocation} (c : ℕ)
    → Passes cs (walk c l) ds m
    → Passes (c ∷ cs) l ds m
Passes-cons c (xs, e, w) = (c ∷ xs, ap (λ t. c ∷ t) e, w)

pub Passes-le : {cs ds : List ℕ} {l m : SourceLocation} → Passes cs l ds m → length ds ≤ length cs
Passes-le {ds = ds} (xs, e, w) = omega (arith, ap length e, length-append xs ds)

-- The parser went on by k characters at least, and reported nothing.
pub record Reaches (k : ℕ) (p q : Parser) : Type 0 where
  pub passes : Passes p.rest p.location q.rest q.location
  pub shorter : length q.rest + k ≤ length p.rest
  pub silent : q.diagnostics ≡ p.diagnostics

abbrev pub error_at : SourceLocation → List ℕ → Diagnostic
error_at location message = record {
  level = DiagnosticLevel.error;
  location = location;
  message = message;
}

-- The parser reported one error, at a place that it reached.
pub record Reports (p q : Parser) : Type 0 where
  pub passes : Passes p.rest p.location q.rest q.location
  pub message : List ℕ
  pub told : q.diagnostics ≡ p.diagnostics ++ (error_at q.location message ∷ [])

-- The number that the digits at the beginning of the characters make, behind one that was read.
unfoldable pub leading_number : ℕ → List ℕ → ℕ
leading_number value [] = value
leading_number value (c ∷ cs) =
    let more = leading_number (value * 10 + (c - b'0')) cs in if is_digit c then more else value

-- No digits in the input make a number of 2 ^ 63 or more.
unfoldable pub small_numbers : List ℕ → Bool
small_numbers [] = true
small_numbers (c ∷ cs) = ltb (leading_number 0 (c ∷ cs)) int64_limit && small_numbers cs

pub not_small :
    (cs : List ℕ) → ltb (leading_number 0 cs) int64_limit ≡ false → small_numbers cs ≡ false
unfolding small_numbers leading_number
not_small [] h = cc
not_small (c ∷ cs) h = rw h refl

small-cons : (c : ℕ) (cs : List ℕ) → small_numbers cs ≡ false → small_numbers (c ∷ cs) ≡ false
unfolding small_numbers
small-cons c cs h = rw h (and-false (ltb (leading_number 0 (c ∷ cs)) int64_limit))
  where
    and-false : (b : Bool) → (b && false) ≡ false
    and-false true = refl
    and-false false = refl

pub Passes-small :
    {cs ds : List ℕ} {l m : SourceLocation}
    → Passes cs l ds m
    → small_numbers ds ≡ false
    → small_numbers cs ≡ false
Passes-small {ds = ds} (passed, e, w) h = ap small_numbers e ∙ behind passed
  where
    behind : (passed : List ℕ) → small_numbers (passed ++ ds) ≡ false
    behind [] = h
    behind (c ∷ passed) = small-cons c (passed ++ ds) (behind passed)

-- What a method ensures: a value, k characters on and nothing reported, or no value and one error;
-- the behaviour is undefined only at a number of 2 ^ 63 or more; the fuel was enough.
abbrev pub Ensures {ℓ} : {A : Type ℓ} → ℕ → Parser → Outcome A → Type 0
Ensures k p (Outcome.done a q) = Reaches k p q
Ensures k p (Outcome.failed q) = Reports p q
Ensures k p Outcome.undefined = small_numbers p.rest ≡ false
Ensures k p Outcome.out_of_fuel = ⊥

pub Reaches-refl : (p : Parser) → Reaches 0 p p
Reaches-refl p = record {
  passes = Passes-refl p.rest p.location;
  shorter = omega arith;
  silent = refl;
}

pub Reaches-trans : {i j : ℕ} {p q r : Parser} → Reaches i p q → Reaches j q r → Reaches (i + j) p r
Reaches-trans {i} {j} {p} {q} {r} h k = record {
  passes = Passes-trans h.passes k.passes;
  shorter = omega (arith, h.shorter, k.shorter);
  silent = k.silent ∙ h.silent;
}

pub Reaches-less : (j : ℕ) {i : ℕ} {p q : Parser} → Reaches i p q → j ≤ i → Reaches j p q
Reaches-less j h le = record {
  passes = h.passes;
  shorter = omega (arith, h.shorter, le);
  silent = h.silent;
}

pub Reaches-Reports : {i : ℕ} {p q r : Parser} → Reaches i p q → Reports q r → Reports p r
Reaches-Reports {r = r} h k = record {
  passes = Passes-trans h.passes k.passes;
  message = k.message;
  told = k.told ∙ ap (λ ds. ds ++ (error_at r.location k.message ∷ [])) h.silent;
}

pub report-Reports : (message : List ℕ) (p : Parser) → Reports p (report message p)
unfolding report
report-Reports message p = record {
  passes = Passes-refl p.rest p.location;
  message = message;
  told = refl;
}

-- What is ensured from q on is ensured from p on.
pub Reaches-Ensures {ℓ} :
    {A : Type ℓ} {i : ℕ} {p q : Parser} (j : ℕ) (m : Outcome A)
    → Reaches i p q
    → Ensures j q m
    → Ensures (i + j) p m
Reaches-Ensures j (Outcome.done a r) h k = Reaches-trans h k
Reaches-Ensures j (Outcome.failed r) h k = Reaches-Reports h k
Reaches-Ensures j Outcome.undefined h k = Passes-small h.passes k
Reaches-Ensures j Outcome.out_of_fuel h k = k

pub Ensures-less {ℓ} :
    {A : Type ℓ} (i j : ℕ) (p : Parser) (m : Outcome A) → j ≤ i → Ensures i p m → Ensures j p m
Ensures-less i j p (Outcome.done a r) le h = Reaches-less j h le
Ensures-less i j p (Outcome.failed r) le h = h
Ensures-less i j p Outcome.undefined le h = h
Ensures-less i j p Outcome.out_of_fuel le h = h

-- A step and what follows it, from where it got to.
pub Ensures-bind {ℓ κ} :
    {A : Type ℓ} {B : Type κ} (i j : ℕ) (p : Parser) (m : Outcome A) (f : A → Parser → Outcome B)
    → Ensures i p m
    → ((a : A) (q : Parser) → Reaches i p q → Ensures j q (f a q))
    → Ensures (i + j) p (m >>= f)
Ensures-bind i j p (Outcome.done a q) f h k = Reaches-Ensures j (f a q) h (k a q h)
Ensures-bind i j p (Outcome.failed q) f h k = h
Ensures-bind i j p Outcome.undefined f h k = h
Ensures-bind i j p Outcome.out_of_fuel f h k = h
