-- ===== src/Config/Checks/Ranges.antt =====
-- What checks without an error say of the fields.
use zwwm.Common.{
  ℕ, ◌≡◌, refl, arith, Bool, true, false, not, ◌||◌, Option, none, some, List, [], ◌∷◌, ◌++◌,
}
use zwwm.Common.Int.{ℤ, ◌≤ℤ◌}
use zwwm.Config.{SourceLocation, Diagnostic, Value, Fields, same_text, lookup_field, has_errors}
use zwwm.Config.Checks.{check, check_field, is_integer_in}

pub has_errors-append :
    (xs ys : List Diagnostic) → has_errors (xs ++ ys) ≡ (has_errors xs || has_errors ys)
unfolding has_errors
has_errors-append [] ys = refl
has_errors-append (x ∷ xs) ys = ground (arith, has_errors-append xs ys)

-- The parts of a list of diagnostics without errors.
pub first_part : (xs ys : List Diagnostic) → has_errors (xs ++ ys) ≡ false → has_errors xs ≡ false
first_part xs ys h = ground (arith, has_errors-append xs ys)

pub second_part : (xs ys : List Diagnostic) → has_errors (xs ++ ys) ≡ false → has_errors ys ≡ false
second_part xs ys h = ground (arith, has_errors-append xs ys)

pub has_errors-check :
    (b : Bool) (l : SourceLocation) (message : List ℕ) → has_errors (check b l message) ≡ not b
unfolding has_errors check
has_errors-check true l message = refl
has_errors-check false l message = refl

pub same_text_lem : (s t : List ℕ) → same_text s t ≡ true → s ≡ t
unfolding same_text
same_text_lem [] [] h = refl
same_text_lem [] (d ∷ t) h = cc
same_text_lem (c ∷ s) [] h = cc
same_text_lem (c ∷ s) (d ∷ t) h = ground (arith, same_text_lem s t)

pub same_text_self : (s : List ℕ) → same_text s s ≡ true
unfolding same_text
same_text_self [] = refl
same_text_self (c ∷ s) = ground (arith, same_text_self s)

-- The field, if it is there, has the property.
abbrev pub FieldIs : (Value → Type 0) → Option Value → Type 0
FieldIs P none = Unit
FieldIs P (some v) = P v

-- An integer from one bound to the other.
abbrev pub IntegerIn : ℤ → ℤ → Value → Type 0
IntegerIn minimum maximum v = (n : ℤ) × (v ≡ Value.integer n) × (minimum ≤ℤ n) × (n ≤ℤ maximum)

FieldIs-check :
    (o : Option Value) (test : Value → Bool) (l : SourceLocation) (message : List ℕ)
    → has_errors
        (elim o as (λ x. List Diagnostic) [ none ↦ [] | some v ↦ check (test v) l message ])
      ≡ false
    → FieldIs (λ v. test v ≡ true) o
FieldIs-check none test l message h = tt
FieldIs-check (some v) test l message h = ground (arith, has_errors-check (test v) l message)

pub check_field-FieldIs :
    (fs : Fields) (name : List ℕ) (test : Value → Bool) (l : SourceLocation) (message : List ℕ)
    → has_errors (check_field fs name test l message) ≡ false
    → FieldIs (λ v. test v ≡ true) (lookup_field name fs)
unfolding check_field
check_field-FieldIs fs name test l message h = FieldIs-check (lookup_field name fs) test l message h

is_integer_in-IntegerIn :
    (minimum maximum : ℤ) (v : Value)
    → is_integer_in minimum maximum v ≡ true
    → IntegerIn minimum maximum v
unfolding is_integer_in
is_integer_in-IntegerIn a b (Value.integer n) h = (n, refl, ground arith, ground arith)
is_integer_in-IntegerIn a b Value.null h = cc
is_integer_in-IntegerIn a b (Value.text s) h = cc
is_integer_in-IntegerIn a b (Value.boolean s) h = cc
is_integer_in-IntegerIn a b (Value.reference s) h = cc
is_integer_in-IntegerIn a b (Value.array s) h = cc
is_integer_in-IntegerIn a b (Value.list s) h = cc
is_integer_in-IntegerIn a b (Value.object s) h = cc

pub FieldIs-map :
    {P Q : Value → Type 0} (o : Option Value)
    → ((v : Value) → P v → Q v)
    → FieldIs P o
    → FieldIs Q o
FieldIs-map none f h = tt
FieldIs-map (some v) f h = f v h

-- A field that passed a check of its range.
pub check_field-IntegerIn :
    (fs : Fields) (name : List ℕ) (a b : ℤ) (l : SourceLocation) (message : List ℕ)
    → has_errors (check_field fs name (is_integer_in a b) l message) ≡ false
    → FieldIs (IntegerIn a b) (lookup_field name fs)
check_field-IntegerIn fs name a b l message h =
    FieldIs-map (lookup_field name fs) (λ v. is_integer_in-IntegerIn a b v)
      (check_field-FieldIs fs name (is_integer_in a b) l message h)
