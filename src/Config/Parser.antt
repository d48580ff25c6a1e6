-- ===== src/Config/Parser.antt =====
-- The class Parser of zw-lang/src/config.cpp. Its input is what is left of it from `position_` on.
-- A method that returns an optional takes the parser and gives the value and the parser, or `failed`
-- with the parser that it leaves. The recursion of values takes fuel.
pub mod Reach
pub mod Loops
pub mod Nested
pub mod Places
pub mod Keys
pub mod Total
use zwwm.Common.{
  ℕ, zero, suc, ◌+◌, ◌-◌, ◌*◌, ◌%◌, Bool, true, false, not, ◌&&◌, ◌||◌, Option, none, some, List,
  [], ◌∷◌, ◌++◌, ltb, leb, ◌==◌, if◌then◌else◌, length,
}
use zwwm.Common.Int.{pos, sub_ℕ}
use zwwm.Config.{
  SourceLocation, first_location, DiagnosticLevel, Diagnostic, Value, Values, Fields, Assignment,
  ParseResult, bytes, same_text, add, push_back,
}

pub record Parser : Type 0 where
  pub rest : List ℕ
  pub location : SourceLocation
  pub diagnostics : List Diagnostic

-- The "C" locale's isspace, isdigit and isalpha.
unfoldable pub is_space : ℕ → Bool
is_space c = c == b' ' || leb 9 c && leb c 13

unfoldable pub is_digit : ℕ → Bool
is_digit c = leb b'0' c && leb c b'9'

unfoldable pub is_alpha : ℕ → Bool
is_alpha c = leb b'a' c && leb c b'z' || leb b'A' c && leb c b'Z'

unfoldable pub is_identifier_start : ℕ → Bool
is_identifier_start c = is_alpha c || c == b'_'

unfoldable pub is_identifier_character : ℕ → Bool
is_identifier_character c = is_alpha c || is_digit c || c == b'_' || c == b'-'

-- `peek`: the next character, 0 at the end.
abbrev pub head : List ℕ → ℕ
head [] = 0
head (c ∷ cs) = c

abbrev pub at_end : List ℕ → Bool
at_end [] = true
at_end (c ∷ cs) = false

-- The location behind a character.
abbrev pub walk : ℕ → SourceLocation → SourceLocation
walk c l =
    if c == b'\n'
    then record { line = l.line + 1; column = 1 }
    else record { line = l.line; column = l.column + 1 }

-- `take`: the parser behind the next character, which `peek` gives.
abbrev pub move_to : List ℕ → SourceLocation → Parser → Parser
move_to rest location p = record p { rest = rest; location = location }

unfoldable pub advance_in : List ℕ → Parser → Parser
advance_in [] p = p
advance_in (c ∷ cs) p = move_to cs (walk c p.location) p

unfoldable pub advance : Parser → Parser
unfolding advance_in
advance p = advance_in p.rest p

-- What the loops over single characters leave: the input and where it begins.
pub record Cursor : Type 0 where
  pub rest : List ℕ
  pub location : SourceLocation

abbrev pub at : List ℕ → SourceLocation → Cursor
at rest location = record { rest = rest; location = location }

abbrev pub jump : Cursor → Parser → Parser
jump c p = move_to c.rest c.location p

-- The loop of `skip_ignored`; the flag says that it is in the inner loop, over a comment.
unfoldable pub skip_loop : Bool → List ℕ → SourceLocation → Cursor
skip_loop comment [] l = at [] l
skip_loop true (c ∷ cs) l = skip_loop (not (c == b'\n')) cs (walk c l)
skip_loop false (c ∷ cs) l =
    let more = skip_loop (not (is_space c)) cs (walk c l) in
    if is_space c || c == b'-' && head cs == b'-' then more else at (c ∷ cs) l

unfoldable pub skip_ignored : Parser → Parser
skip_ignored p = jump (skip_loop false p.rest p.location) p

-- `recover`: to behind the next line break.
unfoldable pub recover_loop : List ℕ → SourceLocation → Cursor
recover_loop [] l = at [] l
recover_loop (c ∷ cs) l =
    let more = recover_loop cs (walk c l) in if c == b'\n' then at cs (walk c l) else more

unfoldable pub recover : Parser → Parser
recover p = jump (recover_loop p.rest p.location) p

unfoldable pub consume : ℕ → Parser → Bool × Parser
consume expected p =
    let q = skip_ignored p in
    if head q.rest == expected then (true, skip_ignored (advance q)) else (false, q)

-- The outcome of a method that returns an optional; `undefined` if its behaviour is.
pub data Outcome {ℓ} (A : Type ℓ) : Type ℓ where
  done : A → Parser → Outcome A
  failed : Parser → Outcome A
  undefined : Outcome A
  out_of_fuel : Outcome A

infixl 5 ◌>>=◌
abbrev pub ◌>>=◌ {ℓ κ} :
    {A : Type ℓ} {B : Type κ} → Outcome A → (A → Parser → Outcome B) → Outcome B
Outcome.done a p >>= f = f a p
Outcome.failed p >>= f = Outcome.failed p
Outcome.undefined >>= f = Outcome.undefined
Outcome.out_of_fuel >>= f = Outcome.out_of_fuel

-- `error`, and the return of nothing behind it.
unfoldable pub report : List ℕ → Parser → Parser
report message p = record p {
  diagnostics =
      p.diagnostics
      ++ (record { level = DiagnosticLevel.error; location = p.location; message = message } ∷ []);
}

abbrev pub fail {ℓ} : {A : Type ℓ} → List ℕ → Parser → Outcome A
fail message p = Outcome.failed (report message p)

-- The loop of `parse_identifier`: the characters and what is behind them.
unfoldable pub identifier_loop : List ℕ → SourceLocation → List ℕ × Cursor
identifier_loop [] l = ([], at [] l)
identifier_loop (c ∷ cs) l =
    let more = identifier_loop cs (walk c l) in
    if is_identifier_character c then (c ∷ more.0, more.1) else ([], at (c ∷ cs) l)

unfoldable pub parse_identifier : Parser → Outcome (List ℕ)
parse_identifier p =
    let q = skip_ignored p in
    let read = identifier_loop q.rest q.location in
    if is_identifier_start (head q.rest)
    then Outcome.done read.0 (skip_ignored (jump read.1 q))
    else fail (bytes "expected identifier") q

-- The loop of `parse_string`, up to the closing quote or the end.
unfoldable pub string_loop : List ℕ → SourceLocation → List ℕ × Cursor
string_loop [] l = ([], at [] l)
string_loop (c ∷ []) l =
    if c == b'"'
    then ([], at (c ∷ []) l)
    else if c == b'\\'
    then ([], at [] (walk c l))
    else (c ∷ [], at [] (walk c l))
string_loop (c ∷ d ∷ cs) l =
    let escaped = string_loop cs (walk d (walk c l)) in
    let more = string_loop (d ∷ cs) (walk c l) in
    if c == b'"'
    then ([], at (c ∷ d ∷ cs) l)
    else if c == b'\\'
    then ((if d == b'n' then b'\n' else d) ∷ escaped.0, escaped.1)
    else (c ∷ more.0, more.1)

unfoldable pub parse_string : Parser → Outcome (List ℕ)
parse_string p =
    let q = advance p in
    let read = string_loop q.rest q.location in
    let r = jump read.1 q in
    if at_end r.rest
    then fail (bytes "unterminated string") r
    else Outcome.done read.0 (skip_ignored (advance r))

-- The value of the digits, as an integer without a bound.
unfoldable pub digit_loop : ℕ → List ℕ → SourceLocation → ℕ × Cursor
digit_loop value [] l = (value, at [] l)
digit_loop value (c ∷ cs) l =
    let more = digit_loop (value * 10 + (c - b'0')) cs (walk c l) in
    if is_digit c then more else (value, at (c ∷ cs) l)

abbrev pub int64_limit : ℕ
int64_limit = 9223372036854775808

-- `value` is a `std::int64_t` that never falls, and its overflow is undefined; it is negated at the end.
unfoldable pub parse_integer : Parser → Outcome Value
parse_integer p =
    let negative = head p.rest == b'-' in
    let q = if negative then advance p else p in
    let read = digit_loop 0 q.rest q.location in
    if ltb read.0 int64_limit
    then Outcome.done (Value.integer (if negative then sub_ℕ 0 read.0 else pos read.0))
        (skip_ignored (jump read.1 q))
    else Outcome.undefined

abbrev pub second : List ℕ → ℕ
second [] = 0
second (c ∷ cs) = head cs

abbrev pub starts_integer : List ℕ → Bool
starts_integer cs = is_digit (head cs) || head cs == b'-' && is_digit (second cs)

-- The names that stand for values of their own.
unfoldable pub named_value : List ℕ → Value
named_value name =
    if same_text name (bytes "true")
    then Value.boolean true
    else if same_text name (bytes "false")
    then Value.boolean false
    else if same_text name (bytes "null")
    then Value.null
    else Value.text name

-- A list of one value is that value.
unfoldable pub value_list : Values → Value
value_list (Values.cons v Values.nil) = v
value_list vs = Value.list vs

unfoldable pub parse_key : Parser → Outcome (List ℕ)
parse_key p = if head p.rest == b'"' then parse_string p else parse_identifier p

unfoldable mutual
  pub parse_value : ℕ → Parser → Outcome Value
  parse_value zero p = Outcome.out_of_fuel
  parse_value (suc f) p =
      let q = skip_ignored p in
      let c = head q.rest in
      let string_value = parse_string q >>= λ s. Outcome.done (Value.text s) in
      let variable = parse_identifier (advance q) >>= λ s. Outcome.done (Value.reference s) in
      let in_array = parse_array f q in
      let in_object = object_loop f Fields.end (skip_ignored (advance q)) in
      let name = parse_identifier q >>= λ s. Outcome.done (named_value s) in
      if c == b'"'
      then string_value
      else if c == b'$'
      then variable
      else if c == b'['
      then in_array
      else if c == b'{'
      then in_object
      else if starts_integer q.rest
      then parse_integer q
      else name

  pub parse_array : ℕ → Parser → Outcome Value
  parse_array zero p = Outcome.out_of_fuel
  parse_array (suc f) p =
      let (empty, q) = consume b']' (skip_ignored (advance p)) in
      let more = array_loop f Values.nil q in
      if empty then Outcome.done (Value.array Values.nil) q else more

  pub array_loop : ℕ → Values → Parser → Outcome Value
  array_loop zero vs p = Outcome.out_of_fuel
  array_loop (suc f) vs p = parse_value f p >>= λ v q. after_element f (push_back v vs) q

  -- Behind an element of an array.
  pub after_element : ℕ → Values → Parser → Outcome Value
  after_element zero vs p = Outcome.out_of_fuel
  after_element (suc f) vs p =
      let (closed, q) = consume b']' p in
      let (comma, r) = consume b',' q in
      let (trailing, s) = consume b']' r in
      let more = array_loop f vs s in
      if closed
      then Outcome.done (Value.array vs) q
      else if not comma
      then fail (bytes "expected ',' or ']' in array") r
      else if trailing
      then Outcome.done (Value.array vs) s
      else more

  pub object_loop : ℕ → Fields → Parser → Outcome Value
  object_loop zero fields p = Outcome.out_of_fuel
  object_loop (suc f) fields p =
      let (closed, q) = consume b'}' p in
      let more = parse_key q >>= λ key r. object_field f fields key r in
      if closed
      then Outcome.done (Value.object fields) q
      else if at_end q.rest
      then fail (bytes "unterminated object") q
      else more

  -- Behind the name of a field.
  pub object_field : ℕ → Fields → List ℕ → Parser → Outcome Value
  object_field zero fields key p = Outcome.out_of_fuel
  object_field (suc f) fields key p =
      let (equals, q) = consume b'=' p in
      let more = parse_value_list f q >>= λ v r. object_loop f (add key v fields) r in
      if not equals then fail (bytes "expected '=' after object field name") q else more

  pub parse_value_list : ℕ → Parser → Outcome Value
  parse_value_list zero p = Outcome.out_of_fuel
  parse_value_list (suc f) p =
      let from_empty = list_loop f (Values.cons (Value.text []) Values.nil) p in
      let from_first = parse_value f p >>= λ v q. list_loop f (Values.cons v Values.nil) q in
      if head p.rest == b',' then from_empty else from_first

  pub list_loop : ℕ → Values → Parser → Outcome Value
  list_loop zero vs p = Outcome.out_of_fuel
  list_loop (suc f) vs p =
      let (comma, q) = consume b',' p in
      let more = parse_value f q >>= λ v r. list_loop f (push_back v vs) r in
      if not comma then Outcome.done (value_list vs) q else more

-- The key and the value of an assignment.
unfoldable pub parse_assignment : ℕ → Parser → Outcome (List ℕ × Value)
parse_assignment fuel p = parse_identifier p >>= λ key q.
    (let (equals, r) = consume b'=' q in
      if not equals
      then fail (bytes "expected '=' after assignment name") r
      else parse_value_list fuel r >>= λ v. Outcome.done (key, v))

-- The loop of `parse`.
unfoldable pub parse_loop : ℕ → List Assignment → Parser → Outcome (List Assignment)
parse_loop zero read p = Outcome.out_of_fuel
parse_loop (suc f) read p =
    let more : Outcome (List Assignment) = elim (parse_assignment (3 * length p.rest + 3) p) [
      | Outcome.done (key, v) q ↦
          parse_loop f (read ++ (record { location = p.location; key = key; value = v } ∷ []))
            (skip_ignored q)
      | Outcome.failed q ↦ parse_loop f read (skip_ignored (recover q))
      | Outcome.undefined ↦ Outcome.undefined
      | Outcome.out_of_fuel ↦ Outcome.out_of_fuel
    ] in
    if at_end p.rest then Outcome.done read p else more

abbrev pub start : List ℕ → Parser
start input = record { rest = input; location = first_location; diagnostics = [] }

unfoldable pub parse : List ℕ → Outcome (List Assignment)
parse input = parse_loop (length input + 1) [] (skip_ignored (start input))

-- `parse` returns unless an integer overflows, so its result is one.
unfoldable pub result_of : Outcome (List Assignment) → Option ParseResult
result_of (Outcome.done read p) = some (record { assignments = read; diagnostics = p.diagnostics })
result_of (Outcome.failed p) = none
result_of Outcome.undefined = none
result_of Outcome.out_of_fuel = none

unfoldable pub parse_config : List ℕ → Option ParseResult
parse_config input = result_of (parse input)
