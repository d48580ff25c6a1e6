-- ===== src/Config/Environment.antt =====
-- expand_environment and import_path of zw-lang/src/config.cpp: the paths that imports name.
use zwwm.Common.{
  ℕ, zero, suc, ◌+◌, ◌≤◌, ◌<◌, ◌≡◌, refl, arith, Bool, not, ◌||◌, Option, none, some, List, [], ◌∷◌,
  ◌++◌, length, ◌==◌, if◌then◌else◌, Bool-cases, Option-cases, inl, inr,
}
use zwwm.Config.{Value, bytes}
use zwwm.Config.Parser.{is_alpha, is_digit}

-- A path, or the text of an error.
pub data ImportPath : Type 0 where
  found : List ℕ → ImportPath
  refused : List ℕ → ImportPath
  out_of_fuel : ImportPath

-- What stands behind a `$`: a brace that is not closed or is empty, no name, or a name; with what
-- is left of the value.
pub data Marker : Type 0 where
  invalid : Marker
  plain : List ℕ → Marker
  named : List ℕ → List ℕ → Marker

-- `find('}')`: the characters before it and those behind it.
unfoldable pub until_brace : List ℕ → Option (List ℕ × List ℕ)
until_brace [] = none
until_brace (c ∷ cs) =
    let later : Option (List ℕ × List ℕ) = elim (until_brace cs) [
      | none ↦ none
      | some (name, rest) ↦ some (c ∷ name, rest)
    ] in
    if c == b'}' then some ([], cs) else later

unfoldable pub is_name_character : ℕ → Bool
is_name_character c = is_alpha c || is_digit c || c == b'_'

unfoldable pub name_part : List ℕ → List ℕ × List ℕ
name_part [] = ([], [])
name_part (c ∷ cs) =
    let (name, rest) = name_part cs in
    if is_name_character c then (c ∷ name, rest) else ([], c ∷ cs)

abbrev pub braced : Option (List ℕ × List ℕ) → Marker
braced none = Marker.invalid
braced (some ([], rest)) = Marker.invalid
braced (some (c ∷ name, rest)) = Marker.named (c ∷ name) rest

abbrev pub bare : List ℕ × List ℕ → Marker
bare ([], rest) = Marker.plain rest
bare (c ∷ name, rest) = Marker.named (c ∷ name) rest

unfoldable pub marker : List ℕ → Marker
marker [] = Marker.plain []
marker (c ∷ cs) = if c == b'{' then braced (until_brace cs) else bare (name_part (c ∷ cs))

abbrev pub undefined : List ℕ → List ℕ
undefined name = bytes "undefined environment variable $" ++ (name ++ bytes " in import path")

abbrev pub variable_path : List ℕ → Option (List ℕ) → ImportPath
variable_path name none = ImportPath.refused (undefined name)
variable_path name (some environment) = ImportPath.found environment

-- The values of environment variables are a parameter.
module _ (getenv : List ℕ → Option (List ℕ)) where
  -- The loop, with the characters that are left and the expanded ones.
  unfoldable pub expand_loop : ℕ → List ℕ → List ℕ → ImportPath
  expand_loop zero value expanded = ImportPath.out_of_fuel
  expand_loop (suc f) [] expanded = ImportPath.found expanded
  expand_loop (suc f) (c ∷ cs) expanded =
      let next = expand_loop f cs (expanded ++ (c ∷ [])) in
      let variable : ImportPath = elim (marker cs) [
        | Marker.invalid ↦ ImportPath.refused (bytes "invalid environment variable in import path")
        | Marker.plain rest ↦ expand_loop f rest (expanded ++ (c ∷ []))
        | Marker.named name rest ↦ elim (getenv name) [
          | none ↦ ImportPath.refused (undefined name)
          | some environment ↦ expand_loop f rest (expanded ++ environment)
        ]
      ] in
      if not (c == b'$') then next else variable

  unfoldable pub expand_environment : List ℕ → ImportPath
  expand_environment value = expand_loop (length value + 1) value []

  unfoldable pub import_path : Value → ImportPath
  import_path (Value.text s) = expand_environment s
  import_path (Value.reference name) = variable_path name (getenv name)
  import_path v =
      ImportPath.refused (bytes "import paths must be strings or environment variable references")

-- What is left behind a `$` is not longer than what stood there.
abbrev pub Shorter : ℕ → Marker → Type 0
Shorter n Marker.invalid = Unit
Shorter n (Marker.plain rest) = length rest ≤ n
Shorter n (Marker.named name rest) = length rest ≤ n

Shorter-braced :
    (n : ℕ) (o : Option (List ℕ × List ℕ))
    → ((name rest : List ℕ) → o ≡ some (name, rest) → length rest ≤ n)
    → Shorter n (braced o)
Shorter-braced n none h = tt
Shorter-braced n (some ([], rest)) h = tt
Shorter-braced n (some (c ∷ name, rest)) h = h (c ∷ name) rest refl

until_brace-le :
    (cs name rest : List ℕ) → until_brace cs ≡ some (name, rest) → length rest ≤ length cs
unfolding until_brace
until_brace-le [] name rest h = cc
until_brace-le (c ∷ cs) name rest h = elim (Bool-cases (c == b'}')) [
  | inl e ↦ ground arith
  | inr e ↦ elim (Option-cases (until_brace cs)) [
    | inl missing ↦ ground arith
    | inr ((before, behind), there) ↦ ground (arith, until_brace-le cs before behind there)
  ]
]

name_part-le : (cs : List ℕ) → length (name_part cs).1 ≤ length cs
unfolding name_part
name_part-le [] = omega arith
name_part-le (c ∷ cs) = ground (arith, name_part-le cs)

Shorter-bare : (n : ℕ) (p : List ℕ × List ℕ) → length p.1 ≤ n → Shorter n (bare p)
Shorter-bare n ([], rest) h = h
Shorter-bare n (c ∷ name, rest) h = h

marker-Shorter : (cs : List ℕ) → Shorter (length cs) (marker cs)
unfolding marker
marker-Shorter [] = omega arith
marker-Shorter (c ∷ cs) = elim (Bool-cases (c == b'{')) [
  | inl e ↦ rw e (
      Shorter-braced (suc (length cs)) (until_brace cs)
        (λ name rest k. omega (arith, until_brace-le cs name rest k)))
  | inr e ↦ rw e (Shorter-bare (suc (length cs)) (name_part (c ∷ cs)) (name_part-le (c ∷ cs)))
]

-- A path or an error.
abbrev pub Answers : ImportPath → Type 0
Answers (ImportPath.found s) = Unit
Answers (ImportPath.refused s) = Unit
Answers ImportPath.out_of_fuel = ⊥

variable_path-Answers : (name : List ℕ) (o : Option (List ℕ)) → Answers (variable_path name o)
variable_path-Answers name none = tt
variable_path-Answers name (some environment) = tt

module _ (getenv : List ℕ → Option (List ℕ)) where
  next-Answers :
      (f n : ℕ) (c : ℕ) (expanded : List ℕ) (m : Marker)
      → Shorter n m
      → ((rest more : List ℕ) → length rest ≤ n → Answers (expand_loop getenv f rest more))
      → Answers (elim m as (λ x. ImportPath) [
        | Marker.invalid ↦ ImportPath.refused (bytes "invalid environment variable in import path")
        | Marker.plain rest ↦ expand_loop getenv f rest (expanded ++ (c ∷ []))
        | Marker.named name rest ↦ elim (getenv name) [
          | none ↦ ImportPath.refused (undefined name)
          | some environment ↦ expand_loop getenv f rest (expanded ++ environment)
        ]
      ])
  next-Answers f n c expanded Marker.invalid h k = tt
  next-Answers f n c expanded (Marker.plain rest) h k = k rest (expanded ++ (c ∷ [])) h
  next-Answers f n c expanded (Marker.named name rest) h k = elim (Option-cases (getenv name)) [
    | inl e ↦ rw e tt
    | inr (environment, e) ↦ rw e (k rest (expanded ++ environment) h)
  ]

  expand_loop-Answers :
      (f : ℕ) (value expanded : List ℕ)
      → length value < f
      → Answers (expand_loop getenv f value expanded)
  unfolding expand_loop
  expand_loop-Answers zero value expanded h = elim h [ ]
  expand_loop-Answers (suc f) [] expanded h = tt
  expand_loop-Answers (suc f) (c ∷ cs) expanded h = elim (Bool-cases (c == b'$')) [
    | inr e ↦ rw e (expand_loop-Answers f cs (expanded ++ (c ∷ [])) (omega (arith, h)))
    | inl e ↦ rw e (
        next-Answers f (length cs) c expanded (marker cs) (marker-Shorter cs)
          (λ rest more le. expand_loop-Answers f rest more (omega (arith, h, le))))
  ]

  pub import_path-Answers : (v : Value) → Answers (import_path getenv v)
  unfolding import_path expand_environment
  import_path-Answers Value.null = tt
  import_path-Answers (Value.text s) = expand_loop-Answers (length s + 1) s [] (omega arith)
  import_path-Answers (Value.boolean b) = tt
  import_path-Answers (Value.integer i) = tt
  import_path-Answers (Value.reference name) = variable_path-Answers name (getenv name)
  import_path-Answers (Value.array vs) = tt
  import_path-Answers (Value.list vs) = tt
  import_path-Answers (Value.object fs) = tt
