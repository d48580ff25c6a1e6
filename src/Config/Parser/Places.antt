-- ===== src/Config/Parser/Places.antt =====
-- Locations of zw-lang/src/config.cpp as lines and columns of the input.
use zwwm.Common.{
  ℕ, suc, ◌+◌, ◌≡◌, refl, ap, ◌∙◌, arith, false, ◌||◌, List, [], ◌∷◌, ◌++◌, ltb, ◌==◌,
  if◌then◌else◌, length, Bool-cases, inl, inr,
}
use zwwm.Config.{SourceLocation, first_location}
use zwwm.Config.Parser.Reach.{walk_all, Passes}

-- The line breaks among some characters.
abbrev pub line_breaks : List ℕ → ℕ
line_breaks [] = 0
line_breaks (c ∷ cs) = if c == b'\n' then suc (line_breaks cs) else line_breaks cs

-- The characters behind the last line break, or all if there is none.
abbrev pub last_line : List ℕ → List ℕ
last_line [] = []
last_line (c ∷ cs) = if c == b'\n' || ltb 0 (line_breaks cs) then last_line cs else c ∷ cs

-- The input splits before some place; the line of the location is one more than the line breaks before
-- it, and its column one more than the characters before it on its line.
abbrev pub IsPlace : List ℕ → SourceLocation → Type 0
IsPlace input l =
    (before : List ℕ) × (behind : List ℕ) × (input ≡ before ++ behind)
    × (l.line ≡ 1 + line_breaks before)
    × (l.column ≡ 1 + length (last_line before))

-- A location of a place at which these characters stand.
abbrev pub StandsAt : List ℕ → List ℕ → SourceLocation → Type 0
StandsAt input text l =
    (before : List ℕ) × (behind : List ℕ) × (input ≡ before ++ (text ++ behind))
    × (l.line ≡ 1 + line_breaks before)
    × (l.column ≡ 1 + length (last_line before))

walk_all-line : (cs : List ℕ) (l : SourceLocation) → (walk_all cs l).line ≡ l.line + line_breaks cs
walk_all-line [] l = omega arith
walk_all-line (c ∷ cs) l = elim (Bool-cases (c == b'\n')) [
  | inl e ↦ ground (arith, walk_all-line cs (record { line = l.line + 1; column = 1 }))
  | inr e ↦ ground (arith, walk_all-line cs (record { line = l.line; column = l.column + 1 }))
]

-- On the line of l, or on a later one.
abbrev column_behind : List ℕ → ℕ → ℕ
column_behind cs column =
    if ltb 0 (line_breaks cs) then 1 + length (last_line cs) else column + length cs

walk_all-column :
    (cs : List ℕ) (l : SourceLocation) → (walk_all cs l).column ≡ column_behind cs l.column
walk_all-column [] l = omega arith
walk_all-column (c ∷ cs) l = elim (Bool-cases (c == b'\n')) [
  | inl e ↦
      rw e
        (ground (arith, walk_all-column cs (record { line = l.line + 1; column = 1 }), no_break cs))
  | inr e ↦
      rw e (ground (arith, walk_all-column cs (record { line = l.line; column = l.column + 1 })))
]
  where
    no_break : (cs : List ℕ) → ltb 0 (line_breaks cs) ≡ false → last_line cs ≡ cs
    no_break [] h = refl
    no_break (c ∷ cs) h = ground (arith, no_break cs)

first_column : (cs : List ℕ) → column_behind cs 1 ≡ 1 + length (last_line cs)
first_column [] = refl
first_column (c ∷ cs) = ground (arith, first_column cs)

-- What the parser passed ends at a place.
pub Passes-IsPlace :
    (input rest : List ℕ) (l : SourceLocation)
    → Passes input first_location rest l
    → IsPlace input l
Passes-IsPlace input rest l (before, e, w) = (
  before,
  rest,
  e,
  rw w (walk_all-line before first_location),
  rw w (walk_all-column before first_location ∙ first_column before),
)

pub Passes-StandsAt :
    (input rest text behind : List ℕ) (l : SourceLocation)
    → Passes input first_location rest l
    → rest ≡ text ++ behind
    → StandsAt input text l
unfolding Passes-IsPlace
Passes-StandsAt input rest text behind l (before, e, w) here =
    let (b, r, split, line, column) = Passes-IsPlace input rest l (before, e, w) in
    (before, behind, e ∙ ap (λ t. before ++ t) here, line, column)
