-- ===== src/Config/Imports/Total.antt =====
-- parse_config_file on a file system with finitely many files.
use mathlib.Core.Path.{subst}
use zwwm.Common.{
  ℕ, zero, suc, ◌≤◌, ◌<◌, ◌≡◌, refl, sym, ap, ◌∙◌, arith, true, false, ◌||◌, Option, none, some,
  List, [], ◌∷◌, ◌++◌, length, if◌then◌else◌, Bool-cases, inl, inr,
}
use zwwm.Config.{SourceLocation, first_location, ParseResult, bytes, same_text, has_errors}
use zwwm.Config.Checks.{mem_text}
use zwwm.Config.Checks.Ranges.{same_text_lem, same_text_self}
use zwwm.Config.Imports.{
  Files, Loaded, pop_back, failure, merge_file, read_file, parse_config_file_recursive,
  parse_config_file,
}
use zwwm.Config.Imports.Included.{no_error, Gives, Included, Merged, Loads, merge_all-Grows}
use zwwm.Config.Parser.{parse_config}
use zwwm.Config.Parser.Reach.{small_numbers}
use zwwm.Config.Parser.Total.{parse_config-IsResult}

-- The files that are not on the stack, with repetitions.
unseen : List (List ℕ) → List (List ℕ) → ℕ
unseen [] stack = 0
unseen (k ∷ known) stack = let n = unseen known stack in if mem_text k stack then n else suc n

mem_text-append :
    (k p : List ℕ) (stack : List (List ℕ))
    → mem_text k (stack ++ (p ∷ [])) ≡ (mem_text k stack || same_text k p)
unfolding mem_text
mem_text-append k p [] = ground arith
mem_text-append k p (q ∷ stack) = ground (arith, mem_text-append k p stack)

unseen-le : (known stack : List (List ℕ)) → unseen known stack ≤ length known
unfolding unseen
unseen-le [] stack = omega arith
unseen-le (k ∷ known) stack = ground (arith, unseen-le known stack)

unseen-append-le :
    (known : List (List ℕ)) (p : List ℕ) (stack : List (List ℕ))
    → unseen known (stack ++ (p ∷ [])) ≤ unseen known stack
unfolding unseen
unseen-append-le [] p stack = omega arith
unseen-append-le (k ∷ known) p stack =
    ground (arith, unseen-append-le known p stack, mem_text-append k p stack)

-- A file is on the stack once it is read.
unseen-append-lt :
    (known : List (List ℕ)) (p : List ℕ) (stack : List (List ℕ))
    → mem_text p known ≡ true
    → mem_text p stack ≡ false
    → unseen known (stack ++ (p ∷ [])) < unseen known stack
unfolding unseen mem_text
unseen-append-lt [] p stack h k = cc
unseen-append-lt (q ∷ known) p stack h k = elim (Bool-cases (same_text p q)) [
  | inl e ↦
      rw (← same_text_lem p q e) (
        ground (arith, unseen-append-le known p stack, mem_text-append p p stack, same_text_self p))
  | inr e ↦ ground (arith, unseen-append-lt known p stack, mem_text-append q p stack)
]

pop_back-append : (stack : List (List ℕ)) (p : List ℕ) → pop_back (stack ++ (p ∷ [])) ≡ stack
unfolding pop_back
pop_back-append [] p = refl
pop_back-append (q ∷ []) p = refl
pop_back-append (q ∷ r ∷ stack) p = ap (λ s. q ∷ s) (pop_back-append (r ∷ stack) p)

module _ (files : Files) where
  merge_file-Loads :
      (load : List ℕ → List (List ℕ) → SourceLocation → Option Loaded) (requested : List ℕ)
      (stack : List (List ℕ)) (input : List ℕ) (parsed : ParseResult)
      → files.contents (files.canonical requested) ≡ some input
      → parse_config input ≡ some parsed
      → ((child : List ℕ) (l : SourceLocation)
          → Gives
              (load child (stack ++ (files.canonical requested ∷ [])) l)
              (Loads files child (stack ++ (files.canonical requested ∷ []))))
      → Gives
          (merge_file files load (files.canonical requested) stack parsed)
          (Loads files requested stack)
  unfolding merge_file
  merge_file-Loads load requested stack input parsed there parses loads =
      elim (Bool-cases (has_errors parsed.diagnostics)) [
        | inl e ↦ rw e (
          record { stack = stack; result = parsed },
          refl,
          record { stack_kept = refl; included = λ h. cc },
        )
        | inr e ↦ rw e (
            let path = files.canonical requested in
            let (t, here, g) =
              merge_all-Grows files load path (stack ++ (path ∷ [])) loads parsed.assignments
                (record {
                  stack = stack ++ (path ∷ []);
                  diagnostics = parsed.diagnostics;
                  merged = [];
                })
                refl in
            (
              record {
                stack = pop_back t.stack;
                result = record { assignments = t.merged; diagnostics = t.diagnostics };
              },
              rw here refl,
              record {
                stack_kept = ap pop_back g.stack ∙ pop_back-append stack path;
                included = λ h.
                    let (new, first, more, m) = g.grown h in
                    Included.file there parses e
                      (subst (Merged files path parsed.assignments) (sym more) m);
              },
            ))
      ]

  failure-Loads :
      (requested : List ℕ) (stack : List (List ℕ)) (l : SourceLocation) (message : List ℕ)
      → Gives
          (some (record { stack = stack; result = failure l message }))
          (Loads files requested stack)
  failure-Loads requested stack l message = (
    record { stack = stack; result = failure l message },
    refl,
    record { stack_kept = refl; included = λ h. absurd (no_error l message h) },
  )

  read_file-Loads :
      (load : List ℕ → List (List ℕ) → SourceLocation → Option Loaded) (requested : List ℕ)
      (stack : List (List ℕ)) (l : SourceLocation) (o : Option (List ℕ))
      → files.contents (files.canonical requested) ≡ o
      → ((input : List ℕ) → o ≡ some input → small_numbers input ≡ true)
      → ((input : List ℕ)
          → o ≡ some input
          → (child : List ℕ) (at : SourceLocation)
          → Gives
              (load child (stack ++ (files.canonical requested ∷ [])) at)
              (Loads files child (stack ++ (files.canonical requested ∷ []))))
      → Gives
          (read_file files load (files.canonical requested) stack l o)
          (Loads files requested stack)
  unfolding read_file
  read_file-Loads load requested stack l none there small loads =
      failure-Loads requested stack l
        (bytes "could not open configuration file: " ++ files.canonical requested)
  read_file-Loads load requested stack l (some input) there small loads =
      let (parsed, parses, result) = parse_config-IsResult input (small input refl) in
      rw parses (merge_file-Loads load requested stack input parsed there parses (loads input refl))

  -- Every file that opens is known, and the numbers in it are below 2 ^ 63.
  module _ (known : List (List ℕ))
      (opens : (path input : List ℕ)
        → files.contents path ≡ some input
        → mem_text path known ≡ true)
      (small : (path input : List ℕ)
        → files.contents path ≡ some input
        → small_numbers input ≡ true) where
    recursive-Loads :
        (f : ℕ) (requested : List ℕ) (stack : List (List ℕ)) (l : SourceLocation)
        → unseen known stack < f
        → Gives
            (parse_config_file_recursive files f requested stack l)
            (Loads files requested stack)
    unfolding parse_config_file_recursive
    recursive-Loads zero requested stack l h = elim h [ ]
    recursive-Loads (suc f) requested stack l h =
        elim (Bool-cases (mem_text (files.canonical requested) stack)) [
          | inl e ↦ rw e (
              failure-Loads requested stack l
                (bytes "configuration import cycle at " ++ files.canonical requested))
          | inr e ↦ rw e (
              read_file-Loads (parse_config_file_recursive files f) requested stack l
                (files.contents (files.canonical requested)) refl
                (small (files.canonical requested))
                (λ input there child at.
                  recursive-Loads f child (stack ++ (files.canonical requested ∷ [])) at (
                    omega (
                      arith,
                      h,
                      unseen-append-lt known (files.canonical requested) stack
                          (opens (files.canonical requested) input there) e,
                    ))))
        ]

    -- With finitely many files that open, in which no digits make a number of 2 ^ 63 or more,
    -- parse_config_file has a result for every path, with fuel above the number of files. If it has no errors, every imported file opens and parses without errors,
    -- no file imports itself, and the assignments are those of the file in order, with those of the
    -- imported files in the place of each import.
    pub parse_config_file-Included :
        (f : ℕ) (path : List ℕ)
        → length known < f
        → (r : ParseResult) × (parse_config_file files f path ≡ some r)
          × (has_errors r.diagnostics ≡ false → Included files (files.canonical path) r.assignments)
    unfolding parse_config_file
    parse_config_file-Included f path h =
        let (loaded, here, ok) =
          recursive-Loads f path [] first_location (omega (arith, h, unseen-le known [])) in
        (loaded.result, rw here refl, ok.included)
