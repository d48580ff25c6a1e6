-- ===== src/Config/Imports.antt =====
-- parse_config_file of zw-lang/src/config.cpp: a file of the configuration with those it imports.
pub mod Included
pub mod Total
use zwwm.Common.{ℕ, zero, suc, Bool, Option, none, some, List, [], ◌∷◌, ◌++◌, if◌then◌else◌}
use zwwm.Config.{
  SourceLocation, first_location, Diagnostic, Value, Values, Assignment, ParseResult, bytes,
  same_text, has_errors,
}
use zwwm.Config.Checks.{error_of, mem_text}
use zwwm.Config.Environment.{ImportPath, import_path}
use zwwm.Config.Parser.{parse_config}

-- std::filesystem and the environment. `canonical` has the fallback to the absolute path, `contents`
-- is none where the file does not open, and `beside path child` is `path.parent_path() / child`.
pub record Files : Type 0 where
  pub getenv : List ℕ → Option (List ℕ)
  pub canonical : List ℕ → List ℕ
  pub contents : List ℕ → Option (List ℕ)
  pub is_relative : List ℕ → Bool
  pub beside : List ℕ → List ℕ → List ℕ

-- The result, and the stack of the files that are being read.
pub record Loaded : Type 0 where
  pub stack : List (List ℕ)
  pub result : ParseResult

-- The stack, `parsed.diagnostics` and `merged.assignments`.
pub record Merging : Type 0 where
  pub stack : List (List ℕ)
  pub diagnostics : List Diagnostic
  pub merged : List Assignment

infixl 5 ◌>>=◌
abbrev pub ◌>>=◌ {ℓ κ} : {A : Type ℓ} {B : Type κ} → Option A → (A → Option B) → Option B
none >>= f = none
some a >>= f = f a

unfoldable pub pop_back : List (List ℕ) → List (List ℕ)
pop_back [] = []
pop_back (p ∷ []) = []
pop_back (p ∷ q ∷ ps) = p ∷ pop_back (q ∷ ps)

abbrev pub failure : SourceLocation → List ℕ → ParseResult
failure location message = record { assignments = []; diagnostics = error_of location message ∷ [] }

unfoldable pub to_list : Values → List Value
to_list Values.nil = []
to_list (Values.cons v vs) = v ∷ to_list vs

-- The values of an import.
unfoldable pub imports : Value → List Value
imports (Value.array vs) = to_list vs
imports v = v ∷ []

module _ (files : Files) where
  abbrev pub child_path : List ℕ → List ℕ → List ℕ
  child_path path child = if files.is_relative child then files.beside path child else child

  -- The recursive call, and the path of the file that imports.
  module _ (load : List ℕ → List (List ℕ) → SourceLocation → Option Loaded) (path : List ℕ) where
    unfoldable pub import_one : SourceLocation → Value → Merging → Option Merging
    import_one location v s = elim (import_path files.getenv v) [
      | ImportPath.found imported ↦ load (child_path path imported) s.stack location >>= λ loaded.
          some (record {
            stack = loaded.stack;
            diagnostics = s.diagnostics ++ loaded.result.diagnostics;
            merged = s.merged ++ loaded.result.assignments;
          })
      | ImportPath.refused message ↦
          some (record s { diagnostics = s.diagnostics ++ (error_of location message ∷ []) })
      | ImportPath.out_of_fuel ↦ none
    ]

    unfoldable pub import_all : SourceLocation → List Value → Merging → Option Merging
    import_all location [] s = some s
    import_all location (v ∷ vs) s = import_one location v s >>= import_all location vs

    unfoldable pub merge_one : Assignment → Merging → Option Merging
    merge_one a s =
        if same_text a.key (bytes "import")
        then import_all a.location (imports a.value) s
        else some (record s { merged = s.merged ++ (a ∷ []) })

    unfoldable pub merge_all : List Assignment → Merging → Option Merging
    merge_all [] s = some s
    merge_all (a ∷ rest) s = merge_one a s >>= merge_all rest

    -- What the function does with a file that was parsed.
    unfoldable pub merge_file : List (List ℕ) → ParseResult → Option Loaded
    merge_file stack parsed =
        if has_errors parsed.diagnostics
        then some (record { stack = stack; result = parsed })
        else merge_all parsed.assignments
            (record { stack = stack ++ (path ∷ []); diagnostics = parsed.diagnostics; merged = [] })
          >>= λ s. some (record {
            stack = pop_back s.stack;
            result = record { assignments = s.merged; diagnostics = s.diagnostics };
          })

    unfoldable pub read_file : List (List ℕ) → SourceLocation → Option (List ℕ) → Option Loaded
    read_file stack location none = some (record {
      stack = stack;
      result = failure location (bytes "could not open configuration file: " ++ path);
    })
    read_file stack location (some input) = parse_config input >>= merge_file stack

  unfoldable pub parse_config_file_recursive :
      ℕ → List ℕ → List (List ℕ) → SourceLocation → Option Loaded
  parse_config_file_recursive zero requested stack location = none
  parse_config_file_recursive (suc f) requested stack location =
      let path = files.canonical requested in
      if mem_text path stack
      then some (record {
        stack = stack;
        result = failure location (bytes "configuration import cycle at " ++ path);
      })
      else read_file (parse_config_file_recursive f) path stack location (files.contents path)

  -- `SourceLocation location = {}` is line 1 and column 1.
  unfoldable pub parse_config_file : ℕ → List ℕ → Option ParseResult
  parse_config_file f path =
      parse_config_file_recursive f path [] first_location >>= λ loaded. some loaded.result
