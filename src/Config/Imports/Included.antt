-- ===== src/Config/Imports/Included.antt =====
-- What a file with its imports means, and the loops of parse_config_file_recursive over one file.
use zwwm.Common.{
  ℕ, ◌≡◌, refl, sym, ap, ◌∙◌, true, false, Option, none, some, List, [], ◌∷◌, ◌++◌, append-nil,
  append_assoc, Bool-cases, inl, inr,
}
use zwwm.Config.{SourceLocation, Value, Assignment, ParseResult, bytes, same_text, has_errors}
use zwwm.Config.Checks.{error_of}
use zwwm.Config.Checks.Ranges.{first_part, second_part}
use zwwm.Config.Environment.{ImportPath, import_path, Answers, import_path-Answers}
use zwwm.Config.Imports.{
  Files, Loaded, Merging, ◌>>=◌, imports, child_path, import_one, import_all, merge_one, merge_all,
}
use zwwm.Config.Parser.{parse_config}

pub no_error : (l : SourceLocation) (m : List ℕ) → ¬ (has_errors (error_of l m ∷ []) ≡ false)
unfolding has_errors
no_error l m h = cc

-- The computation has a result, with the property.
abbrev pub Gives : {A : Type 0} → Option A → (A → Type 0) → Type 0
Gives {A} m P = (a : A) × (m ≡ some a) × P a

pub Gives-bind :
    {A B : Type 0} (m : Option A) (f : A → Option B) (P : A → Type 0) (Q : B → Type 0)
    → Gives m P
    → ((a : A) → P a → Gives (f a) Q)
    → Gives (m >>= f) Q
Gives-bind m f P Q (a, e, p) k = let (b, g, q) = k a p in (b, rw e g, q)

module _ (files : Files) where
  -- `Included path out`: the file parses, and `out` is its assignments in order, with those of the
  -- files that it imports in the place of each import. `Merged` is the same of a part of a file, and
  -- `Imported` of some values of an import.
  mutual
    pub data Included : List ℕ → List Assignment → Type 0 where
      file :
          {path input : List ℕ} {parsed : ParseResult} {out : List Assignment}
          → files.contents path ≡ some input
          → parse_config input ≡ some parsed
          → has_errors parsed.diagnostics ≡ false
          → Merged path parsed.assignments out
          → Included path out

    pub data Merged : List ℕ → List Assignment → List Assignment → Type 0 where
      nothing : {path : List ℕ} → Merged path [] []
      kept :
          {path : List ℕ} {a : Assignment} {rest out : List Assignment}
          → same_text a.key (bytes "import") ≡ false
          → Merged path rest out
          → Merged path (a ∷ rest) (a ∷ out)
      replaced :
          {path : List ℕ} {a : Assignment} {rest new out : List Assignment}
          → same_text a.key (bytes "import") ≡ true
          → Imported path (imports a.value) new
          → Merged path rest out
          → Merged path (a ∷ rest) (new ++ out)

    pub data Imported : List ℕ → List Value → List Assignment → Type 0 where
      no_more : {path : List ℕ} → Imported path [] []
      one_more :
          {path imported : List ℕ} {v : Value} {rest : List Value} {new out : List Assignment}
          → import_path files.getenv v ≡ ImportPath.found imported
          → Included (files.canonical (child_path files path imported)) new
          → Imported path rest out
          → Imported path (v ∷ rest) (new ++ out)

-- The stack is left as it was, and without errors there were none before and `P` holds of what was
-- merged.
pub record Grows (P : List Assignment → Type 0) (s t : Merging) : Type 0 where
  pub stack : t.stack ≡ s.stack
  pub grown :
      has_errors t.diagnostics ≡ false
      → (new : List Assignment) × (has_errors s.diagnostics ≡ false)
        × (t.merged ≡ s.merged ++ new)
        × P new

Grows-self : (P : List Assignment → Type 0) (s : Merging) → P [] → Grows P s s
Grows-self P s p = record { stack = refl; grown = λ h. ([], h, sym (append-nil s.merged), p) }

Grows-trans :
    (P Q R : List Assignment → Type 0) (s t u : Merging)
    → Grows P s t
    → Grows Q t u
    → ((xs ys : List Assignment) → P xs → Q ys → R (xs ++ ys))
    → Grows R s u
Grows-trans P Q R s t u g h join = record {
  stack = h.stack ∙ g.stack;
  grown = λ k.
      let (ys, before, more, q) = h.grown k in
      let (xs, first, some_more, p) = g.grown before in
      (
        xs ++ ys,
        first,
        more ∙ ap (λ l. l ++ ys) some_more ∙ append_assoc s.merged xs ys,
        join xs ys p q,
      );
}

-- What a call leaves of the stack and gives as its result.
pub record Loads (files : Files) (requested : List ℕ) (stack : List (List ℕ)) (l : Loaded)
    : Type 0 where
  pub stack_kept : l.stack ≡ stack
  pub included :
      has_errors l.result.diagnostics ≡ false
      → Included files (files.canonical requested) l.result.assignments

module _ (files : Files) (load : List ℕ → List (List ℕ) → SourceLocation → Option Loaded)
    (path : List ℕ) (stack : List (List ℕ))
    (loads : (requested : List ℕ) (l : SourceLocation)
      → Gives (load requested stack l) (Loads files requested stack)) where
  -- The values of an import, and the assignments of a file, that a step takes from the front.
  abbrev OfValue : Value → List Assignment → Type 0
  OfValue v new =
      (rest : List Value) (out : List Assignment)
      → Imported files path rest out
      → Imported files path (v ∷ rest) (new ++ out)

  abbrev OfAssignment : Assignment → List Assignment → Type 0
  OfAssignment a new =
      (rest out : List Assignment)
      → Merged files path rest out
      → Merged files path (a ∷ rest) (new ++ out)

  import_loaded :
      (l : SourceLocation) (v : Value) (s : Merging)
      → s.stack ≡ stack
      → (m : ImportPath) → import_path files.getenv v ≡ m
      → Answers m
      → Gives
          (elim m as (λ x. Option Merging) [
            | ImportPath.found imported ↦
                load (child_path files path imported) s.stack l >>= λ loaded. some (record {
                  stack = loaded.stack;
                  diagnostics = s.diagnostics ++ loaded.result.diagnostics;
                  merged = s.merged ++ loaded.result.assignments;
                })
            | ImportPath.refused message ↦
                some (record s { diagnostics = s.diagnostics ++ (error_of l message ∷ []) })
            | ImportPath.out_of_fuel ↦ none
          ])
          (Grows (OfValue v) s)
  import_loaded l v s e (ImportPath.found imported) k answers =
      let requested = child_path files path imported in
      let (loaded, here, ok) = loads requested l in
      (
        record {
          stack = loaded.stack;
          diagnostics = s.diagnostics ++ loaded.result.diagnostics;
          merged = s.merged ++ loaded.result.assignments;
        },
        rw (e, here) refl,
        record {
          stack = ok.stack_kept ∙ sym e;
          grown = λ h. (
            loaded.result.assignments,
            first_part s.diagnostics loaded.result.diagnostics h,
            refl,
            (λ rest out more.
                Imported.one_more k
                  (ok.included (second_part s.diagnostics loaded.result.diagnostics h)) more),
          );
        },
      )
  import_loaded l v s e (ImportPath.refused message) k answers = (
    record s { diagnostics = s.diagnostics ++ (error_of l message ∷ []) },
    refl,
    record {
      stack = refl;
      grown =
          λ h. absurd (no_error l message (second_part s.diagnostics (error_of l message ∷ []) h));
    },
  )
  import_loaded l v s e ImportPath.out_of_fuel k answers = absurd answers

  import_one-Grows :
      (l : SourceLocation) (v : Value) (s : Merging)
      → s.stack ≡ stack
      → Gives (import_one files load path l v s) (Grows (OfValue v) s)
  unfolding import_one
  import_one-Grows l v s e =
      import_loaded l v s e (import_path files.getenv v) refl (import_path-Answers files.getenv v)

  import_all-Grows :
      (l : SourceLocation) (vs : List Value) (s : Merging)
      → s.stack ≡ stack
      → Gives (import_all files load path l vs s) (Grows (Imported files path vs) s)
  unfolding import_all
  import_all-Grows l [] s e = (s, refl, Grows-self (Imported files path []) s Imported.no_more)
  import_all-Grows l (v ∷ vs) s e =
      Gives-bind (import_one files load path l v s) (import_all files load path l vs)
        (Grows (OfValue v) s) (Grows (Imported files path (v ∷ vs)) s) (import_one-Grows l v s e)
        (λ t g.
          let (u, here, h) = import_all-Grows l vs t (g.stack ∙ e) in
          (
            u,
            here,
            Grows-trans (OfValue v) (Imported files path vs) (Imported files path (v ∷ vs)) s t u g
                h (λ xs ys p q. p vs ys q),
          ))

  merge_one-Grows :
      (a : Assignment) (s : Merging)
      → s.stack ≡ stack
      → Gives (merge_one files load path a s) (Grows (OfAssignment a) s)
  unfolding merge_one
  merge_one-Grows a s e = elim (Bool-cases (same_text a.key (bytes "import"))) [
    | inl k ↦ rw k (
        let (t, here, g) = import_all-Grows a.location (imports a.value) s e in
        (
          t,
          here,
          record {
            stack = g.stack;
            grown = λ h.
                let (new, first, more, p) = g.grown h in
                (new, first, more, λ rest out m. Merged.replaced k p m);
          },
        ))
    | inr k ↦ rw k (
      record s { merged = s.merged ++ (a ∷ []) },
      refl,
      record { stack = refl; grown = λ h. (a ∷ [], h, refl, λ rest out m. Merged.kept k m) },
    )
  ]

  pub merge_all-Grows :
      (rest : List Assignment) (s : Merging)
      → s.stack ≡ stack
      → Gives (merge_all files load path rest s) (Grows (Merged files path rest) s)
  unfolding merge_all
  merge_all-Grows [] s e = (s, refl, Grows-self (Merged files path []) s Merged.nothing)
  merge_all-Grows (a ∷ rest) s e =
      Gives-bind (merge_one files load path a s) (merge_all files load path rest)
        (Grows (OfAssignment a) s) (Grows (Merged files path (a ∷ rest)) s) (merge_one-Grows a s e)
        (λ t g.
          let (u, here, h) = merge_all-Grows rest t (g.stack ∙ e) in
          (
            u,
            here,
            Grows-trans (OfAssignment a) (Merged files path rest) (Merged files path (a ∷ rest)) s t
                u g h (λ xs ys p q. p rest ys q),
          ))
