-- ===== src/Wire/Args/RoundTrip.antt =====
-- Reading back what was appended: argument by argument, and a whole message.
use zwwm.Common.{
  ℕ, ◌+◌, ◌%◌, ◌≤◌, ◌<◌, ◌≡◌, refl, ap, ◌∙◌, arith, Bool, true, false, List, [], ◌∷◌, ◌++◌, length,
  map, length-append, append_assoc, drop, ◌==◌, if◌then◌else◌,
}
use zwwm.Wire.Bytes.{le32, word_limit, drop_past}
use zwwm.Wire.Builder.Padding.{zeros}
use zwwm.Wire.Parser.{
  MessageParser, Outcome, Reader, pure, ◌>>=◌, read_int, read_uint, read_object, read_new_id,
  is_null_string, read_string, read_array, read_fd, read_raw,
}
use zwwm.Wire.Parser.Reads.{
  At, At-advance, bind_ok, read_raw_lem, read_int_lem, is_null_string_lem, read_array_lem,
  read_string_lem, read_null_lem, read_fd_lem,
}
use zwwm.Wire.Args.{Arg, type_of, Fits, AllFit, encode, encode_field, encode_all, fds_in, fds_of}
use zwwm.Wire.Args.Append.{encode-aligns}
use zwwm.Wire.Args.Read.{read_nullable, read_arg, read_args}

-- The parser behind an argument.
abbrev pub past : Arg → MessageParser → MessageParser
past a p = record p { pos = p.pos + length (encode a); fd_pos = p.fd_pos + length (fds_in a) }

-- The parser stands at the bytes and the descriptors of an argument.
pub record Before (p : MessageParser) (a : Arg) (bytes fds : List ℕ) : Type 0 where
  pub aligned : p.pos % 4 ≡ 0
  pub at : At p (encode a) bytes
  pub fds_at : drop p.fd_pos p.fds ≡ fds_in a ++ fds

-- The parser behind the bytes of an argument that is no descriptor.
arrived :
    (a : Arg) (p : MessageParser) (k : ℕ)
    → k ≡ p.pos + length (encode a)
    → fds_in a ≡ []
    → record p { pos = k } ≡ past a p
arrived a p k moved bare = cc (moved, kept)
  where
    kept : p.fd_pos ≡ p.fd_pos + length (fds_in a)
    kept = omega (arith, ap length bare)

-- A read that consumes such an argument.
read_as :
    {A : Type 0} (m : Reader A) (f : A → Arg) (v : A) (p : MessageParser) (k : ℕ)
    → m p ≡ Outcome.ok v (record p { pos = k })
    → k ≡ p.pos + length (encode (f v))
    → fds_in (f v) ≡ []
    → (m >>= λ x. pure (f x)) p ≡ Outcome.ok (f v) (past (f v) p)
read_as m f v p k e moved bare =
    bind_ok m (λ x. pure (f x)) e ∙ ap (Outcome.ok (f v)) (arrived (f v) p k moved bare)

split_field :
    (p : MessageParser) (field rest : List ℕ)
    → At p (encode_field field) rest
    → At p (le32 (length field)) (field ++ (zeros (length field) ++ rest))
split_field p field rest h = record {
  inside = h.inside;
  next = h.next ∙ ap (◌++◌ (le32 (length field))) (append_assoc field (zeros (length field)) rest);
}

field_moves :
    (field : List ℕ) (k : ℕ)
    → k + 4 + (length field + length (zeros (length field))) ≡ k + length (encode_field field)
field_moves field k = omega (arith, length-append field (zeros (length field)))

read_nullable_lem :
    (null : Bool) (s : List ℕ) (p q : MessageParser)
    → is_null_string p ≡ Outcome.ok null p
    → read_string p ≡ Outcome.ok s q
    → read_nullable p ≡ Outcome.ok (if null then Arg.null_string else Arg.string s) q
unfolding read_nullable
read_nullable_lem null s p q e f = bind_ok is_null_string _ e ∙ bind_ok read_string _ f

size_word : (s : List ℕ) → (length (s ++ (0 ∷ [])) == 0) ≡ false
size_word s = ground (arith, length-append s (0 ∷ []))

read_arg_lem :
    (a : Arg) (p : MessageParser) (bytes fds : List ℕ)
    → Fits a
    → Before p a bytes fds
    → read_arg (type_of a) p ≡ Outcome.ok a (past a p)
unfolding read_arg read_uint read_object read_new_id
read_arg_lem (Arg.int z) p bytes fds f h =
    read_as read_int Arg.int z p (p.pos + 4) (read_int_lem z p bytes f h.at) refl refl
read_arg_lem (Arg.fixed z) p bytes fds f h =
    read_as read_int Arg.fixed z p (p.pos + 4) (read_int_lem z p bytes f h.at) refl refl
read_arg_lem (Arg.uint n) p bytes fds f h =
    read_as read_raw Arg.uint n p (p.pos + 4) (read_raw_lem n p bytes f h.at) refl refl
read_arg_lem (Arg.object n) p bytes fds f h =
    read_as read_raw Arg.object n p (p.pos + 4) (read_raw_lem n p bytes f h.at) refl refl
read_arg_lem (Arg.new_id n) p bytes fds f h =
    read_as read_raw Arg.new_id n p (p.pos + 4) (read_raw_lem n p bytes f h.at) refl refl
read_arg_lem (Arg.string s) p bytes fds f h =
    read_nullable_lem false s p _ (null_word) (read_string_lem s p bytes f.0 small h.aligned field)
    ∙ ap (Outcome.ok (Arg.string s)) (arrived (Arg.string s) p _ (field_moves text p.pos) refl)
  where
    text : List ℕ
    text = s ++ (0 ∷ [])

    small : length text < word_limit
    small = omega (arith, length-append s (0 ∷ []), f.1)

    field : At p (le32 (length text)) (text ++ (zeros (length text) ++ bytes))
    field = split_field p text bytes h.at

    null_word : is_null_string p ≡ Outcome.ok false p
    null_word =
        is_null_string_lem (length text) p (text ++ (zeros (length text) ++ bytes)) small field
        ∙ ap (λ null. Outcome.ok null p) (size_word s)
read_arg_lem Arg.null_string p bytes fds f h =
    read_nullable_lem true [] p _ (is_null_string_lem 0 p bytes (omega arith) h.at)
      (read_null_lem p bytes h.at)
    ∙ ap (Outcome.ok Arg.null_string) (arrived Arg.null_string p _ refl refl)
read_arg_lem (Arg.array a) p bytes fds f h =
    read_as read_array Arg.array a p _
      (read_array_lem a p bytes f h.aligned (split_field p a bytes h.at)) (field_moves a p.pos) refl
read_arg_lem (Arg.fd n) p bytes fds f h =
    bind_ok read_fd _ (read_fd_lem n p fds h.fds_at)
    ∙ ap (λ k. Outcome.ok (Arg.fd n) (record p { pos = k; fd_pos = p.fd_pos + 1 })) (omega arith)

-- The argument that follows stands behind the one that was read.
next_Before :
    (a : Arg) (p : MessageParser) (bytes fds : List ℕ)
    → Before p a bytes fds
    → ((past a p).pos % 4 ≡ 0)
      × ((past a p).pos ≤ length p.body)
      × (drop (past a p).pos p.body ≡ bytes)
      × (drop (past a p).fd_pos p.fds ≡ fds)
next_Before a p bytes fds h =
    let (inside, next) = At-advance p (encode a) bytes h.at in
    (
      omega (arith, h.aligned, encode-aligns a),
      inside,
      next,
      drop_past p.fd_pos p.fds (fds_in a) fds h.fds_at,
    )

-- The parser behind a list of arguments.
abbrev pub past_all : List Arg → MessageParser → MessageParser
past_all [] p = p
past_all (a ∷ rest) p = past_all rest (past a p)

-- Reading the types of arguments that were written gives the arguments back, whatever follows them,
-- and consumes exactly their bytes and their descriptors.
pub read_args_lem :
    (args : List Arg) (p : MessageParser) (bytes fds : List ℕ)
    → AllFit args
    → p.pos % 4 ≡ 0
    → p.pos ≤ length p.body
    → drop p.pos p.body ≡ encode_all args ++ bytes
    → drop p.fd_pos p.fds ≡ fds_of args ++ fds
    → read_args (map type_of args) p ≡ Outcome.ok args (past_all args p)
unfolding read_args
read_args_lem [] p bytes fds f aligned inside at fds_at = refl
read_args_lem (a ∷ rest) p bytes fds f aligned inside at fds_at =
    bind_ok (read_arg (type_of a)) _ (read_arg_lem a p _ _ f.0 before)
    ∙ bind_ok (read_args (map type_of rest)) _
        (read_args_lem rest (past a p) bytes fds f.1 after.0 after.1 after.2 after.3)
  where
    before : Before p a (encode_all rest ++ bytes) (fds_of rest ++ fds)
    before = record {
      aligned = aligned;
      at = record { inside = inside; next = at ∙ append_assoc (encode a) (encode_all rest) bytes };
      fds_at = fds_at ∙ append_assoc (fds_in a) (fds_of rest) fds;
    }

    after :
        ((past a p).pos % 4 ≡ 0)
        × ((past a p).pos ≤ length p.body)
        × (drop (past a p).pos p.body ≡ encode_all rest ++ bytes)
        × (drop (past a p).fd_pos p.fds ≡ fds_of rest ++ fds)
    after = next_Before a p _ _ before
