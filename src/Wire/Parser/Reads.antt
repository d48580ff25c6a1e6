-- ===== src/Wire/Parser/Reads.antt =====
-- What each read of MessageParser gives on the bytes that MessageBuilder writes for it.
use zwwm.Common.{
  ℕ, zero, suc, ◌+◌, ◌-◌, ◌*◌, ◌%◌, ◌/◌, ◌≤◌, ◌<◌, ◌≡◌, refl, ap, ◌∙◌, arith, false, List, [], ◌∷◌,
  ◌++◌, length, length-append, ==_iff, length-drop, length-replicate, ◌==◌, drop, take, get_elem?,
  get_or,
}
use mathlib.Core.List.{head?}
use zwwm.Common.Int.{ℤ, pos, negsuc}
use zwwm.Wire.Builder.{IsInt32}
use zwwm.Wire.Bytes.{le32, word_limit, padding, word, word-le32, drop_past, take-append, round_up}
use zwwm.Wire.Builder.{to_uint32, contains_nul}
use zwwm.Wire.Builder.Padding.{zeros}
use zwwm.Wire.Parser.{
  MessageParser, Outcome, Reader, ensure, ◌>>=◌, remaining, advance, read_raw, read_int, to_int32,
  align, finish_text, read_text, read_string, read_array, read_fd, is_null_string,
}

-- The parser stands at `bytes`, and behind them at `rest`.
pub record At (p : MessageParser) (bytes rest : List ℕ) : Type 0 where
  pub inside : p.pos ≤ length p.body
  pub next : drop p.pos p.body ≡ bytes ++ rest

pub At-advance :
    (p : MessageParser) (bytes rest : List ℕ)
    → At p bytes rest
    → (p.pos + length bytes ≤ length p.body) × (drop (p.pos + length bytes) p.body ≡ rest)
At-advance p bytes rest h = (
  omega (arith, ap length h.next, length-append bytes rest, length-drop p.pos p.body),
  drop_past p.pos p.body bytes rest h.next,
)

get_elem?-drop : (n : ℕ) (xs : List ℕ) → get_elem? xs n ≡ head? (drop n xs)
get_elem?-drop zero [] = refl
get_elem?-drop zero (x ∷ xs) = refl
get_elem?-drop (suc n) [] = refl
get_elem?-drop (suc n) (x ∷ xs) = get_elem?-drop n xs

-- A step that succeeds hands its value and its parser on.
pub bind_ok :
    {A B : Type 0} (m : Reader A) (f : A → Reader B) {p q : MessageParser} {a : A}
    → m p ≡ Outcome.ok a q
    → (m >>= f) p ≡ f a q
bind_ok m f e = rw (e, ◌>>=◌)

ensure_lem : (n : ℕ) (p : MessageParser) → p.pos + n ≤ length p.body → ensure n p ≡ Outcome.ok tt p
unfolding ensure
ensure_lem n p h = ground arith

pub read_raw_lem :
    (v : ℕ) (p : MessageParser) (rest : List ℕ)
    → v < word_limit
    → At p (le32 v) rest
    → read_raw p ≡ Outcome.ok v (advance 4 p)
unfolding read_raw
read_raw_lem v p rest small h =
    bind_ok (ensure 4) _ (ensure_lem 4 p (At-advance p (le32 v) rest h).0)
    ∙ ap (λ k. Outcome.ok k (advance 4 p)) (ap word h.next ∙ word-le32 v rest small)

pub to_int32-to_uint32 : (z : ℤ) → IsInt32 z → to_int32 (to_uint32 z) ≡ z
to_int32-to_uint32 (pos n) h = ground arith
to_int32-to_uint32 (negsuc n) h = ground arith

pub to_uint32-lt : (z : ℤ) → to_uint32 z < word_limit
to_uint32-lt (pos n) = omega arith
to_uint32-lt (negsuc n) = omega arith

pub read_int_lem :
    (z : ℤ) (p : MessageParser) (rest : List ℕ)
    → IsInt32 z
    → At p (le32 (to_uint32 z)) rest
    → read_int p ≡ Outcome.ok z (advance 4 p)
unfolding read_int
read_int_lem z p rest small h =
    bind_ok read_raw _ (read_raw_lem (to_uint32 z) p rest (to_uint32-lt z) h)
    ∙ ap (λ k. Outcome.ok k (advance 4 p)) (to_int32-to_uint32 z small)

pub is_null_string_lem :
    (v : ℕ) (p : MessageParser) (rest : List ℕ)
    → v < word_limit
    → At p (le32 v) rest
    → is_null_string p ≡ Outcome.ok (v == 0) p
unfolding is_null_string
is_null_string_lem v p rest small h =
    bind_ok (ensure 4) _ (ensure_lem 4 p (At-advance p (le32 v) rest h).0)
    ∙ ap (λ k. Outcome.ok (k == 0) p) (ap word h.next ∙ word-le32 v rest small)

-- Behind a field of `n` bytes stand its zeros.
align_lem :
    (p : MessageParser)
    → p.pos + padding p.pos ≤ length p.body
    → align p ≡ Outcome.ok tt (advance (padding p.pos) p)
unfolding align
align_lem p h =
    bind_ok (ensure ((p.pos + 3) / 4 * 4 - p.pos)) _ (ensure_lem _ p (omega arith))
    ∙ ap (λ k. Outcome.ok tt (record p { pos = k })) (round_up p.pos)

-- A view of `bytes`, then their zeros: the tail of a string and of an array.
pub record Field (p : MessageParser) (bytes rest : List ℕ) : Type 0 where
  pub aligned : p.pos % 4 ≡ 0
  pub at : At p bytes (zeros (length bytes) ++ rest)

abbrev pub field_end : MessageParser → List ℕ → MessageParser
field_end p bytes = advance (length bytes + length (zeros (length bytes))) p

pub Field-ensure :
    (p : MessageParser) (bytes rest : List ℕ)
    → Field p bytes rest
    → ensure (length bytes) p ≡ Outcome.ok tt p
Field-ensure p bytes rest h = ensure_lem (length bytes) p (At-advance p bytes _ h.at).0

pub Field-take :
    (p : MessageParser) (bytes rest : List ℕ)
    → Field p bytes rest
    → take (length bytes) (remaining p) ≡ bytes
Field-take p bytes rest h = ap (take (length bytes)) h.at.next ∙ take-append bytes _

pub Field-align :
    (p : MessageParser) (bytes rest : List ℕ)
    → Field p bytes rest
    → align (advance (length bytes) p) ≡ Outcome.ok tt (field_end p bytes)
Field-align p bytes rest h =
    align_lem (advance (length bytes) p) (omega (arith, sizes, room))
    ∙ ap (λ k. Outcome.ok tt (record p { pos = k })) (omega (arith, sizes, h.aligned))
  where
    sizes : length (zeros (length bytes)) ≡ padding (length bytes)
    sizes = length-replicate {A = ℕ} (padding (length bytes)) 0

    behind : At (advance (length bytes) p) (zeros (length bytes)) rest
    behind =
        let (inside, next) = At-advance p bytes (zeros (length bytes) ++ rest) h.at in
        record { inside = inside; next = next }

    room : p.pos + length bytes + length (zeros (length bytes)) ≤ length p.body
    room = (At-advance (advance (length bytes) p) (zeros (length bytes)) rest behind).0

-- The parser behind a word, where a field begins.
word_then-Field :
    (v : ℕ) (p : MessageParser) (bytes rest : List ℕ)
    → p.pos % 4 ≡ 0
    → At p (le32 v) (bytes ++ (zeros (length bytes) ++ rest))
    → Field (advance 4 p) bytes rest
word_then-Field v p bytes rest aligned h =
    let (inside, next) = At-advance p (le32 v) (bytes ++ (zeros (length bytes) ++ rest)) h in
    record { aligned = omega (arith, aligned); at = record { inside = inside; next = next } }

pub read_array_lem :
    (bytes : List ℕ) (p : MessageParser) (rest : List ℕ)
    → length bytes < word_limit
    → p.pos % 4 ≡ 0
    → At p (le32 (length bytes)) (bytes ++ (zeros (length bytes) ++ rest))
    → read_array p ≡ Outcome.ok bytes (field_end (advance 4 p) bytes)
unfolding read_array
read_array_lem bytes p rest small aligned h =
    bind_ok read_raw _ (read_raw_lem (length bytes) p _ small h)
    ∙ bind_ok (ensure (length bytes)) _ (Field-ensure (advance 4 p) bytes rest field)
    ∙ bind_ok align _ (Field-align (advance 4 p) bytes rest field)
    ∙ ap (λ k. Outcome.ok k (field_end (advance 4 p) bytes))
        (Field-take (advance 4 p) bytes rest field)
  where
    field : Field (advance 4 p) bytes rest
    field = word_then-Field (length bytes) p bytes rest aligned h

get_last : (s : List ℕ) (c : ℕ) → get_or (s ++ (c ∷ [])) (length s) 0 ≡ c
get_last [] c = refl
get_last (x ∷ s) c = get_last s c

-- The checks of `finish_text`, when they pass.
finish_text_ok :
    (count : ℕ) (text : List ℕ) (p q : MessageParser)
    → get_or text (count - 1) 0 ≡ 0
    → contains_nul (take (count - 1) text) ≡ false
    → align (advance count p) ≡ Outcome.ok tt q
    → finish_text count text p ≡ Outcome.ok (take (count - 1) text) q
unfolding finish_text
finish_text_ok count text p q last clean e =
    rw ((==_iff (get_or text (count - 1) 0) 0).1 last, clean) (bind_ok align _ e)

-- A clean text with its terminator passes both checks.
finish_text_lem :
    (s : List ℕ) (p : MessageParser) (rest : List ℕ)
    → contains_nul s ≡ false
    → Field p (s ++ (0 ∷ [])) rest
    → finish_text (length (s ++ (0 ∷ []))) (s ++ (0 ∷ [])) p
      ≡ Outcome.ok s (field_end p (s ++ (0 ∷ [])))
finish_text_lem s p rest clean field =
    finish_text_ok n text p (field_end p text) (rw count (get_last s 0)) (rw front clean)
      (Field-align p text rest field)
    ∙ ap (λ k. Outcome.ok k (field_end p text)) front
  where
    text : List ℕ
    text = s ++ (0 ∷ [])

    n : ℕ
    n = length text

    count : n - 1 ≡ length s
    count = omega (arith, length-append s (0 ∷ []))

    front : take (n - 1) text ≡ s
    front = ap (λ k. take k text) count ∙ take-append s (0 ∷ [])

read_text_lem :
    (s : List ℕ) (p : MessageParser) (rest : List ℕ)
    → contains_nul s ≡ false
    → Field p (s ++ (0 ∷ [])) rest
    → read_text (length (s ++ (0 ∷ []))) p ≡ Outcome.ok s (field_end p (s ++ (0 ∷ [])))
unfolding read_text
read_text_lem s p rest clean field =
    bind_ok (ensure (length (s ++ (0 ∷ [])))) _ (Field-ensure p (s ++ (0 ∷ [])) rest field)
    ∙ ap (λ text. finish_text (length (s ++ (0 ∷ []))) text p)
        (Field-take p (s ++ (0 ∷ [])) rest field)
    ∙ finish_text_lem s p rest clean field

-- The count of a text includes its terminator, so it is not zero.
pub read_string_lem :
    (s : List ℕ) (p : MessageParser) (rest : List ℕ)
    → contains_nul s ≡ false
    → length (s ++ (0 ∷ [])) < word_limit
    → p.pos % 4 ≡ 0
    → At p
        (le32 (length (s ++ (0 ∷ []))))
        ((s ++ (0 ∷ [])) ++ (zeros (length (s ++ (0 ∷ []))) ++ rest))
    → read_string p ≡ Outcome.ok s (field_end (advance 4 p) (s ++ (0 ∷ [])))
unfolding read_string
read_string_lem s p rest clean small aligned h =
    bind_ok read_raw _ (read_raw_lem (length (s ++ (0 ∷ []))) p _ small h)
    ∙ rw count (
        read_text_lem s (advance 4 p) rest clean
          (word_then-Field (length (s ++ (0 ∷ []))) p (s ++ (0 ∷ [])) rest aligned h))
  where
    count : (length (s ++ (0 ∷ [])) == 0) ≡ false
    count = ground (arith, length-append s (0 ∷ []))

-- A null string is a zero word, read as the empty text.
pub read_null_lem :
    (p : MessageParser) (rest : List ℕ)
    → At p (le32 0) rest
    → read_string p ≡ Outcome.ok [] (advance 4 p)
unfolding read_string
read_null_lem p rest h = bind_ok read_raw _ (read_raw_lem 0 p rest (omega arith) h)

pub read_fd_lem :
    (fd : ℕ) (p : MessageParser) (later : List ℕ)
    → drop p.fd_pos p.fds ≡ fd ∷ later
    → read_fd p ≡ Outcome.ok fd (record p { fd_pos = p.fd_pos + 1 })
unfolding read_fd
read_fd_lem fd p later h = rw (get_elem?-drop p.fd_pos p.fds ∙ ap head? h, read_fd)
