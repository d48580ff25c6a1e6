-- ===== src/Wire/Connection/Stream.antt =====
-- A connection's input and output as byte streams, and the invariant of the chunked input.
use zwwm.Common.{
  ℕ, zero, suc, ◌+◌, ◌-◌, ◌≤◌, ◌<◌, ◌≡◌, refl, sym, ap, ◌∙◌, arith, true, List, [], ◌∷◌, ◌++◌,
  length, get_or, drop, take, ltb, leb, leb→le, Bool-cases, inl, inr, if◌then◌else◌, length-drop,
}
use zwwm.Wire.Bytes.{drop-drop}
use zwwm.Wire.Connection.{Connection, byte_in, byte_at, front_size, linearize, front, message_body}

abbrev pub concat : List (List ℕ) → List ℕ
concat [] = []
concat (chunk ∷ rest) = chunk ++ concat rest

-- The bytes received and not yet consumed, and those queued and not yet sent.
abbrev pub input : Connection → List ℕ
input c = drop c.input_start (concat c.input_chunks)

abbrev pub output : Connection → List ℕ
output c = drop c.output_start (concat c.output_chunks)

-- The descriptors received and not yet taken.
abbrev pub pending_fds : Connection → List ℕ
pending_fds c = drop c.input_fd_cursor c.input_fds

-- `input_bytes` counts the stream, and the offsets stay inside the first chunk and the descriptors.
pub record IsValid (c : Connection) : Type 0 where
  pub counted : c.input_bytes ≡ length (input c)
  pub in_front : c.input_start ≤ front_size c.input_chunks
  pub in_fds : c.input_fd_cursor ≤ length c.input_fds

get_or-append :
    (xs ys : List ℕ) (i : ℕ)
    → get_or (xs ++ ys) i 0
      ≡ (if ltb i (length xs) then get_or xs i 0 else get_or ys (i - length xs) 0)
get_or-append [] ys i = ground arith
get_or-append (x ∷ xs) ys zero = ground arith
get_or-append (x ∷ xs) ys (suc i) = ground (arith, get_or-append xs ys i)

byte_in-concat :
    (chunks : List (List ℕ)) (pos : ℕ) → byte_in chunks pos ≡ get_or (concat chunks) pos 0
unfolding byte_in
byte_in-concat [] pos = refl
byte_in-concat (chunk ∷ rest) pos =
    rw (byte_in-concat rest (pos - length chunk)) (sym (get_or-append chunk (concat rest) pos))

pub get_or-drop : (n i : ℕ) (xs : List ℕ) → get_or (drop n xs) i 0 ≡ get_or xs (n + i) 0
get_or-drop zero i xs = ap (λ k. get_or xs k 0) (omega arith)
get_or-drop (suc n) i [] = refl
get_or-drop (suc n) i (x ∷ xs) =
    get_or-drop n i xs
    ∙ ap (λ k. get_or (x ∷ xs) k 0) (let e : suc (n + i) ≡ suc n + i = omega arith in e)

-- A byte by its position is that byte of the stream.
pub byte_at-input : (c : Connection) (i : ℕ) → byte_at c i ≡ get_or (input c) i 0
unfolding byte_at
byte_at-input c i =
    byte_in-concat c.input_chunks (i + c.input_start)
    ∙ ap (λ k. get_or (concat c.input_chunks) k 0) (omega arith)
    ∙ sym (get_or-drop c.input_start i (concat c.input_chunks))

drop_cons : (n : ℕ) (xs : List ℕ) → n < length xs → drop n xs ≡ get_or xs n 0 ∷ drop (n + 1) xs
drop_cons n [] h = elim h [ ]
drop_cons zero (x ∷ xs) h = refl
drop_cons (suc n) (x ∷ xs) h =
    drop_cons n xs (omega arith)
    ∙ ap (λ k. get_or xs n 0 ∷ drop k (x ∷ xs)) (let e : suc (n + 1) ≡ suc n + 1 = omega arith in e)

-- The copy of a message is that part of the stream.
pub linearize-input :
    (c : Connection) (base count : ℕ)
    → base + count ≤ length (input c)
    → linearize c base count ≡ take count (drop base (input c))
unfolding linearize
linearize-input c base zero h = refl
linearize-input c base (suc count) h = rw (
  drop_cons base (input c) (omega arith),
  byte_at-input c base,
  linearize-input c (base + 1) count (omega arith),
)

take-append_le : (n : ℕ) (xs ys : List ℕ) → n ≤ length xs → take n (xs ++ ys) ≡ take n xs
take-append_le zero xs ys h = refl
take-append_le (suc n) [] ys h = elim h [ ]
take-append_le (suc n) (x ∷ xs) ys h = ap (◌∷◌ x) (take-append_le n xs ys (omega arith))

pub drop-append_le : (n : ℕ) (xs ys : List ℕ) → n ≤ length xs → drop n (xs ++ ys) ≡ drop n xs ++ ys
drop-append_le zero xs ys h = refl
drop-append_le (suc n) [] ys h = elim h [ ]
drop-append_le (suc n) (x ∷ xs) ys h = drop-append_le n xs ys (omega arith)

pub drop_beyond :
    (n : ℕ) (xs ys : List ℕ) → length xs ≤ n → drop n (xs ++ ys) ≡ drop (n - length xs) ys
drop_beyond n [] ys h = ap (λ k. drop k ys) (omega arith)
drop_beyond zero (x ∷ xs) ys h = absurd (omega arith)
drop_beyond (suc n) (x ∷ xs) ys h =
    drop_beyond n xs ys (omega arith)
    ∙ ap (λ k. drop k ys) (let e : n - length xs ≡ suc n - suc (length xs) = omega arith in e)

-- A view into the first chunk is that part of the stream, when the chunk reaches so far.
view-front :
    (chunks : List (List ℕ)) (at count : ℕ)
    → at + count ≤ front_size chunks
    → take count (drop at (front chunks)) ≡ take count (drop at (concat chunks))
view-front [] at count h = refl
view-front (chunk ∷ rest) at count h =
    sym (take-append_le count (drop at chunk) (concat rest) (omega (arith, length-drop at chunk)))
    ∙ ap (take count) (sym (drop-append_le at chunk (concat rest) (omega arith)))

-- Either way the body of a message is what follows its header in the stream.
pub message_body-input :
    (c : Connection) (size : ℕ)
    → IsValid c
    → 8 ≤ size
    → size ≤ length (input c)
    → message_body c size ≡ take (size - 8) (drop 8 (input c))
unfolding message_body
message_body-input c size v big fits =
    elim (Bool-cases (leb size (front_size c.input_chunks - c.input_start))) [
      | inl e ↦ rw e (
          view-front c.input_chunks (c.input_start + 8) (size - 8) (room e)
          ∙ ap (take (size - 8)) (sym (drop-drop c.input_start 8 (concat c.input_chunks))))
      | inr e ↦ rw e (linearize-input c 8 (size - 8) (omega arith))
    ]
  where
    room :
        leb size (front_size c.input_chunks - c.input_start) ≡ true
        → c.input_start + 8 + (size - 8) ≤ front_size c.input_chunks
    room e = omega (arith, leb→le _ _ e, v.in_front)
