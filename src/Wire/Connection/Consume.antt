-- ===== src/Wire/Connection/Consume.antt =====
-- Connection::consume on the byte stream.
use zwwm.Common.{
  ℕ, zero, suc, ◌+◌, ◌-◌, ◌≤◌, ◌≡◌, refl, sym, ap, ◌∙◌, arith, List, [], ◌∷◌, length, drop, leb,
  leb→le, Bool-cases, inl, inr, length-drop,
}
use zwwm.Wire.Bytes.{drop-drop, drop-nil}
use zwwm.Wire.Connection.{Connection, front_size, pop_chunks, consume, fds_used}
use zwwm.Wire.Connection.Stream.{concat, input, pending_fds, IsValid, drop_beyond}

-- Dropping used chunks leaves the stream as it is, and the offset inside the first chunk.
pop_chunks_lem :
    (chunks : List (List ℕ)) (start : ℕ)
    → (drop (pop_chunks chunks start).1 (concat (pop_chunks chunks start).0)
        ≡ drop start (concat chunks))
      × ((pop_chunks chunks start).1 ≤ front_size (pop_chunks chunks start).0)
unfolding pop_chunks
pop_chunks_lem [] start = (sym (drop-nil start), omega arith)
pop_chunks_lem (chunk ∷ rest) start =
    ground
      (arith, pop_chunks_lem rest (start - length chunk), drop_beyond start chunk (concat rest))

drop_all : (n : ℕ) (xs : List ℕ) → length xs ≤ n → drop n xs ≡ []
drop_all n [] h = drop-nil n
drop_all zero (x ∷ xs) h = absurd (omega arith)
drop_all (suc n) (x ∷ xs) h = drop_all n xs (omega arith)

-- When all descriptors are taken the queue is emptied, and nothing else changes.
fds_used_lem :
    (c : Connection)
    → (pending_fds (fds_used c) ≡ pending_fds c)
      × ((fds_used c).input_fd_cursor ≤ length (fds_used c).input_fds)
      × ((fds_used c).input_chunks ≡ c.input_chunks)
      × ((fds_used c).input_start ≡ c.input_start)
      × ((fds_used c).input_bytes ≡ c.input_bytes)
unfolding fds_used
fds_used_lem c = elim (Bool-cases (leb (length c.input_fds) c.input_fd_cursor)) [
  | inl e ↦
      rw e
        (sym (drop_all c.input_fd_cursor c.input_fds (leb→le _ _ e)), omega arith, refl, refl, refl)
  | inr e ↦ rw e (refl, ground arith, refl, refl, refl)
]

popped : ℕ → ℕ → Connection → Connection
popped size fds_consumed c = record c {
  input_bytes = c.input_bytes - size;
  input_chunks = (pop_chunks c.input_chunks (c.input_start + size)).0;
  input_start = (pop_chunks c.input_chunks (c.input_start + size)).1;
  input_fd_cursor = c.input_fd_cursor + fds_consumed;
}

consume_lem : (size fds : ℕ) (c : Connection) → consume size fds c ≡ fds_used (popped size fds c)
unfolding consume popped
consume_lem size fds c = refl

popped-input : (size fds : ℕ) (c : Connection) → input (popped size fds c) ≡ drop size (input c)
unfolding popped
popped-input size fds c =
    (pop_chunks_lem c.input_chunks (c.input_start + size)).0
    ∙ sym (drop-drop c.input_start size (concat c.input_chunks))

popped_lem :
    (size fds : ℕ) (c : Connection)
    → ((popped size fds c).input_bytes ≡ c.input_bytes - size)
      × ((popped size fds c).input_start ≤ front_size (popped size fds c).input_chunks)
unfolding popped
popped_lem size fds c = (refl, (pop_chunks_lem c.input_chunks (c.input_start + size)).1)

-- Consuming a message drops its bytes from the stream and its descriptors from those that wait, and
-- keeps the invariant.
pub consume-input :
    (c : Connection) (size fds : ℕ)
    → IsValid c
    → size ≤ length (input c)
    → (input (consume size fds c) ≡ drop size (input c))
      × (pending_fds (consume size fds c) ≡ drop fds (pending_fds c))
      × IsValid (consume size fds c)
consume-input c size fds v fits = rw (consume_lem size fds c) (stream, waiting, valid)
  where
    q : Connection
    q = popped size fds c

    stream : input (fds_used q) ≡ drop size (input c)
    stream = cc ((fds_used_lem q).2, (fds_used_lem q).3, popped-input size fds c)

    waiting : pending_fds (fds_used q) ≡ drop fds (pending_fds c)
    waiting =
        (fds_used_lem q).0 ∙ unfold popped in sym (drop-drop c.input_fd_cursor fds c.input_fds)

    valid : IsValid (fds_used q)
    valid = record {
      counted = omega (
        arith,
        (fds_used_lem q).4,
        popped_lem size fds c,
        ap length stream,
        length-drop size (input c),
        v.counted,
      );
      in_front = rw ((fds_used_lem q).2, (fds_used_lem q).3) (popped_lem size fds c).1;
      in_fds = (fds_used_lem q).1;
    }
