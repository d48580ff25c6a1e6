-- ===== src/Wire/Connection/Delivery.antt =====
-- The loopback flush on the streams of the two ends.
use zwwm.Common.{
  ℕ, ◌+◌, ◌≤◌, ◌≡◌, refl, sym, ap, ◌∙◌, ◌≢◌, arith, true, none, List, [], ◌∷◌, ◌++◌, length, drop,
  length-append, append_assoc,
}
use zwwm.Wire.Connection.{front_size, is_alive}
use zwwm.Wire.Connection.Loopback.{Link, hand_over, flush_loopback, notify_data_ready, total_size}
use zwwm.Wire.Connection.Stream.{concat, input, pending_fds, IsValid, drop-append_le}

pub concat-append : (xs ys : List (List ℕ)) → concat (xs ++ ys) ≡ concat xs ++ concat ys
concat-append [] ys = refl
concat-append (x ∷ xs) ys =
    ap (◌++◌ x) (concat-append xs ys) ∙ sym (append_assoc x (concat xs) (concat ys))

total_size-concat : (xs : List (List ℕ)) → total_size xs ≡ length (concat xs)
total_size-concat [] = refl
total_size-concat (x ∷ xs) = omega (arith, length-append x (concat xs), total_size-concat xs)

pub front_size-concat : (xs : List (List ℕ)) → front_size xs ≤ length (concat xs)
front_size-concat [] = omega arith
front_size-concat (x ∷ xs) = omega (arith, length-append x (concat xs))

pub front_size-append :
    (n : ℕ) (xs ys : List (List ℕ)) → n ≤ front_size xs → n ≤ front_size (xs ++ ys)
front_size-append n [] ys h = omega arith
front_size-append n (x ∷ xs) ys h = h

-- The peer's stream grows by exactly the queued bytes, its descriptors by the queued ones, in order,
-- and its invariant holds on.
pub hand_over_lem :
    (l : Link)
    → IsValid l.far
    → (input (hand_over l).far ≡ input l.far ++ concat l.near.output_chunks)
      × (pending_fds (hand_over l).far ≡ pending_fds l.far ++ l.near.output_fds)
      × IsValid (hand_over l).far
unfolding hand_over
hand_over_lem l v = (
  stream,
  fds,
  record { counted = counts; in_front = front_size-append _ _ _ v.in_front; in_fds = room },
)
  where
    stream : input (hand_over l).far ≡ input l.far ++ concat l.near.output_chunks
    stream =
        ap (drop l.far.input_start) (concat-append l.far.input_chunks l.near.output_chunks)
        ∙ drop-append_le l.far.input_start (concat l.far.input_chunks) _
            (omega (arith, v.in_front, front_size-concat l.far.input_chunks))

    fds : pending_fds (hand_over l).far ≡ pending_fds l.far ++ l.near.output_fds
    fds = drop-append_le l.far.input_fd_cursor l.far.input_fds l.near.output_fds v.in_fds

    counts : l.far.input_bytes + total_size l.near.output_chunks ≡ length (input (hand_over l).far)
    counts = omega (
      arith,
      v.counted,
      total_size-concat l.near.output_chunks,
      ap length stream,
      length-append (input l.far) (concat l.near.output_chunks),
    )

    room : l.far.input_fd_cursor ≤ length (l.far.input_fds ++ l.near.output_fds)
    room = omega (arith, v.in_fds, length-append l.far.input_fds l.near.output_fds)

-- On a live link with something queued the flush succeeds, and without a reader it is the hand-over.
pub flush_loopback_live :
    (fuel : ℕ) (l : Link)
    → is_alive l.near.link_alive ≡ true
    → l.near.has_peer ≡ true
    → l.near.output_chunks ≢ []
    → flush_loopback fuel none l ≡ (true, hand_over l)
unfolding flush_loopback notify_data_ready
flush_loopback_live fuel l alive peer queued = ground arith
