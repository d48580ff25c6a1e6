-- ===== src/Wire/Connection/Sending.antt =====
-- Connection::flush on a socket: every byte and every descriptor goes out once and in order.
use zwwm.Common.{
  ℕ, zero, suc, ◌+◌, ◌-◌, ◌≤◌, ◌<◌, ◌≡◌, refl, sym, ap, ◌∙◌, arith, List, [], ◌∷◌, ◌++◌, length,
  drop, take, ltb, ◌==◌, Bool-cases, inl, inr, length-append, append_assoc, take-append-drop,
}
use zwwm.Wire.Bytes.{drop-drop, drop-nil, drop-append}
use zwwm.Wire.Connection.{Connection, front_size}
use zwwm.Wire.Connection.Socket.{
  Packet, gather, offered, packet, sent_packet, drop_sent, max_fds_per_send,
}
use zwwm.Wire.Connection.Stream.{concat, output, drop_beyond, drop-append_le}

-- Every queued chunk has a byte, and the offset points at one.
abbrev pub Solid : List (List ℕ) → Type 0
Solid [] = Unit
Solid (chunk ∷ rest) = (0 < length chunk) × Solid rest

abbrev pub Inside : ℕ → List (List ℕ) → Type 0
Inside start [] = start ≡ 0
Inside start (chunk ∷ rest) = start < length chunk

pub record IsSendable (c : Connection) : Type 0 where
  pub solid : Solid c.output_chunks
  pub inside : Inside c.output_start c.output_chunks

Inside-zero : (chunks : List (List ℕ)) → Solid chunks → Inside 0 chunks
Inside-zero [] s = refl
Inside-zero (chunk ∷ rest) s = s.0

-- Dropping what was sent, on the stream.
record Dropped (sent start : ℕ) (chunks : List (List ℕ)) (r : List (List ℕ) × ℕ) : Type 0 where
  stream : drop r.1 (concat r.0) ≡ drop (start + sent) (concat chunks)
  solid : Solid r.0
  inside : Inside r.1 r.0

drop_sent-Dropped :
    (sent start : ℕ) (chunks : List (List ℕ))
    → Solid chunks
    → Inside start chunks
    → Dropped sent start chunks (drop_sent sent start chunks)
unfolding drop_sent
drop_sent-Dropped sent start [] s i = record {
  stream = drop-nil start ∙ sym (drop-nil (start + sent));
  solid = tt;
  inside = i;
}
drop_sent-Dropped sent start (chunk ∷ rest) s i =
    let left : ℕ = length chunk - start in
    let later : Dropped (sent - left) 0 rest (drop_sent (sent - left) 0 rest) =
      drop_sent-Dropped (sent - left) 0 rest s.1 (Inside-zero rest s.1) in
    elim (Bool-cases (ltb sent (length chunk - start))) [
      | inl e ↦ rw e (record { stream = refl; solid = s; inside = ground arith })
      | inr e ↦ elim (Bool-cases (sent - (length chunk - start) == 0)) [
        | inl d ↦
            rw (e, d)
              (record {
                stream = past 0 (ground arith);
                solid = s.1;
                inside = Inside-zero rest s.1;
              })
        | inr d ↦
            rw (e, d)
              (record {
                stream = later.stream ∙ past (0 + (sent - (length chunk - start))) (ground arith);
                solid = later.solid;
                inside = later.inside;
              })
      ]
    ]
  where
    past :
        (k : ℕ)
        → start + sent ≡ length chunk + k
        → drop k (concat rest) ≡ drop (start + sent) (chunk ++ concat rest)
    past k h =
        ap (λ n. drop n (concat rest)) (let e : k ≡ start + sent - length chunk = omega arith in e)
        ∙ sym (drop_beyond (start + sent) chunk (concat rest) (omega arith))

-- A prefix of a prefix.
gather-prefix :
    (count : ℕ) (chunks : List (List ℕ))
    → (more : List ℕ) × (concat chunks ≡ gather count chunks ++ more)
unfolding gather
gather-prefix zero chunks = (concat chunks, refl)
gather-prefix (suc count) [] = ([], refl)
gather-prefix (suc count) (chunk ∷ rest) =
    let (more, e) = gather-prefix count rest in
    (more, ap (◌++◌ chunk) e ∙ sym (append_assoc chunk (gather count rest) more))

pub gather_reaches :
    (count : ℕ) (chunks : List (List ℕ)) → front_size chunks ≤ length (gather (suc count) chunks)
unfolding gather
gather_reaches count [] = omega arith
gather_reaches count (chunk ∷ rest) = omega (arith, length-append chunk (gather count rest))

pub Inside-front :
    (start : ℕ) (chunks : List (List ℕ)) → Inside start chunks → start ≤ front_size chunks
Inside-front start [] i = omega arith
Inside-front start (chunk ∷ rest) i = omega arith

shorter :
    (n : ℕ) (xs all : List ℕ)
    → (more : List ℕ) × (all ≡ xs ++ more)
    → (more : List ℕ) × (all ≡ take n xs ++ more)
shorter n xs all (more, e) = (
  drop n xs ++ more,
  e ∙ ap (λ k. k ++ more) (sym (take-append-drop n xs)) ∙ append_assoc (take n xs) (drop n xs) more,
)

payload_prefix :
    (c : Connection)
    → IsSendable c
    → (more : List ℕ) × (output c ≡ drop c.output_start (gather 64 c.output_chunks) ++ more)
payload_prefix c v =
    let (more, e) = gather-prefix 64 c.output_chunks in
    (
      more,
      ap (drop c.output_start) e
          ∙ drop-append_le c.output_start (gather 64 c.output_chunks) more (
              omega (
                arith,
                gather_reaches 63 c.output_chunks,
                Inside-front c.output_start c.output_chunks v.inside,
              )),
    )

offered-prefix : (c : Connection) → IsSendable c → (more : List ℕ) × (output c ≡ offered c ++ more)
unfolding offered
offered-prefix c v = elim (Bool-cases (ltb max_fds_per_send (length c.output_fds))) [
  | inl e ↦ rw e (shorter 1 _ _ (payload_prefix c v))
  | inr e ↦ rw e (payload_prefix c v)
]

prefix_rest : (xs all more : List ℕ) → all ≡ xs ++ more → all ≡ xs ++ drop (length xs) all
prefix_rest xs all more e =
    e ∙ ap (◌++◌ xs) (sym (drop-append xs more) ∙ ap (drop (length xs)) (sym e))

-- One packet takes its bytes off the front of the output and its descriptors off their queue, and
-- they are closed.
pub record Sends (p : Packet) (c d : Connection) : Type 0 where
  pub bytes : output c ≡ p.payload ++ output d
  pub fds : c.output_fds ≡ p.fds ++ d.output_fds
  pub closes : d.closed ≡ c.closed ++ p.fds
  pub sendable : IsSendable d

pub sent_packet-Sends :
    (k : ℕ) (c : Connection) → IsSendable c → Sends (packet k c) c (sent_packet (packet k c) c)
unfolding sent_packet packet
sent_packet-Sends k c v =
    let p : Packet = packet k c in
    let (more, e) = shorter (k + 1) (offered c) (output c) (offered-prefix c v) in
    let d = drop_sent-Dropped (length p.payload) c.output_start c.output_chunks v.solid v.inside in
    record {
      bytes =
          prefix_rest p.payload (output c) more e
          ∙ ap (◌++◌ p.payload)
              (drop-drop c.output_start (length p.payload) (concat c.output_chunks) ∙ sym d.stream);
      fds = sym (take-append-drop max_fds_per_send c.output_fds);
      closes = refl;
      sendable = record { solid = d.solid; inside = d.inside };
    }
