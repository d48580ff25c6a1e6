-- ===== src/Wire/Parser/Safety.antt =====
-- What MessageParser may touch: skipping and discarding arguments stays inside the body, forward,
-- and closes the descriptors that it takes, whether it ends normally or throws.
use zwwm.Common.{
  ℕ, zero, suc, ◌+◌, ◌-◌, ◌*◌, ◌/◌, ◌≤◌, ◌≡◌, refl, sym, ap, ◌∙◌, arith, some, List, [], ◌∷◌, ◌++◌,
  length, drop, take, get_elem?, ltb, ◌==◌, if◌then◌else◌, Bool-cases, Option-cases, inl, inr,
  append_assoc, append-nil, get_or,
}
use zwwm.Wire.Builder.{contains_nul}
use zwwm.Wire.Signature.{ArgType, ArgSpec}
use zwwm.Wire.Parser.{
  MessageParser, Outcome, Reader, ◌>>=◌, ◌>>◌, pure, ensure, read_raw, align, finish_text,
  read_text, read_string, read_array, read_fd, close_fd, skip, remaining, advance,
}

-- The parser that an outcome leaves.
abbrev pub final : {A : Type 0} → Outcome A → MessageParser
final (Outcome.ok a q) = q
final (Outcome.throw e q) = q

pub record Moves (p q : MessageParser) : Type 0 where
  pub same_body : q.body ≡ p.body
  pub same_fds : q.fds ≡ p.fds
  pub forward : p.pos ≤ q.pos
  pub inside : q.pos ≤ length p.body
  pub taken : List ℕ
  pub fds_taken : drop p.fd_pos p.fds ≡ taken ++ drop q.fd_pos p.fds
  pub closes : q.closed ≡ p.closed ++ taken

Moves-none :
    (p : MessageParser) (k : ℕ) → p.pos ≤ k → k ≤ length p.body → Moves p (record p { pos = k })
Moves-none p k f h = record {
  same_body = refl;
  same_fds = refl;
  forward = f;
  inside = h;
  taken = [];
  fds_taken = refl;
  closes = sym (append-nil p.closed);
}

Moves-trans : (p q r : MessageParser) → Moves p q → Moves q r → Moves p r
Moves-trans p q r m n = record {
  same_body = n.same_body ∙ m.same_body;
  same_fds = n.same_fds ∙ m.same_fds;
  forward = omega (arith, m.forward, n.forward);
  inside = rw m.same_body at n.inside;
  taken = m.taken ++ n.taken;
  fds_taken =
      m.fds_taken
      ∙ ap (◌++◌ m.taken) (rw m.same_fds at n.fds_taken)
      ∙ sym (append_assoc m.taken n.taken (drop r.fd_pos p.fds));
  closes = n.closes ∙ ap (λ k. k ++ n.taken) m.closes ∙ append_assoc p.closed m.taken n.taken;
}

abbrev pub Safe : {A : Type 0} → Reader A → Type 0
Safe m = (p : MessageParser) → p.pos ≤ length p.body → Moves p (final (m p))

Safe-bind :
    {A B : Type 0} (m : Reader A) (f : A → Reader B)
    → Safe m
    → ((a : A) → Safe (f a))
    → Safe (m >>= f)
Safe-bind {A} {B} m f s t p h = go (m p) (s p h)
  where
    go :
        (o : Outcome A)
        → Moves p (final o)
        → Moves p (
            final {A = B}
              (elim o [ Outcome.ok a q ↦ f a q | Outcome.throw e q ↦ Outcome.throw e q ]))
    go (Outcome.ok a q) k =
        Moves-trans p q (final (f a q)) k (t a q (rw (ap length k.same_body) k.inside))
    go (Outcome.throw e q) k = k

Safe-pure : {A : Type 0} (a : A) → Safe (pure a)
Safe-pure a p h = Moves-none p p.pos (omega arith) h

Safe-ignore : {A : Type 0} (m : Reader A) → Safe m → Safe (m >>= λ _. pure tt)
Safe-ignore m s = Safe-bind m (λ _. pure tt) s (λ _. Safe-pure tt)

-- A step that is taken only where so many bytes are left.
after_ensure :
    {B : Type 0} (n : ℕ) (m : Reader B) (p : MessageParser)
    → p.pos ≤ length p.body
    → (p.pos + n ≤ length p.body → Moves p (final (m p)))
    → Moves p (final ((ensure n >> m) p))
unfolding ensure
after_ensure n m p h s = elim (Bool-cases (ltb (length p.body) (p.pos + n))) [
  | inl e ↦ rw (e, ensure, ◌>>=◌) (Moves-none p p.pos (omega arith) h)
  | inr e ↦ rw (e, ensure, ◌>>=◌) (s (ground arith))
]

read_raw-Safe : Safe read_raw
unfolding read_raw
read_raw-Safe p h = after_ensure 4 _ p h (λ room. Moves-none p (p.pos + 4) (omega arith) room)

align-Safe : Safe align
unfolding align
align-Safe p h =
    after_ensure ((p.pos + 3) / 4 * 4 - p.pos) _ p h
      λ room. Moves-none p ((p.pos + 3) / 4 * 4) (omega arith) (omega (arith, room))

-- A view of `n` bytes and the alignment behind it.
after_view :
    {B : Type 0} (n : ℕ) (b : B) (p : MessageParser)
    → p.pos + n ≤ length p.body
    → Moves p (final ((align >>= λ _. pure b) (advance n p)))
after_view n b p room =
    Moves-trans p (advance n p) _ (Moves-none p (p.pos + n) (omega arith) room)
      (Safe-bind align (λ _. pure b) align-Safe (λ _. Safe-pure b) (advance n p) room)

after_text :
    (n : ℕ) (text : List ℕ) (p : MessageParser)
    → p.pos + n ≤ length p.body
    → Moves p (final (finish_text n text p))
unfolding finish_text
after_text n text p room = elim (Bool-cases (get_or text (n - 1) 0 == 0)) [
  | inl e ↦ elim (Bool-cases (contains_nul (take (n - 1) text))) [
    | inl d ↦ rw (e, d) (Moves-none p p.pos (omega arith) (omega arith))
    | inr d ↦ rw (e, d) (after_view n (take (n - 1) text) p room)
  ]
  | inr e ↦ rw e (Moves-none p p.pos (omega arith) (omega arith))
]

read_string-Safe : Safe read_string
unfolding read_string read_text
read_string-Safe = Safe-bind read_raw _ read_raw-Safe rest
  where
    rest : (n : ℕ) → Safe (if n == 0 then pure [] else read_text n)
    rest n p h = elim (Bool-cases (n == 0)) [
      | inl e ↦ rw e (Moves-none p p.pos (omega arith) h)
      | inr e ↦ rw e (after_ensure n _ p h (after_text n (take n (remaining p)) p))
    ]

read_array-Safe : Safe read_array
unfolding read_array
read_array-Safe =
    Safe-bind read_raw _ read_raw-Safe
      λ n p h. after_ensure n _ p h (after_view n (take n (remaining p)) p)

drop_next : (n fd : ℕ) (xs : List ℕ) → get_elem? xs n ≡ some fd → drop n xs ≡ fd ∷ drop (n + 1) xs
drop_next n fd [] e = cc
drop_next zero fd (x ∷ xs) e = ground arith
drop_next (suc n) fd (x ∷ xs) e =
    drop_next n fd xs e
    ∙ ap (λ k. fd ∷ drop k (x ∷ xs)) (let e' : suc (n + 1) ≡ suc n + 1 = omega arith in e')

close_fd-Safe : Safe close_fd
unfolding close_fd read_fd
close_fd-Safe p h = elim (Option-cases (get_elem? p.fds p.fd_pos)) [
  | inl e ↦ rw (e, read_fd, ◌>>=◌) (Moves-none p p.pos (omega arith) h)
  | inr (fd, e) ↦
      rw (e, read_fd, ◌>>=◌)
        (record {
          same_body = refl;
          same_fds = refl;
          forward = omega arith;
          inside = h;
          taken = fd ∷ [];
          fds_taken = drop_next p.fd_pos fd p.fds e;
          closes = refl;
        })
]

-- Skipping an argument of any type keeps the parser inside the body and moves it forward only; what
-- it takes from the descriptors it closes. This holds whether it succeeds or throws.
pub skip-Safe : (spec : ArgSpec) → Safe (skip spec)
unfolding skip
skip-Safe spec = by_type spec.type
  where
    by_type : (t : ArgType) → Safe (skip (record { type = t; nullable = spec.nullable }))
    by_type ArgType.string = Safe-ignore read_string read_string-Safe
    by_type ArgType.array = Safe-ignore read_array read_array-Safe
    by_type ArgType.fd = close_fd-Safe
    by_type _ = Safe-ignore read_raw read_raw-Safe
