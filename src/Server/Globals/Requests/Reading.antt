-- ===== src/Server/Globals/Requests/Reading.antt =====
-- The arguments of a bind request, as its handler reads them and by their types.
use zwwm.Common.{ℕ, ◌≡◌, refl, ap, ◌∙◌, arith, Bool, true, false, List, [], ◌∷◌, if◌then◌else◌}
use zwwm.Wire.Args.{Arg}
use zwwm.Wire.Args.Read.{read_args, read_arg, read_nullable}
use zwwm.Wire.Parser.Reads.{bind_ok}
use zwwm.Wire.Signature.{ArgType}
use zwwm.Wire.Parser.{
  Outcome, Reader, ◌>>=◌, MessageParser, read_uint, read_string, read_new_id, is_null_string,
  ensure,
}
use zwwm.Server.Globals.Requests.{read_bind}

is_null_string_stays : (p q : MessageParser) (b : Bool) → is_null_string p ≡ Outcome.ok b q → q ≡ p
unfolding is_null_string ensure
is_null_string_stays p q b h = ground arith

outcome_inv :
    {A B : Type 0} (m : Reader A) (f : A → Reader B) (p q : MessageParser) (b : B) (o : Outcome A)
    → m p ≡ o
    → (elim o as (λ x. Outcome B) [
      | Outcome.ok a r ↦ f a r
      | Outcome.throw e r ↦ Outcome.throw e r
    ])
      ≡ Outcome.ok b q
    → (a : A) × (r : MessageParser) × (m p ≡ Outcome.ok a r) × (f a r ≡ Outcome.ok b q)
outcome_inv m f p q b (Outcome.ok a r) e h = (a, r, e, h)
outcome_inv m f p q b (Outcome.throw t r) e h = absurd (cc h)

bind_inv :
    {A B : Type 0} (m : Reader A) (f : A → Reader B) (p q : MessageParser) (b : B)
    → (m >>= f) p ≡ Outcome.ok b q
    → (a : A) × (r : MessageParser) × (m p ≡ Outcome.ok a r) × (f a r ≡ Outcome.ok b q)
bind_inv m f p q b h = outcome_inv m f p q b (m p) refl h

args_inv :
    (t : ArgType) (ts : List ArgType) (a : Arg) (rest : List Arg) (p q : MessageParser)
    → read_args (t ∷ ts) p ≡ Outcome.ok (a ∷ rest) q
    → (r : MessageParser) × (read_arg t p ≡ Outcome.ok a r) × (read_args ts r ≡ Outcome.ok rest q)
unfolding read_args
args_inv t ts a rest p q h =
    let (b, r, first, h1) = bind_inv (read_arg t) _ p q (a ∷ rest) h in
    let (bs, s, others, h2) = bind_inv (read_args ts) _ r q (a ∷ rest) h1 in (r, cc, cc)

uint_inv :
    (n : ℕ) (p q : MessageParser)
    → read_arg ArgType.uint32 p ≡ Outcome.ok (Arg.uint n) q
    → read_uint p ≡ Outcome.ok n q
unfolding read_arg
uint_inv n p q h = let (m, r, first, h1) = bind_inv read_uint _ p q (Arg.uint n) h in cc

new_id_inv :
    (n : ℕ) (p q : MessageParser)
    → read_arg ArgType.new_id p ≡ Outcome.ok (Arg.new_id n) q
    → read_new_id p ≡ Outcome.ok n q
unfolding read_arg
new_id_inv n p q h = let (m, r, first, h1) = bind_inv read_new_id _ p q (Arg.new_id n) h in cc

string_inv :
    (s : List ℕ) (p q : MessageParser)
    → read_arg ArgType.string p ≡ Outcome.ok (Arg.string s) q
    → read_string p ≡ Outcome.ok s q
unfolding read_arg read_nullable
string_inv s p q h =
    let (null, r, first, h1) = bind_inv is_null_string _ p q (Arg.string s) h in
    let (t, u, second, h2) = bind_inv read_string _ r q (Arg.string s) h1 in
    let same : r ≡ p = is_null_string_stays p r null first in
    finish null t u (rw (← same) second) h2
  where
    finish :
        (null : Bool) (t : List ℕ) (u : MessageParser)
        → read_string p ≡ Outcome.ok t u
        → Outcome.ok (if null then Arg.null_string else Arg.string t) u
          ≡ Outcome.ok (Arg.string s) q
        → read_string p ≡ Outcome.ok s q
    finish true t u e k = cc
    finish false t u e k = cc

nothing_read : (p q : MessageParser) → read_args [] p ≡ Outcome.ok [] q → p ≡ q
unfolding read_args
nothing_read p q h = cc

-- A reading of the four types reads what the handler reads.
pub read_bind_lem :
    (name : ℕ) (iface : List ℕ) (version id : ℕ) (p q : MessageParser)
    → read_args (ArgType.uint32 ∷ ArgType.string ∷ ArgType.uint32 ∷ ArgType.new_id ∷ []) p
      ≡ Outcome.ok (Arg.uint name ∷ Arg.string iface ∷ Arg.uint version ∷ Arg.new_id id ∷ []) q
    → read_bind p ≡ Outcome.ok (name, iface, version, id) q
unfolding read_bind
read_bind_lem name iface version id p q h =
    let (p1, e1, h1) = args_inv ArgType.uint32 _ (Arg.uint name) _ p q h in
    let (p2, e2, h2) = args_inv ArgType.string _ (Arg.string iface) _ p1 q h1 in
    let (p3, e3, h3) = args_inv ArgType.uint32 _ (Arg.uint version) _ p2 q h2 in
    let (p4, e4, h4) = args_inv ArgType.new_id _ (Arg.new_id id) _ p3 q h3 in
    bind_ok read_uint _ (uint_inv name p p1 e1)
    ∙ bind_ok read_string _ (string_inv iface p1 p2 e2)
    ∙ bind_ok read_uint _ (uint_inv version p2 p3 e3)
    ∙ bind_ok read_new_id _ (new_id_inv id p3 p4 e4)
    ∙ ap (Outcome.ok (name, iface, version, id)) (nothing_read p4 q h4)
