-- ===== src/Server/Globals/Requests.antt =====
-- The handler of wl_registry in the constructor of Display, zwayland/server/src/display.cpp.
pub mod Reading
pub mod Bound
use zwwm.Common.{
  ℕ, ◌+◌, ◌≡◌, ◌≢◌, ◌≤◌, refl, sym, ap, ◌∙◌, arith, Bool, true, false, not, Option, none, some,
  List, [], ◌∷◌, ◌++◌, map, length, ◌==◌, if◌then◌else◌, Bool-cases, inl, inr, append-nil, ok,
}
use zwwm.Server.{Interface, Client, Resource, Handler, Handled, Step, post_error}
use zwwm.Server.Globals.{BindHandler, Global, Display, Binding, find_binding, add_global}
use zwwm.Server.Globals.Calls.{new_global}
use zwwm.Server.Globals.Lifecycle.{add_global-binds}
use zwwm.Server.Globals.Names.{IsNamed}
use zwwm.Wire.Args.{Arg, AllFit, encode_all}
use zwwm.Wire.Args.Read.{read_args, read_arg, read_nullable}
use zwwm.Wire.Args.RoundTrip.{past_all, read_args_lem}
use zwwm.Wire.Parser.Reads.{bind_ok}
use zwwm.Wire.Parser
use zwwm.Wire.Connection.{Connection}
use zwwm.Wire.Error.{Error}
use zwwm.Wire.Signature.{ArgType}
use zwwm.Wire.Parser.{
  Outcome, Reader, ◌>>=◌, pure, MessageParser, read_uint, read_string, read_new_id, is_null_string,
  ensure,
}

-- The name, the interface, the version and the id of a request.
unfoldable pub read_bind : Reader (ℕ × List ℕ × ℕ × ℕ)
read_bind = do
  name ← read_uint
  iface ← read_string
  version ← read_uint
  id ← read_new_id
  pure (name, iface, version, id)

-- The texts of the errors.
pub record RegistryTexts : Type 0 where
  pub mismatch : List ℕ
  pub invalid_version : List ℕ
  pub unknown : List ℕ

-- `what` is `what()` of an exception.
module _ (flush : Connection → Connection) (visible : Client → Global → Bool)
    (what : Error → List ℕ) where
  abbrev pub posted : MessageParser → Step → Handled
  posted q (Step.thrown e d) = record { failure = some (what e); parser = q; client = d }
  posted q (Step.stop d) = record { failure = none; parser = q; client = d }
  posted q (Step.next d) = record { failure = none; parser = q; client = d }

  abbrev pub answer : RegistryTexts → Resource → ℕ → ℕ → MessageParser → Client → Binding → Handled
  answer texts registry version id q c (Binding.bound g) =
      let (failure, d) = g.bind version id c in record { failure = failure; parser = q; client = d }
  answer texts registry version id q c Binding.interface_mismatch =
      posted q (post_error flush registry.id 0 texts.mismatch c)
  answer texts registry version id q c Binding.invalid_version =
      posted q (post_error flush registry.id 0 texts.invalid_version c)
  answer texts registry version id q c Binding.unknown_global =
      posted q (post_error flush registry.id 0 texts.unknown c)

  unfoldable pub handle_read :
      RegistryTexts → Display → Resource → Client → Outcome (ℕ × List ℕ × ℕ × ℕ) → Handled
  handle_read texts d registry c (Outcome.throw e q) = record {
    failure = some (what e);
    parser = q;
    client = c;
  }
  handle_read texts d registry c (Outcome.ok (name, iface, version, id) q) =
      answer texts registry version id q c (find_binding visible name iface version c d.globals)

  -- The opcode is not looked at.
  unfoldable pub registry_handler : RegistryTexts → Display → Resource → Handler
  registry_handler texts d registry opcode p c = handle_read texts d registry c (read_bind p)

-- The arguments of wl_registry.bind.
abbrev pub bind_args : ℕ → List ℕ → ℕ → ℕ → List Arg
bind_args name iface version id =
    Arg.uint name ∷ Arg.string iface ∷ Arg.uint version ∷ Arg.new_id id ∷ []
