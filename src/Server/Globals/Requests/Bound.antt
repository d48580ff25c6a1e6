-- ===== src/Server/Globals/Requests/Bound.antt =====
-- A bind request for a global of the display.
use zwwm.Common.{
  ℕ, ◌≡◌, ◌≢◌, ◌≤◌, refl, sym, arith, Bool, true, Option, some, List, [], append-nil, ok,
}
use zwwm.Server.{Interface, Client, Resource}
use zwwm.Server.Globals.{BindHandler, Global, Display, add_global}
use zwwm.Server.Globals.Calls.{new_global}
use zwwm.Server.Globals.Lifecycle.{add_global-binds}
use zwwm.Server.Globals.Names.{IsNamed}
use zwwm.Wire.Args.{AllFit, encode_all}
use zwwm.Wire.Args.RoundTrip.{past_all, read_args_lem}
use zwwm.Wire.Parser
use zwwm.Wire.Connection.{Connection}
use zwwm.Wire.Error.{Error}
use zwwm.Wire.Parser.{
  Outcome, Reader, ◌>>=◌, pure, MessageParser, read_uint, read_string, read_new_id, is_null_string,
  ensure,
}
use zwwm.Server.Globals.Requests.{RegistryTexts, registry_handler, handle_read, bind_args}
use zwwm.Server.Globals.Requests.Reading.{read_bind_lem}

-- A bind request for a global that was added, as the wire format writes it, runs the bind handler with the
-- version and the id, for every client that sees the global and every version up to the one published.
-- The parser has then read the request.
pub registry_handler-binds :
    (flush : Connection → Connection) (visible : Client → Global → Bool) (what : Error → List ℕ)
    (texts : RegistryTexts) (interface : Option Interface) (version : ℕ) (bind : BindHandler)
    (d : Display) (name : ℕ) (e : Display)
    → IsNamed d
    → add_global flush visible interface version bind d ≡ ok (name, e)
    → (which : Interface) × (interface ≡ some which)
      × ((c : Client) (registry : Resource) (opcode wanted id : ℕ) (fds : List ℕ)
          → visible c (new_global which version name bind) ≡ true
          → wanted ≢ 0
          → wanted ≤ version
          → AllFit (bind_args name which.name wanted id)
          → registry_handler flush visible what texts e registry opcode
              (zwwm.Wire.Parser.make (encode_all (bind_args name which.name wanted id)) fds)
              c
            ≡ record {
              failure = (bind wanted id c).0;
              parser =
                  past_all
                    (bind_args name which.name wanted id)
                    (zwwm.Wire.Parser.make (encode_all (bind_args name which.name wanted id)) fds);
              client = (bind wanted id c).1;
            })
unfolding registry_handler handle_read zwwm.Wire.Parser.make
registry_handler-binds flush visible what texts interface version bind d name e i h =
    let (which, given, fresh, binds) =
      add_global-binds flush visible interface version bind d name e i h in
    (
      which,
      given,
      λ c registry opcode wanted id fds sees positive low fit.
          let args = bind_args name which.name wanted id in
          let p : MessageParser = zwwm.Wire.Parser.make (encode_all args) fds in
          let read = read_bind_lem name which.name wanted id p (past_all args p) (
            read_args_lem args p [] fds fit refl (omega arith) (sym (append-nil (encode_all args)))
              refl) in
          rw (read, binds c wanted sees positive low) refl,
    )
