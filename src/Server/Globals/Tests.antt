-- ===== src/Server/Globals/Tests.antt =====
-- Runs of the globals of a display on concrete inputs, and their theorems at such inputs.
use zwwm.Common.{
  ℕ, Bool, ◌≢◌, ◌≤◌, List, ◌+◌, ◌≡◌, refl, arith, true, false, none, some, ok, [], ◌∷◌,
}
use zwwm.Wire.Connection
use zwwm.Wire.Connection.{Connection, Message}
use zwwm.Wire.Connection.Socket.{Sent, flush_socket}
use zwwm.Server.{Interface, Resource, Client}
use zwwm.Server.Globals.{
  BindHandler, Global, Display, add_global, destroy_global, remove_global, published, publish,
  withdraw, each_client, find_global, mark_removed, erase_global, Binding, find_binding,
}
use zwwm.Server.Globals.Calls.{new_global}
use zwwm.Server.Globals.Lifecycle.{Call, run-IsNamed, add_global-binds, destroy_global-unbinds}
use zwwm.Server.Globals.Told.{IsSendable, AllTold, add_global-tells}
use zwwm.Server.Globals.Requests.{RegistryTexts, bind_args, registry_handler}
use zwwm.Server.Globals.Requests.Bound.{registry_handler-binds}
use zwwm.Wire.Args.{AllFit, encode_all}
use zwwm.Wire.Args.RoundTrip.{past_all}
use zwwm.Wire.Parser
use zwwm.Wire.Builder.{contains_nul}
use zwwm.Server.Globals.Names.{IsNamed, has_name}

-- An interface of version 3 with two methods, the second since version 2.
abbrev surface : Interface
surface = record { name = b's' ∷ []; version = 3; methods = 1 ∷ 2 ∷ [] }

abbrev client : Client
client = record {
  connection = zwwm.Wire.Connection.make;
  resources =
      record {
        id = 1;
        version = 1;
        interface = record { name = []; version = 1; methods = 1 ∷ 1 ∷ [] };
      }
      ∷ [];
  next_server_id = 4278190080;
  dead = false;
  destroying = false;
  registry_ids = 2 ∷ [];
}

-- A socket that takes a hundred bytes a call.
abbrev flush : Connection → Connection
flush c = (flush_socket (λ n. n + 16) (Sent.accepted 99 ∷ []) c).1

-- Displays with a global and without clients, before and after a second global.
abbrev no_bind : BindHandler
no_bind version id c = (none, c)

abbrev sees_all : Client → Global → Bool
sees_all c g = true

abbrev after_add : Display
after_add = record {
  globals = new_global surface 2 1 no_bind ∷ new_global surface 3 2 no_bind ∷ [];
  next_global_name = 3;
  clients = [];
}

abbrev no_clients : Display
no_clients = record {
  globals = new_global surface 2 1 no_bind ∷ [];
  next_global_name = 2;
  clients = [];
}

-- The display without clients publishes a second global.
adds : add_global flush sees_all (some surface) 3 no_bind no_clients ≡ ok (2, after_add)
unfolding add_global publish each_client
adds = refl

destroys : destroy_global flush sees_all 1 no_clients ≡ ok (record no_clients { globals = [] })
unfolding destroy_global remove_global withdraw each_client find_global mark_removed erase_global
destroys = refl

no_clients-IsNamed : IsNamed no_clients
no_clients-IsNamed = record {
  distinct = (refl, tt);
  below = (omega arith, tt);
  bounded = omega arith;
}

run-IsNamed_example : IsNamed (record no_clients { globals = [] })
run-IsNamed_example =
    run-IsNamed flush sees_all (Call.destroy 1) no_clients (record no_clients { globals = [] })
      no_clients-IsNamed destroys

add_global-binds_example :
    (which : Interface) × (some surface ≡ some which)
    × (has_name 2 no_clients.globals ≡ false)
    × ((c : Client) (wanted : ℕ)
        → sees_all c (new_global which 3 2 no_bind) ≡ true
        → wanted ≢ 0
        → wanted ≤ 3
        → find_binding sees_all 2 which.name wanted c after_add.globals
          ≡ Binding.bound (new_global which 3 2 no_bind))
add_global-binds_example =
    add_global-binds flush sees_all (some surface) 3 no_bind no_clients 2 after_add
      no_clients-IsNamed adds

destroy_global-unbinds_example :
    (find_binding sees_all 1 (b's' ∷ []) 1 client [] ≡ Binding.unknown_global)
    × ((other : ℕ)
        → other ≢ 1
        → find_binding sees_all other (b's' ∷ []) 1 client []
          ≡ find_binding sees_all other (b's' ∷ []) 1 client no_clients.globals)
destroy_global-unbinds_example =
    destroy_global-unbinds flush sees_all 1 no_clients (record no_clients { globals = [] }) destroys
      (b's' ∷ []) 1 client

-- A client that has a registry.
abbrev with_client : Display
with_client = record no_clients { clients = client ∷ [] }

surface-IsSendable : IsSendable (new_global surface 3 2 no_bind)
unfolding contains_nul
surface-IsSendable = ((omega arith, ((refl, omega arith), (omega arith, tt))), omega arith)

add_global-tells_example :
    (told : List Client) × (add_global flush sees_all (some surface) 3 no_bind with_client
      ≡ ok (published (new_global surface 3 2 no_bind) with_client told))
    × AllTold flush sees_all (new_global surface 3 2 no_bind) with_client.clients told
add_global-tells_example =
    add_global-tells flush sees_all surface 3 no_bind with_client (omega arith) (omega arith)
      (omega arith) surface-IsSendable

abbrev registry_texts : RegistryTexts
registry_texts = record { mismatch = b'm' ∷ []; invalid_version = b'v' ∷ []; unknown = b'u' ∷ [] }

registry_handler-binds_example :
    (which : Interface) × (some surface ≡ some which)
    × ((c : Client) (registry : Resource) (opcode wanted id : ℕ) (fds : List ℕ)
        → sees_all c (new_global which 3 2 no_bind) ≡ true
        → wanted ≢ 0
        → wanted ≤ 3
        → AllFit (bind_args 2 which.name wanted id)
        → registry_handler flush sees_all
            (λ e. [])
            registry_texts
            after_add
            registry
            opcode
            (zwwm.Wire.Parser.make (encode_all (bind_args 2 which.name wanted id)) fds)
            c
          ≡ record {
            failure = none;
            parser =
                past_all
                  (bind_args 2 which.name wanted id)
                  (zwwm.Wire.Parser.make (encode_all (bind_args 2 which.name wanted id)) fds);
            client = c;
          })
registry_handler-binds_example =
    registry_handler-binds flush sees_all (λ e. []) registry_texts (some surface) 3 no_bind
      no_clients 2 after_add no_clients-IsNamed adds
