-- ===== src/Server/Tests.antt =====
-- Runs of zwayland/server on concrete inputs, and its theorems at such inputs.
use zwwm.Common.{length, suc, ◌+◌, ◌≡◌, refl, arith, true, false, none, some, ok, [], ◌∷◌}
use zwwm.Wire.Connection
use zwwm.Wire.Connection.{Connection, Message}
use zwwm.Wire.Connection.Stream
use zwwm.Wire.Connection.Stream.{input}
use zwwm.Wire.Connection.Socket.{Sent, flush_socket}
use zwwm.Server.{
  Interface, Resource, Client, Handler, Texts, find, new_resource, valid_new_id, create_resource,
  find_resource, handle, dispatch_message, dispatch_loop,
}
use zwwm.Server.Destroy.{Heard, Removal, destroy}
use zwwm.Server.Destroy.All.{destroy-all_gone}
use zwwm.Server.Objects.{IsValid, Creates, create_resource-Creates, create_resource-find}
use zwwm.Server.Drained.{KeepsInput, Drained, dispatch_loop-Drained}
use zwwm.Server.Dispatch.{StopsOr, Answered, dispatch_message_lem}

-- An interface of version 3 with two methods, the second since version 2.
abbrev surface : Interface
surface = record { name = b's' ∷ []; version = 3; methods = 1 ∷ 2 ∷ [] }

abbrev client : Client
client = record {
  connection = zwwm.Wire.Connection.make;
  resources =
      record {
        id = 1;
        version = 1;
        interface = record { name = []; version = 1; methods = 1 ∷ 1 ∷ [] };
      }
      ∷ [];
  next_server_id = 4278190080;
  dead = false;
  destroying = false;
  registry_ids = 2 ∷ [];
}

client-IsValid : IsValid client
client-IsValid = ((refl, tt), omega arith)

create_resource-Creates_example :
    Creates (some surface) 0 2 client (create_resource (some surface) 0 2 client)
create_resource-Creates_example = create_resource-Creates (some surface) 0 2 client client-IsValid

create_resource-find_example :
    ((create_resource (some surface) 7 5 client).0 ≡ some (new_resource 7 5 surface))
    × (find_resource 7 (create_resource (some surface) 7 5 client).1
        ≡ some (new_resource 7 5 surface))
unfolding valid_new_id
create_resource-find_example = create_resource-find surface 7 5 client refl (omega arith)

-- A socket that takes a hundred bytes a call.
abbrev flush : Connection → Connection
flush c = (flush_socket (λ n. n + 16) (Sent.accepted 99 ∷ []) c).1

abbrev reads_nothing : Handler
reads_nothing opcode parser c = record { failure = none; parser = parser; client = c }

abbrev texts : Texts
texts = record {
  invalid_object = b'o' ∷ [];
  invalid_method = b'm' ∷ [];
  newer_version = b'v' ∷ [];
  no_handler = b'h' ∷ [];
  trailing_data = b't' ∷ [];
}

-- wl_display.sync without its argument.
abbrev request : Message
request = record { object_id = 1; opcode = 0; size = 8; body = []; fds = [] }

dispatch_message_lem_example :
    StopsOr
      (λ d.
        (r : Resource) × (find 1 client.resources ≡ some r)
        × Answered flush (λ r. none) (λ i. some reads_nothing) texts request client r d)
      (dispatch_message flush (λ r. none) (λ i. some reads_nothing) texts request client)
dispatch_message_lem_example =
    dispatch_message_lem flush (λ r. none) (λ i. some reads_nothing) texts request client

-- wl_display.sync without its argument, in two chunks.
abbrev with_request : Client
with_request = record client {
  connection = record zwwm.Wire.Connection.make {
    input_chunks = (1 ∷ 0 ∷ 0 ∷ []) ∷ (0 ∷ 0 ∷ 0 ∷ 8 ∷ 0 ∷ []) ∷ [];
    input_bytes = 8;
  };
}

with_request-IsValid : zwwm.Wire.Connection.Stream.IsValid with_request.connection
unfolding zwwm.Wire.Connection.make
with_request-IsValid = record { counted = refl; in_front = omega arith; in_fds = omega arith }

reads_nothing-KeepsInput : KeepsInput (handle (λ r. none) (λ i. some reads_nothing) texts)
unfolding handle
reads_nothing-KeepsInput r opcode parser c v = (v, refl)

dispatch_loop-Drained_example : Drained (
    dispatch_loop flush
      (λ r. none)
      (λ i. some reads_nothing)
      (suc (length (input with_request.connection)))
      texts
      with_request)
dispatch_loop-Drained_example =
    dispatch_loop-Drained flush (λ r. none) (λ i. some reads_nothing) texts reads_nothing-KeepsInput
      with_request with_request-IsValid

-- The client with an object of its own and one of the server.
abbrev with_objects : Client
with_objects = record client {
  resources = new_resource 7 2 surface ∷ new_resource 4278190080 1 surface ∷ client.resources;
}

abbrev hears_nothing : Resource → Client → Heard
hears_nothing r c = record { client = c; iterator_valid = true }

destroy-all_gone_example :
    (r : Removal) × (destroy flush hears_nothing (λ c. c) with_objects ≡ ok r)
    × (r.client.resources ≡ [])
    × (r.client.dead ≡ true)
    × (r.scheduled ≡ true)
destroy-all_gone_example =
    destroy-all_gone flush hears_nothing (λ r c. (refl, λ id h. h)) (λ c. c) with_objects refl
