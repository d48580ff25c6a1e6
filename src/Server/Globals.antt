-- ===== src/Server/Globals.antt =====
-- The globals of Display in zwayland/server/src/display.cpp, and the requests of wl_registry.
pub mod Names
pub mod Calls
pub mod Lifecycle
pub mod Told
pub mod Requests
mod Tests
use zwwm.Common.{
  ℕ, ◌+◌, Bool, true, false, not, ◌||◌, Option, none, some, List, [], ◌∷◌, ◌++◌, ltb, ◌==◌,
  if◌then◌else◌, Result, ok, throw, ◌>>=◌,
}
use zwwm.Config.{same_text}
use zwwm.Server.{Interface, Resource, Client, Handler, Handled, Step, client_of, post_error}
use zwwm.Server.Destroy.{send_event}
use zwwm.Wire.Builder
use zwwm.Wire.Builder.{MessageBuilder, append_uint, append_string, set_opcode, finish, take_fds}
use zwwm.Wire.Connection.{Connection}
use zwwm.Wire.Error.{Error}

-- BindHandler: with the version and the id; it leaves the client, and may throw with a text.
abbrev pub BindHandler : Type 0
BindHandler = ℕ → ℕ → Client → Option (List ℕ) × Client

pub record Global : Type 0 where
  pub interface : Interface
  pub version : ℕ
  pub name : ℕ
  pub bind : BindHandler
  pub removed : Bool

pub record Display : Type 0 where
  pub globals : List Global
  pub next_global_name : ℕ
  pub clients : List Client

-- What add_global throws, and what the messages throw.
pub data DisplayError : Type 0 where
  no_interface : DisplayError
  version_exceeds : DisplayError
  names_exhausted : DisplayError
  from_wire : Error → DisplayError

abbrev pub lift {ℓ} : {A : Type ℓ} → Result Error A → Result DisplayError A
lift (ok a) = ok a
lift (throw e) = throw (DisplayError.from_wire e)

-- wl_registry.global and wl_registry.global_remove.
unfoldable pub global_event : ℕ → Global → Result Error (List ℕ × MessageBuilder)
global_event registry_id g =
    append_string g.interface.name
      (append_uint g.name (set_opcode 0 (zwwm.Wire.Builder.make registry_id)))
    >>= λ b. finish (append_uint g.version b)

unfoldable pub remove_event : ℕ → ℕ → Result Error (List ℕ × MessageBuilder)
remove_event registry_id name =
    finish (append_uint name (set_opcode 1 (zwwm.Wire.Builder.make registry_id)))

-- The loop over the clients.
unfoldable pub each_client :
    (Client → Result Error Client) → List Client → Result Error (List Client)
each_client f [] = ok []
each_client f (c ∷ cs) = f c >>= λ d. (each_client f cs >>= λ ds. ok (d ∷ ds))

unfoldable pub find_global : ℕ → List Global → Option Global
find_global name [] = none
find_global name (g ∷ gs) = if g.name == name then some g else find_global name gs

-- `removed = true` at the first global of the name.
unfoldable pub mark_removed : ℕ → List Global → List Global
mark_removed name [] = []
mark_removed name (g ∷ gs) =
    let rest = mark_removed name gs in
    if g.name == name then record g { removed = true } ∷ gs else g ∷ rest

-- `erase_if` of the name.
unfoldable pub erase_global : ℕ → List Global → List Global
erase_global name [] = []
erase_global name (g ∷ gs) =
    let rest = erase_global name gs in if g.name == name then rest else g ∷ rest

abbrev pub max_uint32 : ℕ
max_uint32 = 4294967295

-- The display and the clients once they are told. Where telling them throws, the model has no state.
abbrev pub published : Global → Display → List Client → ℕ × Display
published g d cs = (
  g.name,
  record {
    globals = d.globals ++ (g ∷ []);
    next_global_name = d.next_global_name + 1;
    clients = cs;
  },
)

abbrev pub withdrawn : ℕ → Display → List Client → Display
withdrawn name d cs = record d { globals = mark_removed name d.globals; clients = cs }

-- global_visible, with the filter of the display or without.
module _ (flush : Connection → Connection) (global_visible : Client → Global → Bool) where
  unfoldable pub send_made : Client → Result Error (List ℕ × MessageBuilder) → Result Error Client
  send_made c (throw e) = throw e
  send_made c (ok (bytes, left)) = ok (send_event flush bytes (take_fds left).0 c)

  unfoldable pub notify_registry : ℕ → List Global → Client → Result Error Client
  notify_registry registry_id [] c = ok c
  notify_registry registry_id (g ∷ gs) c =
      (if g.removed || not (global_visible c g)
        then ok c
        else send_made c (global_event registry_id g))
      >>= notify_registry registry_id gs

  -- An event to each registry of a client.
  unfoldable pub notify_ids :
      (ℕ → Result Error (List ℕ × MessageBuilder)) → List ℕ → Client → Result Error Client
  notify_ids event [] c = ok c
  notify_ids event (id ∷ ids) c = send_made c (event id) >>= notify_ids event ids

  unfoldable pub notify_global : Global → Client → Result Error Client
  notify_global g c =
      if not (global_visible c g)
      then ok c
      else notify_ids (λ id. global_event id g) c.registry_ids c

  unfoldable pub notify_removed : Global → Client → Result Error Client
  notify_removed g c =
      if not (global_visible c g)
      then ok c
      else notify_ids (λ id. remove_event id g.name) c.registry_ids c

  -- What add_global does with a global that it may publish: the name and the display.
  unfoldable pub publish : Global → Display → Result DisplayError (ℕ × Display)
  publish g d = lift (each_client (notify_global g) d.clients) >>= λ cs. ok (published g d cs)

  unfoldable pub add_global :
      Option Interface → ℕ → BindHandler → Display → Result DisplayError (ℕ × Display)
  add_global none version bind d = throw DisplayError.no_interface
  add_global (some interface) version bind d =
      if version == 0
      then throw DisplayError.no_interface
      else if ltb interface.version version
      then throw DisplayError.version_exceeds
      else if d.next_global_name == max_uint32
      then throw DisplayError.names_exhausted
      else publish
          (record {
            interface = interface;
            version = version;
            name = d.next_global_name;
            bind = bind;
            removed = false;
          })
          d

  -- What remove_global does with the global that it found.
  unfoldable pub withdraw : ℕ → Option Global → Display → Result DisplayError Display
  withdraw name none d = ok d
  withdraw name (some g) d =
      if g.removed
      then ok d
      else lift (each_client (notify_removed (record g { removed = true })) d.clients) >>= λ cs.
          ok (withdrawn name d cs)

  unfoldable pub remove_global : ℕ → Display → Result DisplayError Display
  remove_global name d = withdraw name (find_global name d.globals) d

  unfoldable pub destroy_global : ℕ → Display → Result DisplayError Display
  destroy_global name d =
      remove_global name d >>= λ e. ok (record e { globals = erase_global name e.globals })

-- What the handler of wl_registry.bind finds.
pub data Binding : Type 0 where
  bound : Global → Binding
  interface_mismatch : Binding
  invalid_version : Binding
  unknown_global : Binding

unfoldable pub checked : List ℕ → ℕ → Bool → Global → Binding
checked iface version visible g =
    if not visible
    then Binding.unknown_global
    else if not (same_text g.interface.name iface)
    then Binding.interface_mismatch
    else if version == 0 || ltb g.version version
    then Binding.invalid_version
    else Binding.bound g

unfoldable pub find_binding :
    (Client → Global → Bool) → ℕ → List ℕ → ℕ → Client → List Global → Binding
find_binding global_visible name iface version c [] = Binding.unknown_global
find_binding global_visible name iface version c (g ∷ gs) =
    if not (g.name == name)
    then find_binding global_visible name iface version c gs
    else checked iface version (global_visible c g) g
