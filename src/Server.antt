-- ===== src/Server.antt =====
-- zwayland/server/src/display.cpp: the objects of a client and the dispatch of its requests.
pub mod Objects
pub mod Dispatch
pub mod Drained
pub mod Destroy
pub mod Globals
mod Tests
use zwwm.Common.{
  ℕ, zero, suc, ◌+◌, ◌-◌, ◌%◌, Bool, true, false, not, ◌&&◌, ◌||◌, Option, none, some, List, [],
  ◌∷◌, ltb, leb, ◌==◌, if◌then◌else◌, length, get_or, Result, ok, throw, ◌>>=◌,
}
use Prim.Native.Nat.{min}
use zwwm.Wire.Error.{Error}
use zwwm.Wire.Builder
use zwwm.Wire.Builder.{
  MessageBuilder, append_uint, append_object, append_string, set_opcode, finish, take_fds,
}
use zwwm.Wire.Parser
use zwwm.Wire.Parser.{MessageParser, at_end}
use zwwm.Wire.Connection.{Connection, Message, next_message, consume, queue}

-- `methods` has the `since` of each method.
pub record Interface : Type 0 where
  pub name : List ℕ
  pub version : ℕ
  pub methods : List ℕ

pub record Resource : Type 0 where
  pub id : ℕ
  pub version : ℕ
  pub interface : Interface

-- The map of the resources is their list; each id stands in it once.
pub record Client : Type 0 where
  pub connection : Connection
  pub resources : List Resource
  pub next_server_id : ℕ
  pub dead : Bool
  pub destroying : Bool
  pub registry_ids : List ℕ

abbrev pub find : ℕ → List Resource → Option Resource
find id [] = none
find id (r ∷ rs) = if r.id == id then some r else find id rs

abbrev pub contains : ℕ → List Resource → Bool
contains id [] = false
contains id (r ∷ rs) = r.id == id || contains id rs

abbrev pub first_server_id : ℕ
first_server_id = 4278190080

-- `next_server_id_`, back at the start of the range if it left it.
abbrev pub in_range : ℕ → ℕ
in_range id = if ltb id first_server_id then first_server_id else id

-- The loop of alloc_id; 0 if no attempt finds an id. The counter wraps at 32 bits.
unfoldable pub alloc_loop : ℕ → Client → ℕ × Client
alloc_loop zero c = (0, c)
alloc_loop (suc attempts) c =
    let id = in_range c.next_server_id in
    let next = record c { next_server_id = (id + 1) % 4294967296 } in
    elim (contains id c.resources) [ true ↦ alloc_loop attempts next | false ↦ (id, next) ]

unfoldable pub alloc_id : Client → ℕ × Client
alloc_id c = alloc_loop 16777216 c

abbrev pub new_resource : ℕ → ℕ → Interface → Resource
new_resource id version interface = record {
  id = id;
  version = min version interface.version;
  interface = interface;
}

-- What create_resource does once the id is chosen.
unfoldable pub create_at : Option Interface → ℕ → ℕ → Client → Option Resource × Client
create_at none id version c = (none, c)
create_at (some interface) id version c =
    let resource = new_resource id version interface in
    if id == 0 || version == 0 || contains id c.resources
    then (none, c)
    else (some resource, record c { resources = resource ∷ c.resources })

unfoldable pub create_resource : Option Interface → ℕ → ℕ → Client → Option Resource × Client
create_resource interface id version c = elim (id == 0) [
  | true ↦ let (chosen, d) = alloc_id c in create_at interface chosen version d
  | false ↦ create_at interface id version c
]

unfoldable pub valid_new_id : ℕ → Client → Bool
valid_new_id id c = ltb 0 id && ltb id first_server_id && not (contains id c.resources)

unfoldable pub find_resource : ℕ → Client → Option Resource
find_resource id c = find id c.resources

-- What a request handler leaves: `failure` is what() of an exception that it threw.
pub record Handled : Type 0 where
  pub failure : Option (List ℕ)
  pub parser : MessageParser
  pub client : Client

abbrev pub Handler : Type 0
Handler = ℕ → MessageParser → Client → Handled

-- One round of the loop in dispatch_available: go on, return false, or an exception of post_error.
pub data Step : Type 0 where
  next : Client → Step
  stop : Client → Step
  thrown : Error → Client → Step

abbrev pub client_of : Step → Client
client_of (Step.next c) = c
client_of (Step.stop c) = c
client_of (Step.thrown e c) = c

abbrev pub consumed : ℕ → ℕ → Client → Client
consumed size fds c = record c { connection = consume size fds c.connection }

-- The texts of the errors that the loop posts itself.
pub record Texts : Type 0 where
  pub invalid_object : List ℕ
  pub invalid_method : List ℕ
  pub newer_version : List ℕ
  pub no_handler : List ℕ
  pub trailing_data : List ℕ

-- The wl_display.error event: object, code and text.
unfoldable pub error_event : ℕ → ℕ → List ℕ → Result Error (List ℕ × MessageBuilder)
error_event object_id code message =
    append_string message
      (append_uint code (append_object object_id (set_opcode 0 (zwwm.Wire.Builder.make 1))))
    >>= finish

-- `flush` is Connection::flush on the client's transport.
module _ (flush : Connection → Connection) where
  unfoldable pub send_error : Result Error (List ℕ × MessageBuilder) → Client → Step
  send_error (throw e) c = Step.thrown e c
  send_error (ok (bytes, left)) c =
      Step.stop record c { connection = flush (queue bytes (take_fds left).0 c.connection) }

  unfoldable pub post_error : ℕ → ℕ → List ℕ → Client → Step
  post_error object_id code message c = if c.dead then Step.stop c else elim (find 1 c.resources) [
    | none ↦ Step.stop record c { dead = true }
    | some display_resource ↦
        send_error (error_event object_id code message) (record c { dead = true })
  ]

  -- `what()` of the exceptions that the loop itself throws, and the texts of its errors.
  unfoldable pub after_handler : ℕ → Handled → ℕ → List ℕ → Step
  after_handler size h resource_id trailing = elim h.failure [
    | some what ↦ post_error resource_id 1 what (consumed size h.parser.fd_pos h.client)
    | none ↦
        if not (at_end h.parser)
        then post_error resource_id 1 trailing (consumed size h.parser.fd_pos h.client)
        else if h.client.dead
        then Step.stop (consumed size h.parser.fd_pos h.client)
        else Step.next (consumed size h.parser.fd_pos h.client)
  ]

-- A resource's own handler comes before the one that the display has for its interface.
module _ (own_handler : Resource → Option Handler) (handler_for : Interface → Option Handler) where
  -- The handler of the resource, or that of its interface, or an exception.
  unfoldable pub handle : Texts → Resource → ℕ → MessageParser → Client → Handled
  handle texts r opcode parser c = elim (own_handler r) [
    | some run ↦ run opcode parser c
    | none ↦ elim (handler_for r.interface) [
      | some run ↦ run opcode parser c
      | none ↦ record { failure = some texts.no_handler; parser = parser; client = c }
    ]
  ]

module _ (flush : Connection → Connection) (own_handler : Resource → Option Handler)
    (handler_for : Interface → Option Handler) where
  unfoldable pub dispatch_request : Texts → Message → Resource → Client → Step
  dispatch_request texts m r c =
      if leb (length r.interface.methods) m.opcode
      then post_error flush r.id 1 texts.invalid_method (consumed m.size 0 c)
      else if ltb r.version (get_or r.interface.methods m.opcode 0)
      then post_error flush r.id 1 texts.newer_version (consumed m.size 0 c)
      else after_handler flush m.size
          (handle own_handler handler_for texts r m.opcode (zwwm.Wire.Parser.make m.body m.fds) c)
          r.id texts.trailing_data

  unfoldable pub dispatch_message : Texts → Message → Client → Step
  dispatch_message texts m c = elim (find m.object_id c.resources) [
    | none ↦ post_error flush 1 0 texts.invalid_object (consumed m.size 0 c)
    | some r ↦ dispatch_request texts m r c
  ]

  -- The loop: `none` if the fuel was not enough; `next` where no message is left.
  unfoldable pub dispatch_loop : ℕ → Texts → Client → Option Step
  dispatch_loop zero texts c = none
  dispatch_loop (suc fuel) texts c =
      let (found, connection) = next_message c.connection in
      elim found [
        | none ↦ some (Step.next record c { connection = connection })
        | some m ↦ elim (dispatch_message texts m (record c { connection = connection })) [
          | Step.next d ↦ dispatch_loop fuel texts d
          | Step.stop d ↦ some (Step.stop d)
          | Step.thrown e d ↦ some (Step.thrown e d)
        ]
      ]
