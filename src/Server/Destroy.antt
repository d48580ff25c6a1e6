-- ===== src/Server/Destroy.antt =====
-- destroy_resource and destroy of Client in zwayland/server/src/display.cpp.
pub mod Gone
pub mod All
use zwwm.Common.{
  ℕ, Bool, true, false, not, ◌&&◌, ◌||◌, Option, none, some, List, [], ◌∷◌, map, ltb, leb, ◌==◌,
  if◌then◌else◌, Result, ok, throw, ◌>>=◌,
}
use zwwm.Server.{Resource, Client, find, contains, first_server_id}
use zwwm.Wire.Builder
use zwwm.Wire.Builder.{MessageBuilder, append_uint, set_opcode, finish, take_fds}
use zwwm.Wire.Connection.{Connection, queue}
use zwwm.Wire.Error.{Error}

-- `resources_.erase`.
unfoldable pub erase : ℕ → List Resource → List Resource
erase id [] = []
erase id (r ∷ rs) = let rest = erase id rs in if r.id == id then rest else r ∷ rest

-- The wl_display.delete_id event.
unfoldable pub delete_id_event : ℕ → Result Error (List ℕ × MessageBuilder)
delete_id_event id = finish (append_uint id (set_opcode 1 (zwwm.Wire.Builder.make 1)))

-- `std::sort` of the ids.
unfoldable pub insert_id : ℕ → List ℕ → List ℕ
insert_id id [] = id ∷ []
insert_id id (i ∷ ids) =
    let later = insert_id id ids in if leb id i then id ∷ i ∷ ids else i ∷ later

unfoldable pub sort : List ℕ → List ℕ
sort [] = []
sort (id ∷ ids) = insert_id id (sort ids)

-- A client, and whether schedule_remove_client was called for it.
pub record Removal : Type 0 where
  pub client : Client
  pub scheduled : Bool

-- Why a resource is not destroyed: an exception, or `resources_.erase` of an iterator that is no
-- longer valid, which is undefined.
pub data Failure : Type 0 where
  thrown : Error → Failure
  undefined_erase : Failure

-- What the listeners leave. The iterator to the resource stays valid unless they erased the resource
-- itself, or made resources so that the hash table was built anew.
pub record Heard : Type 0 where
  pub client : Client
  pub iterator_valid : Bool

-- The flush of the transport. The events that a socket is polled for are not part of the model.
module _ (flush : Connection → Connection) where
  unfoldable pub client_output_changed : Client → Client
  client_output_changed c =
      if c.connection.loopback then record c { connection = flush c.connection } else c

  unfoldable pub send_event : List ℕ → List ℕ → Client → Client
  send_event bytes fds c =
      if c.dead
      then c
      else client_output_changed (record c { connection = queue bytes fds c.connection })

  unfoldable pub send_built :
      Result Error (List ℕ × MessageBuilder) → Client → Result Failure Client
  send_built (throw e) c = throw (Failure.thrown e)
  send_built (ok (bytes, left)) c =
      ok (
        client_output_changed
          (record c { connection = queue bytes (take_fds left).0 c.connection }))

  -- The part of destroy_resource that tells the client.
  unfoldable pub announce : ℕ → Client → Result Failure Client
  announce id c =
      if ltb id first_server_id && not c.dead then send_built (delete_id_event id) c else ok c

  -- What the listeners of the resource and its destroy handler do.
  module _ (on_destroy : Resource → Client → Heard) where
    -- The iterator is the one from before the listeners ran, so its erasure may be undefined.
    unfoldable pub destroy_found : ℕ → Option Resource → Client → Result Failure Client
    destroy_found id none c = ok c
    destroy_found id (some r) c = announce id (on_destroy r c).client >>= λ d.
        if (on_destroy r c).iterator_valid
        then ok (record d { resources = erase id d.resources })
        else throw Failure.undefined_erase

    unfoldable pub destroy_resource : ℕ → Client → Result Failure Client
    destroy_resource id c = destroy_found id (find id c.resources) c

    unfoldable pub destroy_all : List ℕ → Client → Result Failure Client
    destroy_all [] c = ok c
    destroy_all (id ∷ ids) c =
        (if contains id c.resources then destroy_resource id c else ok c) >>= destroy_all ids

    -- What the listeners of the client do.
    module _ (on_destroy_client : Client → Client) where
      unfoldable pub destroy : Client → Result Failure Removal
      destroy c =
          if c.destroying
          then ok (record { client = c; scheduled = false })
          else (let d = on_destroy_client (record c { destroying = true }) in
              destroy_all (sort (map (λ (r : Resource). r.id) d.resources)) d >>= λ e. ok (record {
                client = record e { connection = flush e.connection; dead = true };
                scheduled = true;
              }))
