-- ===== src/Commands.antt =====
pub mod Laws
pub mod Commit
pub mod Interleaving
pub mod Refusals
pub mod Accepted
pub mod History
-- internal/platform/commands.go: the command path that products and orders share, and the
-- idempotency keys.
use api_time_machine.Prelude.{
  ℕ, ◌+◌, String, Bool, true, false, not, ◌&&◌, Option, none, some, ltb, if◌then◌else◌,
}
use api_time_machine.Prelude.Assoc.{Assoc, lookup, insert}
use api_time_machine.Prelude.Int.{ℤ, pos, add64, ltb_ℤ, eqb_ℤ}
use api_time_machine.Json.{Json, Time}
use api_time_machine.Domain.{StoredEvent, AppendEvent, EventMetadata}
use api_time_machine.EventStore
use api_time_machine.World.{
  World, Db, M, IdempotencyRow, ◌>>=◌, ◌>>◌, pure, gets, modify_db, guard_not, transaction, call,
}
use api_time_machine.Result.{conflict, not_found, version_mismatch}

pub record AppendRequest : Type 0 where
  pub id : String
  pub expected_version : Option ℤ
  pub event_type : String
  pub payload : Json
  pub metadata : EventMetadata
  pub is_create : Bool

-- The fields of CommandService that the commands use; `project` is `projector.Apply`.
pub record CommandService : Type 0 where
  pub aggregate_type : String
  pub project : StoredEvent → M (Unit {0})

-- `expected != nil && *expected != current`
abbrev pub mismatch : Option ℤ → ℤ → Bool
mismatch none current = false
mismatch (some expected) current = not (eqb_ℤ expected current)

unfoldable pub to_append : String → AppendRequest → ℤ → AppendEvent
to_append aggregate_type req version = record {
  aggregate_type = aggregate_type;
  aggregate_id = req.id;
  event_type = req.event_type;
  version = version;
  payload = req.payload;
  metadata = req.metadata;
}

-- The guards on the version that was read.
unfoldable pub check : AppendRequest → ℤ → M (Unit {0})
check req current = do
  guard_not (mismatch req.expected_version current) version_mismatch
  guard_not (req.is_create && ltb_ℤ (pos 0) current) conflict
  guard_not (not req.is_create && eqb_ℤ current (pos 0)) not_found

-- From the insert to the commit, with the version `current` that was read before.
unfoldable pub write : CommandService → AppendRequest → ℤ → M StoredEvent
unfolding call
write s req current = do
  stored ← EventStore.append (to_append s.aggregate_type req (add64 current (pos 1)))
  s.project stored
  call
  pure stored

-- The read of the latest version, which is not in the transaction, and the guards.
unfoldable pub read : CommandService → AppendRequest → M ℤ
unfolding check
read s req = do
  current ← EventStore.latest_version s.aggregate_type req.id
  check req current
  pure current

-- `CommandService.Append`. Its `maybeSnapshot` does nothing.
unfoldable pub append : CommandService → AppendRequest → M StoredEvent
unfolding transaction call
append s req = do call; transaction do current ← read s req; write s req current

-- INSERT … ON CONFLICT (key) DO NOTHING
unfoldable pub insert_new : {R : Type 0} → String → R → Assoc R → Assoc R
unfolding lookup insert
insert_new key row table = elim (lookup key table) [
  | none ↦ insert key row table
  | some old ↦ table
]

-- `Idempotency.Store`
unfoldable pub store_key : String → Json → ℕ → Time → M (Unit {0})
unfolding insert_new call
store_key key body status ttl = do
  call
  now ← gets (λ w. w.now)
  modify_db λ db. record db {
    idempotency_keys =
        insert_new key
          (record { response_body = body; status_code = status; expires_at = now + ttl })
          db.idempotency_keys;
  }

-- WHERE key = $1 AND expires_at > NOW()
abbrev pub unexpired : Time → Option IdempotencyRow → Option (Json × ℕ)
unexpired now none = none
unexpired now (some r) =
    if ltb now r.expires_at then some (r.response_body, r.status_code) else none

-- `Idempotency.Get`
unfoldable pub get_key : String → M (Option (Json × ℕ))
unfolding lookup call
get_key key = do call; gets (λ w. unexpired w.now (lookup key w.db.idempotency_keys))
