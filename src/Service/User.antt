-- ===== src/Service/User.antt =====
pub mod Shared
-- internal/user/service.go: the commands of users, with a command path and idempotency keys of
-- their own.
use api_time_machine.Prelude.{
  ℕ, ◌+◌, ◌%◌, String, Bool, not, ◌&&◌, Option, [], ◌==◌, str_eq, if◌then◌else◌,
}
use api_time_machine.Prelude.Int.{ℤ, pos, pos_part, neg_part, add64, ltb_ℤ, eqb_ℤ}
use api_time_machine.Json.{Json, Time, object}
use api_time_machine.Domain.{AppendEvent, EventMetadata, aggregate_user}
use api_time_machine.Aggregate.User.{
  User, event_created, event_updated, event_deleted, encode_created, encode_updated,
  marshal_snapshot,
}
use api_time_machine.EventStore
use api_time_machine.SnapshotStore
use api_time_machine.Projection.{apply_user, current_user}
use api_time_machine.Commands.{mismatch, store_key, get_key}
use api_time_machine.World.{M, ◌>>=◌, ◌>>◌, pure, guard_not, transaction, spawn, call}
use api_time_machine.Result.{conflict, not_found, version_mismatch}

pub record CreateCommand : Type 0 where
  pub id : String
  pub name : String
  pub email : String
  pub expected_version : Option ℤ
  pub metadata : EventMetadata

pub record UpdateCommand : Type 0 where
  pub id : String
  pub name : Option String
  pub email : Option String
  pub address : Option String
  pub avatar : Option String
  pub expected_version : Option ℤ
  pub metadata : EventMetadata

pub record DeleteCommand : Type 0 where
  pub id : String
  pub expected_version : Option ℤ
  pub metadata : EventMetadata

-- `n > 0 && version%int64(n) == 0`: the remainder is 0 when the size of `version` is a multiple.
abbrev pub due : ℤ → ℤ → Bool
due n version = ltb_ℤ (pos 0) n && (pos_part version + neg_part version) % pos_part n == 0

-- `Service.maybeSnapshot`
unfoldable pub maybe_snapshot : User → M (Unit {0})
maybe_snapshot u = SnapshotStore.save aggregate_user u.id u.version (marshal_snapshot u)

unfoldable pub to_append : String → String → Json → EventMetadata → ℤ → AppendEvent
to_append id event_type payload meta version = record {
  aggregate_type = aggregate_user;
  aggregate_id = id;
  event_type = event_type;
  version = version;
  payload = payload;
  metadata = meta;
}

-- `append` up to the commit; it returns `nextVersion`.
unfoldable pub append_event : String → Option ℤ → String → Json → EventMetadata → M ℤ
append_event id expected event_type payload meta = do
  call
  transaction do
    current ← EventStore.latest_version aggregate_user id
    guard_not (mismatch expected current) version_mismatch
    guard_not (str_eq event_type event_created && ltb_ℤ (pos 0) current) conflict
    guard_not (not (str_eq event_type event_created) && eqb_ℤ current (pos 0)) not_found
    let next = add64 current (pos 1)
    stored ← EventStore.append (to_append id event_type payload meta next)
    apply_user stored
    call
    pure next

-- `Service.append`; `snapshot_n` is the field `snapshotN`.
unfoldable pub append : ℤ → String → Option ℤ → String → Json → EventMetadata → M User
unfolding append_event
append snapshot_n id expected event_type payload meta = do
  next ← append_event id expected event_type payload meta
  u ← current_user id
  if due snapshot_n next then spawn (maybe_snapshot u) else pure tt
  pure u

unfoldable pub create : ℤ → CreateCommand → M User
unfolding append
create n cmd =
    append n cmd.id cmd.expected_version event_created
      (encode_created (record { name = cmd.name; email = cmd.email })) cmd.metadata

unfoldable pub update : ℤ → UpdateCommand → M User
unfolding append
update n cmd =
    append n cmd.id cmd.expected_version event_updated
      (encode_updated
        (record { name = cmd.name; email = cmd.email; address = cmd.address; avatar = cmd.avatar }))
      cmd.metadata

unfoldable pub delete : ℤ → DeleteCommand → M User
unfolding append
delete n cmd = append n cmd.id cmd.expected_version event_deleted (object []) cmd.metadata

-- `Service.StoreIdempotency` and `Service.GetIdempotency`, with the statements of
-- `platform.Idempotency`.
unfoldable pub store_idempotency : String → Json → ℕ → Time → M (Unit {0})
store_idempotency = store_key

unfoldable pub get_idempotency : String → M (Option (Json × ℕ))
get_idempotency = get_key
