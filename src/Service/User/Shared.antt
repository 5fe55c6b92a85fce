-- ===== src/Service/User/Shared.antt =====
-- The command path of users against the one that products and orders share.
use api_time_machine.Prelude.{String, ◌≡◌, ap, arith, Option, str_eq, inl, inr}
use api_time_machine.Prelude.Int.{ℤ, pos, add64}
use api_time_machine.Json.{Json}
use api_time_machine.Domain.{StoredEvent, EventMetadata, aggregate_user}
use api_time_machine.Aggregate.User.{event_created}
use api_time_machine.EventStore
use api_time_machine.EventStore.{latest_version, stored_event}
use api_time_machine.EventStore.Append.{append_lem}
use api_time_machine.Projection.{apply_user}
use api_time_machine.Commands
use api_time_machine.Commands.{AppendRequest, CommandService, read, write, check}
use api_time_machine.Service.User.{to_append, append_event}
use api_time_machine.World.{World, ◌>>=◌, pure, transaction, call}
use api_time_machine.Result.{ok, Result-cases}

-- The service and the request that say the same.
abbrev pub users : CommandService
users = record { aggregate_type = aggregate_user; project = apply_user }

abbrev pub request : String → Option ℤ → String → Json → EventMetadata → AppendRequest
request id expected event_type payload meta = record {
  id = id;
  expected_version = expected;
  event_type = event_type;
  payload = payload;
  metadata = meta;
  is_create = str_eq event_type event_created;
}

inserted_version :
    (id event_type : String) (payload : Json) (meta : EventMetadata) (v : ℤ) (w w' : World)
    (e : StoredEvent)
    → EventStore.append (to_append id event_type payload meta v) w ≡ (ok e, w')
    → e.version ≡ v
unfolding to_append stored_event
inserted_version id event_type payload meta v w w' e h =
    ap (λ (e : StoredEvent). e.version)
      (append_lem (to_append id event_type payload meta v) e w w' h).stored_lem

-- A command of a user, up to its commit, does what the command path of products and orders does
-- with the user's projector, on every branch and whatever calls fail, and returns the version of
-- the event that is stored.
pub append_event-append :
    (id : String) (expected : Option ℤ) (event_type : String) (payload : Json)
    (meta : EventMetadata) (w : World)
    → append_event id expected event_type payload meta w
      ≡ (Commands.append users (request id expected event_type payload meta) >>= λ e.
            pure e.version)
          w
unfolding append_event Commands.append transaction read write check Commands.to_append to_append
append_event-append id expected event_type payload meta w =
    let w1 = (call w).1 in
    elim (Result-cases (call w).0) [
      | inr (x, e0) ↦ ground (arith, e0)
      | inl (_, e0) ↦ elim (Result-cases (latest_version aggregate_user id w1).0) [
        | inr (x, e1) ↦ ground (arith, e0, e1)
        | inl (current, e1) ↦
            let w2 = (latest_version aggregate_user id w1).1 in
            let a = to_append id event_type payload meta (add64 current (pos 1)) in
            elim (Result-cases (EventStore.append a w2).0) [
              | inr (x, e2) ↦ ground (arith, e0, e1, e2)
              | inl (stored, e2) ↦
                  let w3 = (EventStore.append a w2).1 in
                  let v =
                    inserted_version id event_type payload meta (add64 current (pos 1)) w2 w3 stored
                      (cc) in
                  elim (Result-cases (apply_user stored w3).0) [
                    | inr (x, e3) ↦ ground (arith, e0, e1, e2, e3)
                    | inl (_, e3) ↦ elim (Result-cases (call (apply_user stored w3).1).0) [
                      | inr (x, e4) ↦ ground (arith, e0, e1, e2, e3, e4)
                      | inl (_, e4) ↦ ground (arith, e0, e1, e2, e3, e4, v)
                    ]
                  ]
            ]
      ]
    ]
