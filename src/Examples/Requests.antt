-- ===== src/Examples/Requests.antt =====
-- Requests: the limiter, the tokens, the idempotency keys, and the publisher's pass.
use api_time_machine.Prelude.{
  ℕ, zero, suc, ◌≡◌, refl, arith, String, Bool, true, false, Option, none, some, [], ◌∷◌,
}
use api_time_machine.Prelude.Assoc.{lookup, insert}
use api_time_machine.Prelude.Int.{pos, add64}
use api_time_machine.Json.{Json, Time, object}
use api_time_machine.Aggregate.User
use api_time_machine.Aggregate.User.{User, marshal_snapshot}
use api_time_machine.Aggregate.User.{
  kind, touch, apply_case, fresh, set_created, encode_created, decode_created,
}
use api_time_machine.EventStore
use api_time_machine.EventStore.{latest_version, max_version, stored_event}
use api_time_machine.Projection.{apply_user, store_user, user_row, user_of_row, current_user}
use api_time_machine.RateLimit.{Arrival}
use api_time_machine.Auth
use api_time_machine.Replay
use api_time_machine.Auth.{
  Authenticator, Claims, pass, and_then, middleware, require_write, writes, bearer,
}
use api_time_machine.Api
use api_time_machine.Api.{Server, run, extract_metadata}
use api_time_machine.Api.Idempotence.{run_again}
use api_time_machine.Service
use api_time_machine.Aggregate.User.{event_created}
use api_time_machine.Commands
use api_time_machine.Service.User.{append_event}
use api_time_machine.Service.User.Shared.{users, request, append_event-append}
use api_time_machine.World.{◌>>=◌, pure}
use api_time_machine.Worker.Outbox.{publish_batch}
use api_time_machine.Worker.Outbox.Finish.{count, passes, passes-count}
use api_time_machine.Worker.Outbox.Delivery.{others, publish_batch-kept}
use api_time_machine.World.{
  World, OutboxRow, M, quiet, call, transaction, next_event_id, next_outbox_id, empty_db,
}
use api_time_machine.Result.{ok}
use api_time_machine.Examples.{ann, empty_world}

abbrev from_ann : Time → Arrival
from_ann t = record { key = "10.0.0.1"; at = t }

abbrev authenticator : Authenticator
authenticator = record { secret = "s3cret"; issuer = "time-machine" }

abbrev writer_claims : Claims
writer_claims = record { subject = "ann"; role = "writer" }

abbrev parse : String → String → Option Claims
parse secret token = some writer_claims

abbrev put_user : Auth.Request
put_user = record { path = "/users/u1"; authorization = "Bearer abc"; claims = none }

abbrev server : Server
server = record {
  replay_user = Replay.replay_user;
  idempotency = true;
  snapshot_n = pos 10;
  from_locations = λ r. record { created_at = 1; updated_at = 1 };
  to_locations = λ r. record { created_at = 1; updated_at = 1 };
}

abbrev post_user : Api.Request
post_user = record {
  id = "";
  body = none;
  actor = "ann";
  correlation_id = "";
  trace_id = "";
  idempotency_key = "k1";
  if_match = "";
  param = λ k. "";
  content_length = pos 0;
}

abbrev create_ann : M User
create_ann = Service.User.create (pos 10) (record {
  id = "u1";
  name = "Ann";
  email = "ann@example.org";
  expected_version = none;
  metadata = extract_metadata post_user;
})

abbrev created_ann : World
created_ann = (create_ann empty_world).1

key_unused : lookup "k1" empty_world.db.idempotency_keys ≡ none
unfolding lookup
key_unused = refl

ann_created :
    (create_ann (quiet empty_world) ≡ (ok ann, quiet created_ann))
    × (lookup "k1" created_ann.db.idempotency_keys ≡ none)
    × (created_ann.now ≡ 10)
unfolding Service.User.create Service.User.append Service.User.append_event Service.User.to_append
    latest_version max_version call transaction EventStore.append next_event_id next_outbox_id
    stored_event apply_user store_user user_row current_user user_of_row User.apply kind touch
    apply_case fresh set_created encode_created decode_created add64 lookup insert
ann_created = (refl, refl, refl)

run_again_example :
    let (first, end) = run server post_user 201 create_ann (quiet empty_world) in
    run server post_user 201 create_ann (record (quiet end) { now = 500 })
    ≡ (first, record (quiet end) { now = 500 })
run_again_example =
    run_again server post_user 201 create_ann create_ann ann empty_world created_ann 500 refl refl
      key_unused ann_created.0 ann_created.1 (omega (arith, ann_created.2))

abbrev outbox_row : OutboxRow
outbox_row = record {
  id = pos 1;
  aggregate_type = "user";
  aggregate_id = "u1";
  event_id = pos 1;
  payload = object [];
  published = false;
}

abbrev with_row : World
with_row = record empty_world { db = record empty_db { outbox = outbox_row ∷ [] } }

-- A broker that accepts as many payloads as its state says.
abbrev publish : Json → ℕ → Bool × ℕ
publish payload zero = (false, 0)
publish payload (suc n) = (true, n)

publish_batch-kept_example :
    let end = publish_batch publish true with_row 1 in
    others end.accepted end.world.db.outbox ≡ others end.accepted with_row.db.outbox
publish_batch-kept_example = publish_batch-kept publish true with_row 1

append_event-append_example :
    append_event "u1" none event_created
      (encode_created (record { name = "Ann"; email = "" }))
      (extract_metadata post_user)
      empty_world
    ≡ (Commands.append users (
            request "u1" none event_created
              (encode_created (record { name = "Ann"; email = "" }))
              (extract_metadata post_user))
          >>= λ e. pure e.version)
        empty_world
append_event-append_example =
    append_event-append "u1" none event_created
      (encode_created (record { name = "Ann"; email = "" })) (extract_metadata post_user)
      empty_world

-- A broker that accepts everything and counts it.
abbrev publish_all : Json → ℕ → Bool × ℕ
publish_all payload n = (true, suc n)

passes-count_example : count (passes publish_all 1 with_row 0).db.outbox ≡ 0
passes-count_example = passes-count publish_all 1 with_row 0 (λ j b. refl) (omega arith)
