-- ===== src/Examples/Replays.antt =====
-- Replays of a user with a snapshot.
use api_time_machine.Prelude.{◌≡◌, refl, arith, none, some, inr, [], ◌∷◌}
use api_time_machine.Prelude.Int.{pos}
use api_time_machine.Domain.{ReplayQuery, aggregate_user}
use api_time_machine.Aggregate.User.{
  user_aggregate, encode_created, decode_created, set_created, touch, encode_updated,
  decode_updated, set_updated, fresh, marshal_snapshot, unmarshal_snapshot,
}
use api_time_machine.World.{quiet}
use api_time_machine.Result.{ok, ◌>>=◌}
use api_time_machine.EventStore.{rows_until}
use api_time_machine.Prelude.Sort.{order_by}
use api_time_machine.SnapshotStore
use api_time_machine.SnapshotStore.{greatest, latest}
use api_time_machine.EventStore.{load_events_until}
use api_time_machine.Replay.{replay, start, apply_events}
use api_time_machine.Replay.Reference.{reference, apply_all, or_not_found}
use api_time_machine.Replay.Correct.{replay-eq-reference, IsFaithful}
use api_time_machine.Replay.Past.{replay-past, rows_or}
use api_time_machine.EventStore.{of_aggregate, latest_version, max_version}
use api_time_machine.EventStore.Log.{IsLog, IsLog-append}
use api_time_machine.World.{World, call, transaction, ◌>>◌}
use api_time_machine.Commands.{read, write, check}
use api_time_machine.Service.Product.{commands}
use api_time_machine.Projection.Laws.{apply_product-IsProjector}
use api_time_machine.Commands.Interleaving.{System, Inv, Reach, here, next, start as begin, finish}
use api_time_machine.Replay.History.{replay-Reach}
use api_time_machine.Examples.Writes.{create_pen, pending}
use api_time_machine.EventStore
use api_time_machine.EventStore.{stored_event}
use api_time_machine.World.{next_event_id, next_outbox_id}
use api_time_machine.Domain.{aggregate_product}
use api_time_machine.Aggregate.Product
use api_time_machine.Aggregate.Product.{product_aggregate}
use api_time_machine.Projection.{apply_product, store_product}
use api_time_machine.Prelude.Int.{add64}
use api_time_machine.Commands.{to_append, append}
use api_time_machine.Replay.Correct.{up_to}
use api_time_machine.Replay.Committed.{append-replay}
use api_time_machine.Examples.{empty_world}
use api_time_machine.Examples.Writes.{with_pen, registered_pen}
use api_time_machine.Examples.{two_events, registered, renamed, ann, first_snapshot}

abbrev at_version_two : ReplayQuery
at_version_two = record { at = none; version = some (pos 2); until_id = none }

abbrev at_instant_five : ReplayQuery
at_instant_five = record { at = some 5; version = none; until_id = none }

first_snapshot-IsFaithful :
    IsFaithful user_aggregate aggregate_user "u1" (registered ∷ renamed ∷ []) first_snapshot
unfolding user_aggregate fresh unmarshal_snapshot marshal_snapshot rows_until order_by apply_all
    encode_created decode_created set_created touch
first_snapshot-IsFaithful = refl

replay_from_snapshot :
    (replay user_aggregate aggregate_user "u1" at_version_two two_events).0
    ≡ ok (record ann { name = "Anna"; version = pos 2; updated_at = 20 })
unfolding replay start user_aggregate fresh unmarshal_snapshot marshal_snapshot rows_until order_by
    apply_events encode_updated decode_updated set_updated touch latest load_events_until greatest
replay_from_snapshot = refl

replay-eq-reference_example :
    (replay user_aggregate aggregate_user "u1" at_version_two (quiet two_events)).0
    ≡ reference user_aggregate aggregate_user "u1" at_version_two two_events.db.events
unfolding greatest SnapshotStore.of_aggregate
replay-eq-reference_example =
    replay-eq-reference user_aggregate aggregate_user "u1" at_version_two two_events
      (omega arith, (omega arith, tt)) (inr (first_snapshot-IsFaithful, refl, refl))

replay-past_example :
    (replay user_aggregate aggregate_user "u1" at_instant_five (quiet two_events)).0 ≡ (
      apply_all user_aggregate
        (user_aggregate.fresh "u1")
        (rows_or aggregate_user "u1" at_instant_five (pos 1) two_events.db.events)
      >>= or_not_found user_aggregate)
unfolding greatest SnapshotStore.of_aggregate
replay-past_example =
    replay-past user_aggregate aggregate_user "u1" at_instant_five two_events first_snapshot refl
      first_snapshot-IsFaithful refl

two_events-IsLog : IsLog two_events.db.events
unfolding of_aggregate
two_events-IsLog =
    IsLog-append (registered ∷ []) renamed (IsLog-append [] registered (λ t i. tt) refl) refl

abbrev users : System
users = record { world = two_events; pending = [] }

users-Inv : Inv users
users-Inv = record { is_log = two_events-IsLog; counted = omega arith; reads = tt }

-- A product is created after the two events of the user.
abbrev pen_read : World
pen_read = ((call >> read commands create_pen) two_events).1

abbrev pen_added : World
pen_added = (transaction (write commands create_pen (pos 0)) pen_read).1

later : Reach users (record { world = pen_added; pending = [] })
unfolding read check latest_version max_version call
later =
    next
      (next here (begin commands create_pen users (pos 0) pen_read apply_product-IsProjector refl))
      (finish (record { world = pen_read; pending = pending ∷ [] }) [] [] pending refl)

replay-Reach_example :
    (replay user_aggregate aggregate_user "u1" at_version_two (quiet pen_added)).0
    ≡ (replay user_aggregate aggregate_user "u1" at_version_two (quiet two_events)).0
unfolding greatest SnapshotStore.of_aggregate of_aggregate
replay-Reach_example =
    replay-Reach user_aggregate aggregate_user "u1" 2 users-Inv later (omega arith)
      (inr (first_snapshot-IsFaithful, refl, refl))

append-replay_example :
    (registered_pen.version ≡ pos 1)
    × ((replay product_aggregate aggregate_product "p1"
          (up_to registered_pen.version)
          (quiet with_pen)).0
        ≡ (apply_all product_aggregate (product_aggregate.fresh "p1") (registered_pen ∷ [])
            >>= or_not_found product_aggregate))
unfolding append read check latest_version max_version call transaction write EventStore.append
    next_event_id next_outbox_id stored_event to_append apply_product store_product Product.apply
    Product.kind Product.touch Product.apply_case Product.set_created Product.fresh
    Product.encode_created Product.decode_created add64 greatest
append-replay_example =
    append-replay product_aggregate commands create_pen apply_product-IsProjector registered_pen
      empty_world with_pen (λ t id. tt) (omega arith) refl tt
