-- ===== src/Worker/Builder.antt =====
-- `SnapshotBuilder` of internal/worker/outbox.go: one pass over the aggregates that have no snapshot
-- of their latest version. The statement has no ORDER BY: the ids come in the order of their first
-- event.
pub mod Holds
pub mod Faithful
pub mod Lawful
use api_time_machine.Prelude.{
  String, Bool, not, ◌&&◌, none, List, [], ◌∷◌, take, filter, any, str_eq, if◌then◌else◌,
}
use api_time_machine.Prelude.Int.{leb_ℤ}
use api_time_machine.Domain.{
  StoredEvent, Snapshot, ReplayQuery, aggregate_user, aggregate_product, aggregate_order,
}
use api_time_machine.Aggregate.{Aggregate}
use api_time_machine.Aggregate.User.{user_aggregate}
use api_time_machine.Aggregate.Product.{product_aggregate}
use api_time_machine.Aggregate.Order.{order_aggregate}
use api_time_machine.EventStore.{of_aggregate, max_version}
use api_time_machine.SnapshotStore
use api_time_machine.Replay.{replay}
use api_time_machine.World.{World, Db, M, ◌>>=◌, call}
use api_time_machine.Result.{ok, err}

-- A snapshot of the type whose version is the latest of its aggregate's events, or later.
unfoldable pub is_current : String → List StoredEvent → Snapshot → Bool
unfolding of_aggregate max_version
is_current aggregate_type events s =
    str_eq s.aggregate_type aggregate_type
    && any (of_aggregate aggregate_type s.aggregate_id) events
    && leb_ℤ (max_version (filter (of_aggregate aggregate_type s.aggregate_id) events)) s.version

unfoldable pub has_current : String → Db → String → Bool
unfolding is_current
has_current aggregate_type db id =
    any (λ s. is_current aggregate_type db.events s && str_eq s.aggregate_id id) db.snapshots

-- SELECT DISTINCT aggregate_id FROM events WHERE aggregate_type = $1
unfoldable pub distinct_ids : String → List StoredEvent → List String
distinct_ids aggregate_type [] = []
distinct_ids aggregate_type (e ∷ es) =
    let rest = distinct_ids aggregate_type es in
    if str_eq e.aggregate_type aggregate_type
    then e.aggregate_id ∷ filter (λ id. not (str_eq id e.aggregate_id)) rest
    else rest

unfoldable pub outdated : String → Db → List String
unfolding distinct_ids has_current
outdated aggregate_type db =
    take 20 (
      filter (λ id. not (has_current aggregate_type db id)) (distinct_ids aggregate_type db.events))

abbrev pub everything : ReplayQuery
everything = record { at = none; version = none; until_id = none }

-- One case of the switch: the replayed state at its own version. An error ends it.
unfoldable pub snapshot_with : {A : Type 0} → Aggregate A → String → String → M (Unit {0})
snapshot_with agg aggregate_type id = do
  a ← replay agg aggregate_type id everything
  SnapshotStore.save aggregate_type id (agg.current_version a) (agg.marshal_snapshot a)

-- `snapshotOne`
unfoldable pub snapshot_one : String → String → World → World
unfolding snapshot_with
snapshot_one aggregate_type id w =
    if str_eq aggregate_type aggregate_user
    then (snapshot_with user_aggregate aggregate_type id w).1
    else if str_eq aggregate_type aggregate_product
    then (snapshot_with product_aggregate aggregate_type id w).1
    else if str_eq aggregate_type aggregate_order
    then (snapshot_with order_aggregate aggregate_type id w).1
    else w

abbrev snapshot_all : String → List String → World → World
snapshot_all aggregate_type [] w = w
snapshot_all aggregate_type (id ∷ ids) w =
    snapshot_all aggregate_type ids (snapshot_one aggregate_type id w)

abbrev pub types : List String
types = aggregate_user ∷ aggregate_product ∷ aggregate_order ∷ []

-- `buildSnapshots`
unfoldable pub build_snapshots : List String → World → World
unfolding snapshot_one outdated call
build_snapshots [] w = w
build_snapshots (aggregate_type ∷ rest) w =
    let (r, w') = call w in
    build_snapshots rest (elim r [
      | ok _ ↦ snapshot_all aggregate_type (outdated aggregate_type w'.db) w'
      | err _ ↦ w'
    ])
