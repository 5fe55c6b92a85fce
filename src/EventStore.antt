-- ===== src/EventStore.antt =====
pub mod Append
pub mod Log
-- internal/eventstore/store.go over the tables `events` and `outbox`.
use mathlib.Core.List.{foldl}
use api_time_machine.Prelude.{
  ℕ, String, Bool, true, false, not, ◌&&◌, Option, none, some, List, [], ◌∷◌, ◌++◌, map, take, leb,
  filter, any, str_eq, if◌then◌else◌,
}
use api_time_machine.Prelude.Int.{ℤ, pos, leb_ℤ, ltb_ℤ, eqb_ℤ}
use api_time_machine.Prelude.Sort.{order_by}
use api_time_machine.Json.{Json, Time, num, str, object}
use api_time_machine.Domain.{StoredEvent, AppendEvent, ReplayQuery, TimelineEntry}
use api_time_machine.World.{
  World, Db, M, OutboxRow, ◌>>=◌, ◌>>◌, pure, throw, gets, modify_db, guard_not, call,
  next_event_id, next_outbox_id,
}
use api_time_machine.Result.{conflict}

-- WHERE aggregate_type = $1 AND aggregate_id = $2
unfoldable pub of_aggregate : String → String → StoredEvent → Bool
of_aggregate aggregate_type aggregate_id e =
    str_eq e.aggregate_type aggregate_type && str_eq e.aggregate_id aggregate_id

-- UNIQUE (aggregate_type, aggregate_id, version)
unfoldable pub same_version : AppendEvent → StoredEvent → Bool
unfolding of_aggregate
same_version a e = of_aggregate a.aggregate_type a.aggregate_id e && eqb_ℤ e.version a.version

unfoldable pub outbox_payload : StoredEvent → Json
outbox_payload e = object (
    ("event_id", num e.id)
    ∷ ("aggregate_type", str e.aggregate_type)
    ∷ ("aggregate_id", str e.aggregate_id)
    ∷ ("event_type", str e.event_type)
    ∷ ("version", num e.version)
    ∷ ("payload", e.payload)
    ∷ [])

unfoldable pub stored_event : ℤ → Time → AppendEvent → StoredEvent
stored_event id created_at a = record {
  id = id;
  aggregate_type = a.aggregate_type;
  aggregate_id = a.aggregate_id;
  event_type = a.event_type;
  version = a.version;
  payload = a.payload;
  metadata = a.metadata;
  created_at = created_at;
}

unfoldable pub outbox_row : ℤ → StoredEvent → OutboxRow
unfolding outbox_payload
outbox_row id e = record {
  id = id;
  aggregate_type = e.aggregate_type;
  aggregate_id = e.aggregate_id;
  event_id = e.id;
  payload = outbox_payload e;
  published = false;
}

-- `Store.Append`: both inserts, in the caller's transaction. `created_at` is the column's NOW().
unfoldable pub append : AppendEvent → M StoredEvent
unfolding same_version stored_event outbox_row call next_event_id next_outbox_id
append event = do
  call
  id ← next_event_id
  taken ← gets (λ w. any (same_version event) w.db.events)
  guard_not taken conflict
  stored ← gets (λ w. stored_event id w.now event)
  modify_db (λ db. record db { events = db.events ++ stored ∷ [] })
  call
  row ← next_outbox_id
  modify_db (λ db. record db { outbox = db.outbox ++ outbox_row row stored ∷ [] })
  pure stored

abbrev pub version_le : StoredEvent → StoredEvent → Bool
version_le a b = leb_ℤ a.version b.version

-- `Store.LoadEvents`
unfoldable pub load_events : String → String → ℤ → M (List StoredEvent)
unfolding of_aggregate order_by call
load_events aggregate_type aggregate_id after = do
  call
  gets λ w. order_by version_le (
      filter (λ e. of_aggregate aggregate_type aggregate_id e && ltb_ℤ after e.version) w.db.events)

abbrev pub at_most : Option ℤ → ℤ → Bool
at_most none v = true
at_most (some bound) v = leb_ℤ v bound

abbrev pub not_after : Option Time → Time → Bool
not_after none t = true
not_after (some bound) t = leb t bound

-- The conditions that `LoadEventsUntil` adds to its statement.
unfoldable pub within : ReplayQuery → StoredEvent → Bool
within q e = at_most q.version e.version && not_after q.at e.created_at && at_most q.until_id e.id

unfoldable pub rows_until : String → String → ReplayQuery → List StoredEvent → List StoredEvent
unfolding of_aggregate within order_by
rows_until aggregate_type aggregate_id query events =
    order_by version_le
      (filter (λ e. of_aggregate aggregate_type aggregate_id e && within query e) events)

-- `Store.LoadEventsUntil`
unfoldable pub load_events_until : String → String → ReplayQuery → M (List StoredEvent)
unfolding rows_until call
load_events_until aggregate_type aggregate_id query = do
  call
  gets (λ w. rows_until aggregate_type aggregate_id query w.db.events)

abbrev max_ℤ : ℤ → ℤ → ℤ
max_ℤ a b = if leb_ℤ a b then b else a

-- COALESCE(MAX(version), 0)
unfoldable pub max_version : List StoredEvent → ℤ
max_version [] = pos 0
max_version (e ∷ []) = e.version
max_version (e ∷ f ∷ es) = max_ℤ e.version (max_version (f ∷ es))

-- `Store.LatestVersion`
unfoldable pub latest_version : String → String → M ℤ
unfolding of_aggregate max_version call
latest_version aggregate_type aggregate_id = do
  call
  gets (λ w. max_version (filter (of_aggregate aggregate_type aggregate_id) w.db.events))

unfoldable pub timeline_entry : StoredEvent → TimelineEntry
timeline_entry e = record {
  version = e.version;
  event_type = e.event_type;
  event_id = e.id;
  timestamp = e.created_at;
  actor = e.metadata.actor;
  summary = e.event_type;
}

-- `Store.Timeline`
unfoldable pub timeline : String → String → M (List TimelineEntry)
unfolding of_aggregate order_by timeline_entry call
timeline aggregate_type aggregate_id = do
  call
  gets λ w.
      map timeline_entry
        (order_by version_le (filter (of_aggregate aggregate_type aggregate_id) w.db.events))

-- `Store.History`
unfoldable pub history : String → String → M (List StoredEvent)
unfolding load_events_until
history aggregate_type aggregate_id =
    load_events_until aggregate_type aggregate_id
      (record { at = none; version = none; until_id = none })

pub record SearchFilter : Type 0 where
  pub aggregate_type : String
  pub aggregate_id : String
  pub event_type : String
  pub actor : String
  pub correlation_id : String
  pub from : Option Time
  pub to : Option Time

-- `if filter.X != "" { q += " AND x = $n" }`
abbrev wanted : String → String → Bool
wanted f x = if str_eq f "" then true else str_eq x f

abbrev not_before : Option Time → Time → Bool
not_before none t = true
not_before (some bound) t = leb bound t

unfoldable pub selects : SearchFilter → StoredEvent → Bool
selects f e =
    wanted f.aggregate_type e.aggregate_type
    && wanted f.aggregate_id e.aggregate_id
    && wanted f.event_type e.event_type
    && wanted f.actor e.metadata.actor
    && wanted f.correlation_id e.metadata.correlation_id
    && not_before f.from e.created_at
    && not_after f.to e.created_at

abbrev pub newest_first : StoredEvent → StoredEvent → Bool
newest_first a b = leb b.created_at a.created_at

-- `Store.Search`
unfoldable pub search_events : SearchFilter → M (List StoredEvent)
unfolding selects order_by call
search_events filter_by = do
  call
  gets (λ w. take 500 (order_by newest_first (filter (selects filter_by) w.db.events)))
