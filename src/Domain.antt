-- ===== src/Domain.antt =====
-- internal/domain/event.go and internal/domain/aggregates.go: events, snapshots and queries.
use api_time_machine.Prelude.{String, Bool, true, false, ◌||◌, Option, none, some}
use api_time_machine.Prelude.Int.{ℤ}
use api_time_machine.Json.{Json, Time}

abbrev pub aggregate_user : String
aggregate_user = "user"

abbrev pub aggregate_product : String
aggregate_product = "product"

abbrev pub aggregate_order : String
aggregate_order = "order"

pub record EventMetadata : Type 0 where
  pub actor : String
  pub correlation_id : String
  pub trace_id : String
  pub idempotency_key : String

-- `payload` is the JSON document of the event.
pub record StoredEvent : Type 0 where
  pub id : ℤ
  pub aggregate_type : String
  pub aggregate_id : String
  pub event_type : String
  pub version : ℤ
  pub payload : Json
  pub metadata : EventMetadata
  pub created_at : Time

pub record Snapshot : Type 0 where
  pub id : ℤ
  pub aggregate_type : String
  pub aggregate_id : String
  pub version : ℤ
  pub state : Json
  pub created_at : Time

-- `payload` is the document that json.Marshal makes of the payload.
pub record AppendEvent : Type 0 where
  pub aggregate_type : String
  pub aggregate_id : String
  pub event_type : String
  pub version : ℤ
  pub payload : Json
  pub metadata : EventMetadata

pub record ReplayQuery : Type 0 where
  pub at : Option Time
  pub version : Option ℤ
  pub until_id : Option ℤ

abbrev pub is_some {ℓ} : {A : Type ℓ} → Option A → Bool
is_some none = false
is_some (some a) = true

unfoldable pub is_temporal : ReplayQuery → Bool
is_temporal q = is_some q.at || is_some q.version || is_some q.until_id

pub record TimelineEntry : Type 0 where
  pub version : ℤ
  pub event_type : String
  pub event_id : ℤ
  pub timestamp : Time
  pub actor : String
  pub summary : String
