-- ===== src/Api/Encode.antt =====
-- The documents of internal/domain/event.go that the handlers answer with. The keys of a Go map come
-- in the order of the association list that stands for it.
use api_time_machine.Prelude.{Option, none, some, List, [], ◌∷◌, map, str_eq, is_empty}
use api_time_machine.Prelude.Assoc.{Assoc}
use api_time_machine.Json.{Json, null, bool, num, str, time, arr, json_items, object, omit_if}
use api_time_machine.Domain.{EventMetadata, StoredEvent, TimelineEntry}
use api_time_machine.Aggregate.Order.{encode_items}
use api_time_machine.Diff.{Value, text, int64, flag, instant, items, FieldChange, DiffResult}

unfoldable pub encode_metadata : EventMetadata → Json
encode_metadata m = object (
    omit_if (str_eq m.actor "") "actor" (str m.actor) (
      omit_if (str_eq m.correlation_id "") "correlation_id" (str m.correlation_id) (
        omit_if (str_eq m.trace_id "") "trace_id" (str m.trace_id)
          (omit_if (str_eq m.idempotency_key "") "idempotency_key" (str m.idempotency_key) []))))

unfoldable pub encode_event : StoredEvent → Json
unfolding encode_metadata
encode_event e = object (
    ("id", num e.id)
    ∷ ("aggregate_type", str e.aggregate_type)
    ∷ ("aggregate_id", str e.aggregate_id)
    ∷ ("event_type", str e.event_type)
    ∷ ("version", num e.version)
    ∷ ("payload", e.payload)
    ∷ ("metadata", encode_metadata e.metadata)
    ∷ ("created_at", time e.created_at)
    ∷ [])

unfoldable pub encode_entry : TimelineEntry → Json
encode_entry e = object (
    ("version", num e.version)
    ∷ ("event_type", str e.event_type)
    ∷ ("event_id", num e.event_id)
    ∷ ("timestamp", time e.timestamp)
    ∷ omit_if (str_eq e.actor "") "actor" (str e.actor)
        (omit_if (str_eq e.summary "") "summary" (str e.summary) []))

-- A slice that was only appended to: nil while it is empty.
abbrev pub encode_slice {ℓ} : {A : Type ℓ} → (A → Json) → List A → Json
encode_slice f [] = null
encode_slice f (x ∷ xs) = arr (json_items (map f (x ∷ xs)))

unfoldable pub encode_value : Value → Json
unfolding encode_items
encode_value (text s) = str s
encode_value (int64 n) = num n
encode_value (flag b) = bool b
encode_value (instant t l) = time t
encode_value (items is) = encode_items is

abbrev encode_any : Option Value → Json
encode_any none = null
encode_any (some v) = encode_value v

unfoldable pub encode_change : FieldChange → Json
unfolding encode_value
encode_change c = object (("from", encode_any c.before) ∷ ("to", encode_any c.after) ∷ [])

abbrev encode_map : {V : Type 0} → (V → Json) → Assoc V → Json
encode_map f m = object (map (λ kv. (kv.0, f kv.1)) m)

unfoldable pub encode_diff : DiffResult → Json
unfolding encode_value encode_change
encode_diff d = object (
    ("changed", encode_slice str d.changed)
    ∷ ("from", encode_map encode_value d.from)
    ∷ ("to", encode_map encode_value d.to)
    ∷ omit_if (is_empty d.fields) "fields" (encode_map encode_change d.fields) [])
