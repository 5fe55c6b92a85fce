-- ===== src/Aggregate/Order.antt =====
pub mod Payloads
unfoldable pub use Payloads.*
pub mod Snapshots
pub mod Totals
pub mod Consistent
-- internal/order/aggregate.go. A slice is an Option: a nil slice is `none`, which encoding/json
-- writes as null, and an empty one is `some []`.
use api_time_machine.Prelude.{
  String, Bool, true, false, not, Option, none, some, List, [], ◌∷◌, ◌++◌, map, str_eq,
  if◌then◌else◌,
}
use api_time_machine.Prelude.Int.{ℤ, pos, add64, mul64}
use api_time_machine.Prelude.Compact.{compact}
use api_time_machine.Json.{
  Json, Items, nil, cons, Time, null, bool, num, str, time, arr, json_items, object, omit_if,
  omit_nil, get_field, as_fields, as_string, as_int, as_bool, as_time, as_string_ptr, or_keep,
}
use api_time_machine.Aggregate.{Aggregate}
use api_time_machine.Domain.{StoredEvent}
use api_time_machine.Result.{Result, ok, err, decode_failed, ◌>>=◌}

abbrev pub event_created : String
event_created = "OrderCreated"

abbrev pub event_updated : String
event_updated = "OrderUpdated"

abbrev pub event_cancelled : String
event_cancelled = "OrderCancelled"

abbrev pub event_item_added : String
event_item_added = "OrderItemAdded"

abbrev pub event_item_removed : String
event_item_removed = "OrderItemRemoved"

-- `order.New`
unfoldable pub fresh : String → Order
fresh id = record {
  id = id;
  user_id = "";
  status = "pending";
  total_cents = pos 0;
  currency = "USD";
  items = some [];
  cancelled = false;
  version = pos 0;
  created_at = 0;
  updated_at = 0;
}

-- The elements that `range` runs through.
abbrev pub elements : Slice → List Item
elements none = []
elements (some xs) = xs

-- `total += item.PriceCents * int64(item.Quantity)` over the items, on int64.
unfoldable pub total_from : ℤ → List Item → ℤ
total_from total [] = total
total_from total (i ∷ is) = total_from (add64 total (mul64 i.price_cents i.quantity)) is

unfoldable pub recalc_total : Order → Order
unfolding total_from
recalc_total o = record o { total_cents = total_from (pos 0) (elements o.items) }

abbrev pub append_item : Slice → Item → Slice
append_item none i = some (i ∷ [])
append_item (some xs) i = some (xs ++ i ∷ [])

-- `filtered := o.Items[:0]` and the loop that appends to it.
unfoldable pub remove_product : String → Slice → Slice
remove_product product_id none = none
remove_product product_id (some xs) = some (compact (λ i. not (str_eq i.product_id product_id)) xs)

unfoldable pub set_created : Order → StoredEvent → CreatedPayload → Order
set_created o event c = record o {
  user_id = c.user_id;
  total_cents = c.total_cents;
  currency = if str_eq c.currency "" then o.currency else c.currency;
  items = c.items;
  status = "pending";
  created_at = event.created_at;
}

unfoldable pub touch : Order → StoredEvent → Order
touch o event = record o { version = event.version; updated_at = event.created_at }

-- The cases of the switch on `event.EventType`.
pub data Kind : Type 0 where
  created updated item_added item_removed cancelled other : Kind

unfoldable pub kind : String → Kind
kind t =
    if str_eq t event_created
    then created
    else if str_eq t event_updated
    then updated
    else if str_eq t event_item_added
    then item_added
    else if str_eq t event_item_removed
    then item_removed
    else if str_eq t event_cancelled
    then cancelled
    else other

unfoldable pub apply_case : Kind → Order → StoredEvent → Result Order
unfolding set_created
apply_case created o event = do c ← decode_created event.payload; ok (set_created o event c)
apply_case updated o event = do
  status ← decode_updated event.payload
  ok (record o { status = or_keep status o.status })
apply_case item_added o event = do
  i ← decode_item_added event.payload
  ok (recalc_total (record o { items = append_item o.items i }))
apply_case item_removed o event = do
  product_id ← decode_item_removed event.payload
  ok (recalc_total (record o { items = remove_product product_id o.items }))
apply_case cancelled o event = ok (record o { cancelled = true; status = "cancelled" })
apply_case other o event = ok o

-- `Order.Apply`
unfoldable pub apply : Order → StoredEvent → Result Order
unfolding kind apply_case touch
apply o event = apply_case (kind event.event_type) (touch o event) event

unfoldable pub marshal_snapshot : Order → Json
unfolding encode_items
marshal_snapshot o = object (
    ("id", str o.id)
    ∷ ("user_id", str o.user_id)
    ∷ ("status", str o.status)
    ∷ ("total_cents", num o.total_cents)
    ∷ ("currency", str o.currency)
    ∷ ("items", encode_items o.items)
    ∷ omit_if (not o.cancelled) "cancelled" (bool o.cancelled) (
        ("version", num o.version)
        ∷ ("created_at", time o.created_at)
        ∷ ("updated_at", time o.updated_at)
        ∷ []))

unfoldable pub unmarshal_snapshot : Order → Json → Result Order
unfolding as_items
unmarshal_snapshot o state = do
  fs ← as_fields state
  id ← as_string (get_field "id" fs) o.id
  user_id ← as_string (get_field "user_id" fs) o.user_id
  status ← as_string (get_field "status" fs) o.status
  total_cents ← as_int (get_field "total_cents" fs) o.total_cents
  currency ← as_string (get_field "currency" fs) o.currency
  items ← as_items (get_field "items" fs) o.items
  is_cancelled ← as_bool (get_field "cancelled" fs) o.cancelled
  version ← as_int (get_field "version" fs) o.version
  created_at ← as_time (get_field "created_at" fs) o.created_at
  updated_at ← as_time (get_field "updated_at" fs) o.updated_at
  ok (record {
    id = id;
    user_id = user_id;
    status = status;
    total_cents = total_cents;
    currency = currency;
    items = items;
    cancelled = is_cancelled;
    version = version;
    created_at = created_at;
    updated_at = updated_at;
  })

-- `orderAgg` of internal/replay/engine.go.
unfoldable pub order_aggregate : Aggregate Order
unfolding fresh apply unmarshal_snapshot marshal_snapshot
order_aggregate = record {
  fresh = fresh;
  apply = apply;
  unmarshal_snapshot = unmarshal_snapshot;
  marshal_snapshot = marshal_snapshot;
  current_version = λ a. a.version;
}
