-- ===== src/Api/Orders.antt =====
-- internal/api/catalog.go: the handlers of orders.
use api_time_machine.Prelude.{String, Option, none, some, List, [], ◌∷◌, ◌++◌}
use api_time_machine.Prelude.Int.{pos}
use api_time_machine.Json.{
  Json, Items, nil, cons, null, arr, as_fields, as_string, read_field, read_string, read_int,
  read_string_ptr,
}
use api_time_machine.Domain.{aggregate_order}
use api_time_machine.Aggregate.Order.{Item, Slice, elements, marshal_snapshot}
use api_time_machine.Service
use api_time_machine.Diff.{order_map}
use api_time_machine.Projection.{current_order}
use api_time_machine.Replay.{replay_order}
use api_time_machine.Result.{Result, ok, err, decode_failed, ◌>>=◌}
use api_time_machine.Api.{
  Server, Request, Handler, run_plain, extract_metadata, parse_expected_version, with_body, answer,
}
use api_time_machine.Api.Reads.{
  get_entity, entity_history, entity_timeline, entity_diff, replay_request, time_or_version,
  or_no_bounds,
}

abbrev zero_item : Item
zero_item = record { product_id = ""; quantity = pos 0; price_cents = pos 0 }

-- An element of a body's items, decoded into an Item.
unfoldable read_item : Json → Item → Result Item
read_item j old = do
  fs ← as_fields j
  product_id ← read_field (λ j old. as_string (some j) old) "product_id" fs old.product_id
  quantity ← read_int "quantity" fs old.quantity
  price_cents ← read_int "price_cents" fs old.price_cents
  ok (record { product_id = product_id; quantity = quantity; price_cents = price_cents })

-- An array is decoded over the elements that the slice's memory holds: the new ones, and the rest.
unfoldable read_list : Items → List Item → Result (List Item × List Item)
unfolding read_item
read_list nil old = ok ([], old)
read_list (cons j js) [] = do
  x ← read_item j zero_item
  (xs, rest) ← read_list js []
  ok (x ∷ xs, rest)
read_list (cons j js) (i ∷ old) = do
  x ← read_item j i
  (xs, rest) ← read_list js old
  ok (x ∷ xs, rest)

-- A slice, and what its memory holds behind it.
unfoldable read_items : Json → Slice × List Item → Result (Slice × List Item)
unfolding read_list
read_items null old = ok (none, [])
read_items (arr nil) old = ok (some [], [])
read_items (arr (cons j js)) (s, rest) = do
  (xs, rest') ← read_list (cons j js) (elements s ++ rest)
  ok (some xs, rest')
read_items _ old = err decode_failed

pub record CreateRequest : Type 0 where
  pub id : String
  pub user_id : String
  pub currency : String
  pub items : Slice

unfoldable pub decode_create : Json → Result CreateRequest
unfolding read_items
decode_create j = do
  fs ← as_fields j
  id ← read_string "id" fs
  user_id ← read_string "user_id" fs
  currency ← read_string "currency" fs
  (items, rest) ← read_field read_items "items" fs (none, [])
  ok (record { id = id; user_id = user_id; currency = currency; items = items })

unfoldable pub decode_update : Json → Result (Option String)
decode_update j = do fs ← as_fields j; read_string_ptr "status" fs

-- `Server.createOrder`
unfoldable pub create_order : Request → Handler
unfolding decode_create run_plain extract_metadata
create_order r = with_body r decode_create λ req. run_plain marshal_snapshot 201 (
    Service.Order.create (record {
      id = req.id;
      user_id = req.user_id;
      items = req.items;
      currency = req.currency;
      metadata = extract_metadata r;
    }))

-- `Server.updateOrder`
unfoldable pub update_order : Request → Handler
unfolding decode_update run_plain extract_metadata parse_expected_version
update_order r = with_body r decode_update λ status. run_plain marshal_snapshot 200 (
    Service.Order.update (record {
      id = r.id;
      status = status;
      expected_version = parse_expected_version r;
      metadata = extract_metadata r;
    }))

-- `Server.cancelOrder`
unfoldable pub cancel_order : Request → Handler
unfolding run_plain extract_metadata parse_expected_version
cancel_order r = run_plain marshal_snapshot 200 (
    Service.Order.cancel (record {
      id = r.id;
      expected_version = parse_expected_version r;
      metadata = extract_metadata r;
    }))

unfoldable pub decode_add_item : Json → Result Item
unfolding read_item
decode_add_item j = do fs ← as_fields j; read_field read_item "item" fs zero_item

-- `Server.addOrderItem`
unfoldable pub add_order_item : Request → Handler
unfolding decode_add_item run_plain extract_metadata parse_expected_version
add_order_item r = with_body r decode_add_item λ item. run_plain marshal_snapshot 200 (
    Service.Order.add_item (record {
      id = r.id;
      item = item;
      expected_version = parse_expected_version r;
      metadata = extract_metadata r;
    }))

-- `Server.getOrder`
unfoldable pub get_order : Request → Handler
unfolding get_entity
get_order r = get_entity marshal_snapshot (replay_order r.id) (current_order r.id) r

-- `Server.orderHistory`
unfoldable pub order_history : Request → Handler
unfolding entity_history
order_history = entity_history aggregate_order

-- `Server.orderTimeline`
unfoldable pub order_timeline : Request → Handler
unfolding entity_timeline
order_timeline = entity_timeline aggregate_order

-- `Server.orderDiff`: a bound that does not parse is dropped.
unfoldable pub order_diff : Server → Request → Handler
unfolding entity_diff time_or_version
order_diff s r =
    entity_diff order_map s r (replay_order r.id (or_no_bounds (time_or_version r "from")))
      (replay_order r.id (or_no_bounds (time_or_version r "to")))

-- `Server.orderReplay`
unfoldable pub order_replay : Request → Handler
unfolding answer replay_request
order_replay r = answer marshal_snapshot (replay_order r.id (replay_request r))
