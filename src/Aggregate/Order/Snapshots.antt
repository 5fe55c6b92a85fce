-- ===== src/Aggregate/Order/Snapshots.antt =====
-- The documents of internal/order/aggregate.go. A snapshot is read into a new order, whose items are
-- an empty slice, and null leaves them so: a nil slice comes back as an empty one.
use api_time_machine.Prelude.{String, ◌≡◌, refl, arith, none, some, List, [], ◌∷◌, map}
use api_time_machine.Json.{json_items}
use api_time_machine.Result.{ok}
use api_time_machine.Aggregate.Order.{
  Item, Slice, Order, fresh, elements, encode_item, decode_item, encode_items, decode_list,
  as_items, marshal_snapshot, unmarshal_snapshot,
}

pub decode-encode_item : (i : Item) → decode_item (encode_item i) ≡ ok i
unfolding decode_item encode_item
decode-encode_item i = ground arith

decode_list-map : (is : List Item) → decode_list (json_items (map encode_item is)) ≡ ok is
unfolding decode_list
decode_list-map [] = refl
decode_list-map (i ∷ is) = rw (decode-encode_item i, decode_list-map is)

-- What becomes of a slice that is encoded and read over the value `old`.
abbrev pub reread : Slice → Slice → Slice
reread old none = old
reread old (some is) = some is

pub as_items-encode_items :
    (old items : Slice) → as_items (some (encode_items items)) old ≡ ok (reread old items)
unfolding as_items encode_items
as_items-encode_items old none = refl
as_items-encode_items old (some is) = rw (decode_list-map is)

-- An order's snapshot, read into a new order of any id, is the order, but for a nil slice of items,
-- which becomes an empty one.
pub unmarshal-marshal_order :
    (id : String) (o : Order)
    → unmarshal_snapshot (fresh id) (marshal_snapshot o)
      ≡ ok (record o { items = some (elements o.items) })
unfolding unmarshal_snapshot fresh marshal_snapshot
unmarshal-marshal_order id o = ground (arith, as_items-encode_items (some []) o.items)
