-- ===== src/Aggregate/Order/Payloads.antt =====
-- internal/order/aggregate.go: the items of an order and the payloads of its events. A slice is an
-- Option: a nil slice is `none`, which encoding/json writes as null, and an empty one is `some []`.
use api_time_machine.Prelude.{String, Bool, Option, none, some, List, [], ◌∷◌, map}
use api_time_machine.Prelude.Int.{ℤ, pos}
use api_time_machine.Json.{
  Json, Items, nil, cons, Time, null, num, str, arr, json_items, object, omit_nil, get_field,
  as_fields, as_string, as_int, as_string_ptr,
}
use api_time_machine.Result.{Result, ok, err, decode_failed, ◌>>=◌}

pub record Item : Type 0 where
  pub product_id : String
  pub quantity : ℤ
  pub price_cents : ℤ

abbrev pub Slice : Type 0
Slice = Option (List Item)

pub record Order : Type 0 where
  pub id : String
  pub user_id : String
  pub status : String
  pub total_cents : ℤ
  pub currency : String
  pub items : Slice
  pub cancelled : Bool
  pub version : ℤ
  pub created_at : Time
  pub updated_at : Time

pub record CreatedPayload : Type 0 where
  pub user_id : String
  pub currency : String
  pub total_cents : ℤ
  pub items : Slice

unfoldable pub encode_item : Item → Json
encode_item i = object (
    ("product_id", str i.product_id)
    ∷ ("quantity", num i.quantity)
    ∷ ("price_cents", num i.price_cents)
    ∷ [])

unfoldable pub decode_item : Json → Result Item
decode_item j = do
  fs ← as_fields j
  product_id ← as_string (get_field "product_id" fs) ""
  quantity ← as_int (get_field "quantity" fs) (pos 0)
  price_cents ← as_int (get_field "price_cents" fs) (pos 0)
  ok (record { product_id = product_id; quantity = quantity; price_cents = price_cents })

unfoldable pub encode_items : Slice → Json
unfolding encode_item
encode_items none = null
encode_items (some xs) = arr (json_items (map encode_item xs))

unfoldable pub decode_list : Items → Result (List Item)
unfolding decode_item
decode_list nil = ok []
decode_list (cons j js) = do x ← decode_item j; xs ← decode_list js; ok (x ∷ xs)

unfoldable pub as_items : Option Json → Slice → Result Slice
unfolding decode_list
as_items none old = ok old
as_items (some null) old = ok old
as_items (some (arr js)) old = do xs ← decode_list js; ok (some xs)
as_items (some _) old = err decode_failed

unfoldable pub encode_created : CreatedPayload → Json
unfolding encode_items
encode_created p = object (
    ("user_id", str p.user_id)
    ∷ ("currency", str p.currency)
    ∷ ("total_cents", num p.total_cents)
    ∷ ("items", encode_items p.items)
    ∷ [])

unfoldable pub decode_created : Json → Result CreatedPayload
unfolding as_items
decode_created payload = do
  fs ← as_fields payload
  user_id ← as_string (get_field "user_id" fs) ""
  currency ← as_string (get_field "currency" fs) ""
  total_cents ← as_int (get_field "total_cents" fs) (pos 0)
  items ← as_items (get_field "items" fs) none
  ok (record { user_id = user_id; currency = currency; total_cents = total_cents; items = items })

-- UpdatedPayload
unfoldable pub encode_updated : Option String → Json
encode_updated status = object (omit_nil status str "status" [])

unfoldable pub decode_updated : Json → Result (Option String)
decode_updated payload = do fs ← as_fields payload; as_string_ptr (get_field "status" fs)

-- ItemAddedPayload. A payload with no item adds a zero Item.
unfoldable pub encode_item_added : Item → Json
unfolding encode_item
encode_item_added i = object (("item", encode_item i) ∷ [])

abbrev pub or_null : Option Json → Json
or_null none = null
or_null (some j) = j

unfoldable pub decode_item_added : Json → Result Item
unfolding decode_item
decode_item_added payload = do fs ← as_fields payload; decode_item (or_null (get_field "item" fs))

-- ItemRemovedPayload
unfoldable pub decode_item_removed : Json → Result String
decode_item_removed payload = do fs ← as_fields payload; as_string (get_field "product_id" fs) ""
