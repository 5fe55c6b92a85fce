-- ===== src/Examples/Views.antt =====
-- Read models, documents, items and differences.
use api_time_machine.Prelude.{
  ◌≡◌, ◌≢◌, refl, String, true, not, str_eq, none, some, [], ◌∷◌, filter, any,
}
use api_time_machine.Prelude.Assoc.{lookup}
use api_time_machine.Prelude.Int.{pos, wrap64, Int64}
use api_time_machine.Domain.{is_some}
use api_time_machine.Aggregate.User
use api_time_machine.Aggregate.User.{
  User, UpdatedPayload, updated, kind, touch, apply_case, set_updated, decode_updated,
  encode_updated, marshal_snapshot, unmarshal_snapshot, fresh,
}
use api_time_machine.Aggregate.Product
use api_time_machine.Aggregate.Order
use api_time_machine.Aggregate.Order.{
  Item, Slice, Order, elements, remove_product, recalc_total, total_from,
}
use api_time_machine.Aggregate.Order.Consistent.{
  HasTotal, encode_created-CarriesTotal, apply_all-HasTotal,
}
use api_time_machine.Aggregate.Snapshots.{unmarshal-marshal}
use api_time_machine.Replay.Reference.{apply_all}
use api_time_machine.Domain.{StoredEvent}
use api_time_machine.Prelude.Int.{add64, mul64, ◌+ℤ◌, ◌*ℤ◌}
use api_time_machine.Aggregate.Order.Totals.{exact_total, recalc_total_lem, elements-remove_product}
use api_time_machine.World.{World, quiet, call}
use api_time_machine.Projection.{apply_user, current_user, store_user}
use api_time_machine.Projection.Current.{
  projected, Partial, current-apply_user, current-apply_user_updated,
}
use api_time_machine.Diff.{Locations, compare, user_map}
use api_time_machine.Diff.Same.{compare_self}
use api_time_machine.Diff.Fields.{expected, user_map-IsMap, lookup-compare, changed-compare}
use api_time_machine.Result.{ok}
use api_time_machine.Examples.{renamed, ann, two_events}

abbrev after_rename : World
after_rename = (apply_user renamed two_events).1

rename_applies : apply_user renamed two_events ≡ (ok tt, after_rename)
unfolding apply_user store_user User.apply kind touch apply_case fresh call decode_updated
    encode_updated set_updated
rename_applies = refl

current-apply_user_example :
    (u : User) × (User.apply (User.fresh "u1") renamed ≡ ok u)
    × ((current_user "u1" (quiet after_rename)).0
        ≡ ok (projected (lookup "u1" two_events.db.users) u))
    × ((j : String)
        → "u1" ≢ j
        → (current_user j (quiet after_rename)).0 ≡ (current_user j (quiet two_events)).0)
current-apply_user_example = current-apply_user renamed two_events after_rename rename_applies

abbrev rename : UpdatedPayload
rename = record { name = some "Anna"; email = none; address = none; avatar = none }

current-apply_user_updated_example :
    (v : User) × ((current_user "u1" (quiet after_rename)).0 ≡ ok v) × Partial renamed rename v
unfolding kind encode_updated decode_updated
current-apply_user_updated_example =
    current-apply_user_updated renamed two_events after_rename rename refl refl rename_applies

abbrev renamed_ann : User
renamed_ann = record ann { name = "Anna"; version = pos 2; updated_at = 20 }

abbrev pen : Product.Product
pen = record {
  id = "p1";
  name = "Pen";
  description = "";
  price_cents = pos 120;
  currency = "EUR";
  deleted = true;
  version = pos 3;
  created_at = 10;
  updated_at = 20;
}

abbrev two_pens : Item
two_pens = record { product_id = "p1"; quantity = pos 2; price_cents = pos 120 }

abbrev one_cup : Item
one_cup = record { product_id = "p2"; quantity = pos 1; price_cents = pos 500 }

abbrev shopping : Order
shopping = record (Order.fresh "o1") { items = some (two_pens ∷ one_cup ∷ []) }

unmarshal-marshal_example :
    (unmarshal_snapshot (fresh "u9") (marshal_snapshot ann) ≡ ok ann)
    × (Product.unmarshal_snapshot (Product.fresh "u9") (Product.marshal_snapshot pen) ≡ ok pen)
    × (Order.unmarshal_snapshot (Order.fresh "u9") (Order.marshal_snapshot shopping)
        ≡ ok (record shopping { items = some (elements shopping.items) }))
unmarshal-marshal_example = unmarshal-marshal "u9" ann pen shopping

abbrev pens_added : StoredEvent
pens_added = record renamed {
  aggregate_type = "order";
  aggregate_id = "o1";
  event_type = Order.event_item_added;
  payload = Order.encode_item_added two_pens;
}

abbrev order_made : StoredEvent
order_made = record renamed {
  aggregate_type = "order";
  aggregate_id = "o1";
  event_type = Order.event_created;
  payload = Order.encode_created (record {
    user_id = "u1";
    currency = "EUR";
    total_cents = total_from (pos 0) (two_pens ∷ []);
    items = some (two_pens ∷ []);
  });
}

abbrev with_pens : Order
with_pens = record (Order.fresh "o1") {
  user_id = "u1";
  currency = "EUR";
  items = some (two_pens ∷ two_pens ∷ []);
  total_cents = pos 480;
  version = pos 2;
  created_at = 20;
  updated_at = 20;
}

apply_all-HasTotal_example : HasTotal with_pens
unfolding apply_all Order.order_aggregate Order.apply Order.kind Order.touch Order.apply_case
    Order.fresh Order.decode_item_added Order.decode_item Order.encode_item_added Order.encode_item
    Order.recalc_total Order.total_from add64 mul64 wrap64 ◌+ℤ◌ ◌*ℤ◌ Order.set_created
    Order.encode_created Order.decode_created Order.encode_items Order.as_items Order.decode_list
    exact_total
apply_all-HasTotal_example =
    apply_all-HasTotal (Order.fresh "o1") with_pens (order_made ∷ pens_added ∷ []) refl
      (encode_created-CarriesTotal "u1" "EUR" (some (two_pens ∷ [])), (tt, tt)) refl

recalc_total_lem_example :
    ((recalc_total shopping).total_cents ≡ wrap64 (exact_total (elements shopping.items)))
    × (Int64 (exact_total (elements shopping.items))
        → (recalc_total shopping).total_cents ≡ exact_total (elements shopping.items))
recalc_total_lem_example = recalc_total_lem shopping

elements-remove_product_example :
    elements (remove_product "p1" shopping.items)
    ≡ filter (λ i. not (str_eq i.product_id "p1")) (elements shopping.items)
elements-remove_product_example = elements-remove_product "p1" shopping.items

abbrev local : Locations
local = record { created_at = 1; updated_at = 1 }

abbrev utc : Locations
utc = record { created_at = 0; updated_at = 0 }

lookup-compare_example :
    lookup "created_at" (compare (user_map local ann) (user_map utc renamed_ann)).fields
    ≡ expected
        (lookup "created_at" (user_map local ann))
        (lookup "created_at" (user_map utc renamed_ann))
lookup-compare_example =
    lookup-compare (user_map local ann) (user_map utc renamed_ann) "created_at"
      (user_map-IsMap local ann) (user_map-IsMap utc renamed_ann)

changed-compare_example :
    any
      (λ x. str_eq x "created_at")
      (compare (user_map local ann) (user_map utc renamed_ann)).changed
    ≡ is_some (lookup "created_at" (compare (user_map local ann) (user_map utc renamed_ann)).fields)
changed-compare_example =
    changed-compare (user_map local ann) (user_map utc renamed_ann) "created_at"

compare_self_example :
    ((compare (user_map utc ann) (user_map utc ann)).changed ≡ [])
    × ((compare (user_map utc ann) (user_map utc ann)).fields ≡ [])
compare_self_example = compare_self (user_map utc ann) (user_map-IsMap utc ann)
