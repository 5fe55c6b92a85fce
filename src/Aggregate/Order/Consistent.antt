-- ===== src/Aggregate/Order/Consistent.antt =====
-- The total of an order agrees with its items, whatever events are applied.
use api_time_machine.Prelude.{◌≡◌, subst, none, some, List, [], ◌∷◌, All}
use api_time_machine.Prelude.Int.{wrap64}
use api_time_machine.Domain.{StoredEvent}
use api_time_machine.Result.{Result, ok, err, ◌>>=◌}
use api_time_machine.Replay.Reference.{apply_all}
use api_time_machine.Aggregate.Order.{
  Slice, Order, CreatedPayload, Kind, created, updated, item_added, item_removed, cancelled, other,
  decode_created, decode_updated, decode_item_added, decode_item_removed, elements, recalc_total,
  append_item, remove_product, set_created, touch, kind, apply_case, apply, order_aggregate, fresh,
  total_from, encode_created,
}
use api_time_machine.Json.{or_keep}
use api_time_machine.Prelude.Int.{pos}
use api_time_machine.Prelude.{String}
use api_time_machine.Aggregate.Order.Snapshots.{as_items-encode_items}
use api_time_machine.Aggregate.Order.Totals.{exact_total, recalc_total_lem}

-- The total is the exact sum of price times quantity over the items, wrapped once to an int64.
abbrev pub HasTotal : Order → Type 0
HasTotal o = o.total_cents ≡ wrap64 (exact_total (elements o.items))

-- A payload of OrderCreated carries the total of its items, where it can be decoded.
abbrev CarriesTotal : Result CreatedPayload → Type 0
CarriesTotal (ok c) = c.total_cents ≡ wrap64 (exact_total (elements c.items))
CarriesTotal (err e) = Unit

abbrev CreatesTotal : Kind → StoredEvent → Type 0
CreatesTotal created e = CarriesTotal (decode_created e.payload)
CreatesTotal _ e = Unit

abbrev pub IsPriced : StoredEvent → Type 0
IsPriced e = CreatesTotal (kind e.event_type) e

-- An order that comes out has the right total.
abbrev Totalled : Result Order → Type 0
Totalled (ok o) = HasTotal o
Totalled (err e) = Unit

Totalled-bind {ℓ} :
    {A : Type ℓ} (r : Result A) (f : A → Order)
    → ((a : A) → HasTotal (f a))
    → Totalled (r >>= λ a. ok (f a))
Totalled-bind (ok a) f h = h a
Totalled-bind (err e) f h = tt

recalc_total-HasTotal : (o : Order) → HasTotal (recalc_total o)
unfolding recalc_total
recalc_total-HasTotal o = (recalc_total_lem o).0

created-Totalled :
    (r : Result CreatedPayload) (o : Order) (e : StoredEvent)
    → CarriesTotal r
    → Totalled (r >>= λ c. ok (set_created o e c))
unfolding set_created
created-Totalled (ok c) o e h = h
created-Totalled (err x) o e h = tt

apply_case-Totalled :
    (k : Kind) (o : Order) (e : StoredEvent)
    → HasTotal o
    → CreatesTotal k e
    → Totalled (apply_case k o e)
unfolding apply_case
apply_case-Totalled created o e h p = created-Totalled (decode_created e.payload) o e p
apply_case-Totalled updated o e h p =
    Totalled-bind (decode_updated e.payload) (λ s. record o { status = or_keep s o.status }) λ s. h
apply_case-Totalled item_added o e h p =
    Totalled-bind (decode_item_added e.payload)
      (λ i. recalc_total (record o { items = append_item o.items i }))
      λ i. recalc_total-HasTotal (record o { items = append_item o.items i })
apply_case-Totalled item_removed o e h p =
    Totalled-bind (decode_item_removed e.payload)
      (λ id. recalc_total (record o { items = remove_product id o.items }))
      λ id. recalc_total-HasTotal (record o { items = remove_product id o.items })
apply_case-Totalled cancelled o e h p = h
apply_case-Totalled other o e h p = h

apply-Totalled : (o : Order) (e : StoredEvent) → HasTotal o → IsPriced e → Totalled (apply o e)
unfolding apply touch
apply-Totalled o e h p = apply_case-Totalled (kind e.event_type) (touch o e) e h p

apply_all-Totalled :
    (o : Order) (es : List StoredEvent)
    → HasTotal o
    → All IsPriced es
    → Totalled (apply_all order_aggregate o es)
unfolding apply_all order_aggregate
apply_all-Totalled o [] h k = h
apply_all-Totalled o (e ∷ es) h k =
    rest (apply o e) (apply-Totalled o e h k.0) λ a ha. apply_all-Totalled a es ha k.1
  where
    rest :
        (r : Result Order)
        → Totalled r
        → ((a : Order) → HasTotal a → Totalled (apply_all order_aggregate a es))
        → Totalled (r >>= λ a. apply_all order_aggregate a es)
    rest (ok a) h f = f a h
    rest (err x) h f = tt

-- The payload that `Service.Create` of internal/order writes, for the items of the command.
pub encode_created-CarriesTotal :
    (user_id currency : String) (items : Slice)
    → CarriesTotal (
        decode_created (
          encode_created (record {
            user_id = user_id;
            currency = currency;
            total_cents = total_from (pos 0) (elements items);
            items = items;
          })))
unfolding encode_created decode_created recalc_total
encode_created-CarriesTotal user_id currency none =
    (recalc_total_lem (record (fresh "") { items = none })).0
encode_created-CarriesTotal user_id currency (some is) =
    rw (as_items-encode_items none (some is))
      (recalc_total_lem (record (fresh "") { items = some is })).0

-- If the total of an order is the exact sum of price times quantity over its items, wrapped once to
-- an int64, and every payload of OrderCreated among some events that can be decoded carries the
-- total of its items, then the total is still that sum after the events are applied without an
-- error, whatever items they add and remove.
pub apply_all-HasTotal :
    (o after : Order) (es : List StoredEvent)
    → HasTotal o
    → All IsPriced es
    → apply_all order_aggregate o es ≡ ok after
    → HasTotal after
apply_all-HasTotal o after es h k e = subst Totalled e (apply_all-Totalled o es h k)
