-- ===== src/Aggregate/Product.antt =====
pub mod Snapshots
pub mod Apply
-- internal/product/aggregate.go
use api_time_machine.Prelude.{
  String, Bool, true, false, not, Option, none, some, List, [], ◌∷◌, str_eq, if◌then◌else◌,
}
use api_time_machine.Prelude.Int.{ℤ, pos}
use api_time_machine.Json.{
  Json, Time, bool, num, str, time, object, omit_if, omit_nil, get_field, as_fields, as_string,
  as_int, as_bool, as_time, as_string_ptr, as_int_ptr, or_keep,
}
use api_time_machine.Aggregate.{Aggregate}
use api_time_machine.Domain.{StoredEvent}
use api_time_machine.Result.{Result, ok, err, ◌>>=◌}

abbrev pub event_created : String
event_created = "ProductCreated"

abbrev pub event_updated : String
event_updated = "ProductUpdated"

abbrev pub event_deleted : String
event_deleted = "ProductDeleted"

abbrev pub event_price_changed : String
event_price_changed = "PriceChanged"

pub record Product : Type 0 where
  pub id : String
  pub name : String
  pub description : String
  pub price_cents : ℤ
  pub currency : String
  pub deleted : Bool
  pub version : ℤ
  pub created_at : Time
  pub updated_at : Time

pub record CreatedPayload : Type 0 where
  pub name : String
  pub description : String
  pub price_cents : ℤ
  pub currency : String

pub record UpdatedPayload : Type 0 where
  pub name : Option String
  pub description : Option String
  pub price_cents : Option ℤ
  pub currency : Option String

pub record PriceChangedPayload : Type 0 where
  pub price_cents : ℤ
  pub currency : String

unfoldable pub encode_created : CreatedPayload → Json
encode_created p = object (
    ("name", str p.name)
    ∷ ("description", str p.description)
    ∷ ("price_cents", num p.price_cents)
    ∷ ("currency", str p.currency)
    ∷ [])

unfoldable pub decode_created : Json → Result CreatedPayload
decode_created payload = do
  fs ← as_fields payload
  name ← as_string (get_field "name" fs) ""
  description ← as_string (get_field "description" fs) ""
  price_cents ← as_int (get_field "price_cents" fs) (pos 0)
  currency ← as_string (get_field "currency" fs) ""
  ok (record {
    name = name;
    description = description;
    price_cents = price_cents;
    currency = currency;
  })

unfoldable pub encode_updated : UpdatedPayload → Json
encode_updated p = object (
    omit_nil p.name str "name" (
      omit_nil p.description str "description"
        (omit_nil p.price_cents num "price_cents" (omit_nil p.currency str "currency" []))))

unfoldable pub decode_updated : Json → Result UpdatedPayload
decode_updated payload = do
  fs ← as_fields payload
  name ← as_string_ptr (get_field "name" fs)
  description ← as_string_ptr (get_field "description" fs)
  price_cents ← as_int_ptr (get_field "price_cents" fs)
  currency ← as_string_ptr (get_field "currency" fs)
  ok (record {
    name = name;
    description = description;
    price_cents = price_cents;
    currency = currency;
  })

unfoldable pub decode_price_changed : Json → Result PriceChangedPayload
decode_price_changed payload = do
  fs ← as_fields payload
  price_cents ← as_int (get_field "price_cents" fs) (pos 0)
  currency ← as_string (get_field "currency" fs) ""
  ok (record { price_cents = price_cents; currency = currency })

-- `product.New`
unfoldable pub fresh : String → Product
fresh id = record {
  id = id;
  name = "";
  description = "";
  price_cents = pos 0;
  currency = "USD";
  deleted = false;
  version = pos 0;
  created_at = 0;
  updated_at = 0;
}

-- `if payload.Currency != "" { p.Currency = payload.Currency }`
abbrev pub currency_or : String → String → String
currency_or new old = if str_eq new "" then old else new

unfoldable pub set_created : Product → StoredEvent → CreatedPayload → Product
set_created p event c = record p {
  name = c.name;
  description = c.description;
  price_cents = c.price_cents;
  currency = currency_or c.currency p.currency;
  created_at = event.created_at;
  deleted = false;
}

unfoldable pub set_updated : Product → UpdatedPayload → Product
set_updated p c = record p {
  name = or_keep c.name p.name;
  description = or_keep c.description p.description;
  price_cents = or_keep c.price_cents p.price_cents;
  currency = or_keep c.currency p.currency;
}

unfoldable pub set_price : Product → PriceChangedPayload → Product
set_price p c = record p {
  price_cents = c.price_cents;
  currency = currency_or c.currency p.currency;
}

unfoldable pub touch : Product → StoredEvent → Product
touch p event = record p { version = event.version; updated_at = event.created_at }

-- The cases of the switch on `event.EventType`.
pub data Kind : Type 0 where
  created updated price_changed deleted other : Kind

unfoldable pub kind : String → Kind
kind t =
    if str_eq t event_created
    then created
    else if str_eq t event_updated
    then updated
    else if str_eq t event_price_changed
    then price_changed
    else if str_eq t event_deleted
    then deleted
    else other

unfoldable pub apply_case : Kind → Product → StoredEvent → Result Product
unfolding set_created set_updated set_price
apply_case created p event = do c ← decode_created event.payload; ok (set_created p event c)
apply_case updated p event = do c ← decode_updated event.payload; ok (set_updated p c)
apply_case price_changed p event = do c ← decode_price_changed event.payload; ok (set_price p c)
apply_case deleted p event = ok (record p { deleted = true })
apply_case other p event = ok p

-- `Product.Apply`
unfoldable pub apply : Product → StoredEvent → Result Product
unfolding kind apply_case touch
apply p event = apply_case (kind event.event_type) (touch p event) event

unfoldable pub marshal_snapshot : Product → Json
marshal_snapshot p = object (
    ("id", str p.id)
    ∷ ("name", str p.name)
    ∷ ("description", str p.description)
    ∷ ("price_cents", num p.price_cents)
    ∷ ("currency", str p.currency)
    ∷ omit_if (not p.deleted) "deleted" (bool p.deleted) (
        ("version", num p.version)
        ∷ ("created_at", time p.created_at)
        ∷ ("updated_at", time p.updated_at)
        ∷ []))

unfoldable pub unmarshal_snapshot : Product → Json → Result Product
unmarshal_snapshot p state = do
  fs ← as_fields state
  id ← as_string (get_field "id" fs) p.id
  name ← as_string (get_field "name" fs) p.name
  description ← as_string (get_field "description" fs) p.description
  price_cents ← as_int (get_field "price_cents" fs) p.price_cents
  currency ← as_string (get_field "currency" fs) p.currency
  is_deleted ← as_bool (get_field "deleted" fs) p.deleted
  version ← as_int (get_field "version" fs) p.version
  created_at ← as_time (get_field "created_at" fs) p.created_at
  updated_at ← as_time (get_field "updated_at" fs) p.updated_at
  ok (record {
    id = id;
    name = name;
    description = description;
    price_cents = price_cents;
    currency = currency;
    deleted = is_deleted;
    version = version;
    created_at = created_at;
    updated_at = updated_at;
  })

-- `productAgg` of internal/replay/engine.go.
unfoldable pub product_aggregate : Aggregate Product
unfolding fresh apply unmarshal_snapshot marshal_snapshot
product_aggregate = record {
  fresh = fresh;
  apply = apply;
  unmarshal_snapshot = unmarshal_snapshot;
  marshal_snapshot = marshal_snapshot;
  current_version = λ a. a.version;
}
