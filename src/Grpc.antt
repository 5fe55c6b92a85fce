-- ===== src/Grpc.antt =====
-- internal/grpc/server.go: the service of api/proto. The messages are the fields that the server sets;
-- gRPC itself, and the texts that errors become, are left out. `AsTime` and `timestamppb.New` are those of a
-- timestamp that is given as an instant.
pub mod Messages
use api_time_machine.Prelude.{
  ℕ, String, Bool, true, false, Option, none, some, List, [], ◌∷◌, map, ◌%◌, ◌-◌, ◌^◌, ltb,
  if◌then◌else◌,
}
use api_time_machine.Prelude.Int.{ℤ, pos, negsuc, bits, ltb_ℤ}
use api_time_machine.Json.{Json, Time}
use api_time_machine.Domain.{StoredEvent, TimelineEntry, ReplayQuery, is_temporal}
use api_time_machine.EventStore
use api_time_machine.Aggregate.User.{User}
use api_time_machine.Aggregate.Product.{Product}
use api_time_machine.Aggregate.Order.{Order, Item}
use api_time_machine.Projection.{current_user, current_product, current_order}
use api_time_machine.Replay.{replay_product, replay_order}
use api_time_machine.World.{World, M, ◌>>=◌, pure}

pub record UserMessage : Type 0 where
  pub id : String
  pub name : String
  pub email : String
  pub version : ℤ
  pub deleted : Bool

pub record ProductMessage : Type 0 where
  pub id : String
  pub name : String
  pub description : String
  pub price_cents : ℤ
  pub currency : String
  pub version : ℤ
  pub deleted : Bool

pub record OrderItem : Type 0 where
  pub product_id : String
  pub quantity : ℤ
  pub price_cents : ℤ

pub record OrderMessage : Type 0 where
  pub id : String
  pub user_id : String
  pub status : String
  pub total_cents : ℤ
  pub currency : String
  pub items : List OrderItem
  pub version : ℤ
  pub cancelled : Bool

-- `int32(n)`: the low 32 bits.
unfoldable pub to_int32 : ℤ → ℤ
to_int32 n = let m = bits n % 2 ^ 32 in if ltb m (2 ^ 31) then pos m else negsuc (2 ^ 32 - 1 - m)

-- `toProtoUser`
abbrev pub to_proto_user : User → UserMessage
to_proto_user u = record {
  id = u.id;
  name = u.name;
  email = u.email;
  version = u.version;
  deleted = u.deleted;
}

-- `toProtoProduct`
abbrev pub to_proto_product : Product → ProductMessage
to_proto_product p = record {
  id = p.id;
  name = p.name;
  description = p.description;
  price_cents = p.price_cents;
  currency = p.currency;
  version = p.version;
  deleted = p.deleted;
}

unfoldable pub to_proto_item : Item → OrderItem
unfolding to_int32
to_proto_item i = record {
  product_id = i.product_id;
  quantity = to_int32 i.quantity;
  price_cents = i.price_cents;
}

abbrev pub elements : Option (List Item) → List Item
elements none = []
elements (some is) = is

-- `toProtoOrder`
unfoldable pub to_proto_order : Order → OrderMessage
unfolding to_proto_item
to_proto_order o = record {
  id = o.id;
  user_id = o.user_id;
  status = o.status;
  total_cents = o.total_cents;
  currency = o.currency;
  items = map to_proto_item (elements o.items);
  version = o.version;
  cancelled = o.cancelled;
}

-- `entityQuery` and `replayQuery`: 0 is no version.
unfoldable pub entity_query : Option Time → ℤ → ReplayQuery
entity_query at version = record {
  at = at;
  version = if ltb_ℤ (pos 0) version then some version else none;
  until_id = none;
}

-- GetEntityRequest and ReplayRequest
pub record Request : Type 0 where
  pub id : String
  pub at : Option Time
  pub version : ℤ

abbrev pub fmap : {A B : Type 0} → (A → B) → M A → M B
fmap f m = m >>= λ a. pure (f a)

-- The handlers that get one aggregate.
unfoldable pub get_entity :
    {A B : Type 0} → (A → B) → (String → ReplayQuery → M A) → (String → M A) → Request → M B
unfolding entity_query
get_entity to_proto replay current req =
    let q = entity_query req.at req.version in
    fmap to_proto (if is_temporal q then replay req.id q else current req.id)

-- The handlers that replay one aggregate.
unfoldable pub replay_entity :
    {A B : Type 0} → (A → B) → (String → ReplayQuery → M A) → Request → M B
unfolding entity_query
replay_entity to_proto replay req = fmap to_proto (replay req.id (entity_query req.at req.version))

-- `Server.replay`, which may answer from the cache, is the first argument.
-- `Server.GetUser`
unfoldable pub get_user : (String → ReplayQuery → M User) → Request → M UserMessage
unfolding get_entity
get_user replay = get_entity to_proto_user replay current_user

-- `Server.ReplayUser`
unfoldable pub replay_user : (String → ReplayQuery → M User) → Request → M UserMessage
unfolding replay_entity
replay_user replay = replay_entity to_proto_user replay

-- `Server.GetProduct`
unfoldable pub get_product : Request → M ProductMessage
unfolding get_entity
get_product = get_entity to_proto_product replay_product current_product

-- `Server.ReplayProduct`
unfoldable pub replay_product_request : Request → M ProductMessage
unfolding replay_entity
replay_product_request = replay_entity to_proto_product replay_product

-- `Server.GetOrder`
unfoldable pub get_order : Request → M OrderMessage
unfolding get_entity to_proto_order
get_order = get_entity to_proto_order replay_order current_order

-- `Server.ReplayOrder`
unfoldable pub replay_order_request : Request → M OrderMessage
unfolding replay_entity to_proto_order
replay_order_request = replay_entity to_proto_order replay_order

-- TimelineEntry
pub record Entry : Type 0 where
  pub version : ℤ
  pub event_type : String
  pub event_id : ℤ
  pub timestamp : Time
  pub actor : String

-- StoredEvent
pub record Event : Type 0 where
  pub id : ℤ
  pub aggregate_type : String
  pub aggregate_id : String
  pub event_type : String
  pub version : ℤ
  pub payload : Json

abbrev pub to_entry : TimelineEntry → Entry
to_entry e = record {
  version = e.version;
  event_type = e.event_type;
  event_id = e.event_id;
  timestamp = e.timestamp;
  actor = e.actor;
}

abbrev pub to_event : StoredEvent → Event
to_event e = record {
  id = e.id;
  aggregate_type = e.aggregate_type;
  aggregate_id = e.aggregate_id;
  event_type = e.event_type;
  version = e.version;
  payload = e.payload;
}

-- `Server.GetTimeline`
unfoldable pub get_timeline : String → String → M (List Entry)
get_timeline aggregate_type aggregate_id =
    fmap (map to_entry) (EventStore.timeline aggregate_type aggregate_id)

pub record SearchRequest : Type 0 where
  pub aggregate_type : String
  pub aggregate_id : String
  pub event_type : String
  pub actor : String

-- `Server.SearchEvents`
unfoldable pub search_events : SearchRequest → M (List Event)
search_events req = fmap (map to_event) (
    EventStore.search_events (record {
      aggregate_type = req.aggregate_type;
      aggregate_id = req.aggregate_id;
      event_type = req.event_type;
      actor = req.actor;
      correlation_id = "";
      from = none;
      to = none;
    }))
