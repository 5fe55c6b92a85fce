-- ===== src/Api/Products.antt =====
-- internal/api/catalog.go: the handlers of products.
use api_time_machine.Prelude.{String, Option}
use api_time_machine.Prelude.Int.{ℤ, pos}
use api_time_machine.Json.{Json, as_fields, read_string, read_int, read_string_ptr, read_int_ptr}
use api_time_machine.Domain.{aggregate_product}
use api_time_machine.Aggregate.Product.{marshal_snapshot}
use api_time_machine.Service
use api_time_machine.Diff.{product_map}
use api_time_machine.Projection.{current_product}
use api_time_machine.Replay.{replay_product}
use api_time_machine.Result.{Result, ok, ◌>>=◌}
use api_time_machine.Api.{
  Server, Request, Handler, run_plain, extract_metadata, parse_expected_version, with_body, answer,
}
use api_time_machine.Api.Reads.{
  get_entity, entity_history, entity_timeline, entity_diff, replay_request, time_or_version,
  or_no_bounds,
}

pub record CreateRequest : Type 0 where
  pub id : String
  pub name : String
  pub description : String
  pub price_cents : ℤ
  pub currency : String

unfoldable pub decode_create : Json → Result CreateRequest
decode_create j = do
  fs ← as_fields j
  id ← read_string "id" fs
  name ← read_string "name" fs
  description ← read_string "description" fs
  price_cents ← read_int "price_cents" fs (pos 0)
  currency ← read_string "currency" fs
  ok (record {
    id = id;
    name = name;
    description = description;
    price_cents = price_cents;
    currency = currency;
  })

pub record UpdateRequest : Type 0 where
  pub name : Option String
  pub description : Option String
  pub price_cents : Option ℤ
  pub currency : Option String

unfoldable pub decode_update : Json → Result UpdateRequest
decode_update j = do
  fs ← as_fields j
  name ← read_string_ptr "name" fs
  description ← read_string_ptr "description" fs
  price_cents ← read_int_ptr "price_cents" fs
  currency ← read_string_ptr "currency" fs
  ok (record {
    name = name;
    description = description;
    price_cents = price_cents;
    currency = currency;
  })

-- `Server.createProduct`
unfoldable pub create_product : Request → Handler
unfolding decode_create run_plain extract_metadata
create_product r = with_body r decode_create λ req. run_plain marshal_snapshot 201 (
    Service.Product.create (record {
      id = req.id;
      name = req.name;
      description = req.description;
      price_cents = req.price_cents;
      currency = req.currency;
      metadata = extract_metadata r;
    }))

-- `Server.updateProduct`
unfoldable pub update_product : Request → Handler
unfolding decode_update run_plain extract_metadata parse_expected_version
update_product r = with_body r decode_update λ req. run_plain marshal_snapshot 200 (
    Service.Product.update (record {
      id = r.id;
      name = req.name;
      description = req.description;
      price_cents = req.price_cents;
      currency = req.currency;
      expected_version = parse_expected_version r;
      metadata = extract_metadata r;
    }))

-- `Server.deleteProduct`
unfoldable pub delete_product : Request → Handler
unfolding run_plain extract_metadata parse_expected_version
delete_product r = run_plain marshal_snapshot 200 (
    Service.Product.delete (record {
      id = r.id;
      expected_version = parse_expected_version r;
      metadata = extract_metadata r;
    }))

-- `Server.getProduct`
unfoldable pub get_product : Request → Handler
unfolding get_entity
get_product r = get_entity marshal_snapshot (replay_product r.id) (current_product r.id) r

-- `Server.productHistory`
unfoldable pub product_history : Request → Handler
unfolding entity_history
product_history = entity_history aggregate_product

-- `Server.productTimeline`
unfoldable pub product_timeline : Request → Handler
unfolding entity_timeline
product_timeline = entity_timeline aggregate_product

-- `Server.productDiff`: a bound that does not parse is dropped.
unfoldable pub product_diff : Server → Request → Handler
unfolding entity_diff time_or_version
product_diff s r =
    entity_diff product_map s r (replay_product r.id (or_no_bounds (time_or_version r "from")))
      (replay_product r.id (or_no_bounds (time_or_version r "to")))

-- `Server.productReplay`
unfoldable pub product_replay : Request → Handler
unfolding answer replay_request
product_replay r = answer marshal_snapshot (replay_product r.id (replay_request r))
