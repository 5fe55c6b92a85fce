-- ===== src/Service/Product.antt =====
-- internal/product/service.go: the commands of products, over the shared command path.
use api_time_machine.Prelude.{String, true, false, Option, none, [], str_eq, if◌then◌else◌}
use api_time_machine.Prelude.Int.{ℤ}
use api_time_machine.Json.{object}
use api_time_machine.Domain.{EventMetadata, aggregate_product}
use api_time_machine.Aggregate.Product.{
  Product, event_created, event_updated, event_deleted, encode_created, encode_updated,
}
use api_time_machine.Projection.{apply_product, current_product}
use api_time_machine.Commands
use api_time_machine.Commands.{CommandService}
use api_time_machine.World.{M, ◌>>◌}

pub record CreateCommand : Type 0 where
  pub id : String
  pub name : String
  pub description : String
  pub price_cents : ℤ
  pub currency : String
  pub metadata : EventMetadata

pub record UpdateCommand : Type 0 where
  pub id : String
  pub name : Option String
  pub description : Option String
  pub price_cents : Option ℤ
  pub currency : Option String
  pub expected_version : Option ℤ
  pub metadata : EventMetadata

pub record DeleteCommand : Type 0 where
  pub id : String
  pub expected_version : Option ℤ
  pub metadata : EventMetadata

-- `productCmds` of cmd/api/main.go
abbrev pub commands : CommandService
commands = record { aggregate_type = aggregate_product; project = apply_product }

abbrev pub default_currency : String → String
default_currency c = if str_eq c "" then "USD" else c

unfoldable pub create : CreateCommand → M Product
create cmd = do
  Commands.append commands (record {
    id = cmd.id;
    expected_version = none;
    event_type = event_created;
    payload = encode_created (record {
      name = cmd.name;
      description = cmd.description;
      price_cents = cmd.price_cents;
      currency = default_currency cmd.currency;
    });
    metadata = cmd.metadata;
    is_create = true;
  })
  current_product cmd.id

unfoldable pub update : UpdateCommand → M Product
update cmd = do
  Commands.append commands (record {
    id = cmd.id;
    expected_version = cmd.expected_version;
    event_type = event_updated;
    payload = encode_updated (record {
      name = cmd.name;
      description = cmd.description;
      price_cents = cmd.price_cents;
      currency = cmd.currency;
    });
    metadata = cmd.metadata;
    is_create = false;
  })
  current_product cmd.id

unfoldable pub delete : DeleteCommand → M Product
delete cmd = do
  Commands.append commands (record {
    id = cmd.id;
    expected_version = cmd.expected_version;
    event_type = event_deleted;
    payload = object [];
    metadata = cmd.metadata;
    is_create = false;
  })
  current_product cmd.id
