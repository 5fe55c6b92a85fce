-- ===== src/Service/Order.antt =====
-- internal/order/service.go: the commands of orders, over the shared command path.
use api_time_machine.Prelude.{String, true, false, Option, none, [], str_eq, if◌then◌else◌}
use api_time_machine.Prelude.Int.{ℤ, pos}
use api_time_machine.Json.{object}
use api_time_machine.Domain.{EventMetadata, aggregate_order}
use api_time_machine.Aggregate.Order.{
  Item, Slice, Order, elements, total_from, event_created, event_updated, event_cancelled,
  event_item_added, encode_created, encode_updated, encode_item_added,
}
use api_time_machine.Projection.{apply_order, current_order}
use api_time_machine.Commands
use api_time_machine.Commands.{CommandService, AppendRequest}
use api_time_machine.World.{M, ◌>>◌}

pub record CreateCommand : Type 0 where
  pub id : String
  pub user_id : String
  pub items : Slice
  pub currency : String
  pub metadata : EventMetadata

pub record UpdateCommand : Type 0 where
  pub id : String
  pub status : Option String
  pub expected_version : Option ℤ
  pub metadata : EventMetadata

pub record CancelCommand : Type 0 where
  pub id : String
  pub expected_version : Option ℤ
  pub metadata : EventMetadata

pub record AddItemCommand : Type 0 where
  pub id : String
  pub item : Item
  pub expected_version : Option ℤ
  pub metadata : EventMetadata

-- `orderCmds` of cmd/api/main.go
abbrev pub commands : CommandService
commands = record { aggregate_type = aggregate_order; project = apply_order }

abbrev pub default_currency : String → String
default_currency c = if str_eq c "" then "USD" else c

-- The total in the event is the loop of `recalcTotal` over the items of the command.
unfoldable pub create : CreateCommand → M Order
create cmd = do
  Commands.append commands (record {
    id = cmd.id;
    expected_version = none;
    event_type = event_created;
    payload = encode_created (record {
      user_id = cmd.user_id;
      currency = default_currency cmd.currency;
      total_cents = total_from (pos 0) (elements cmd.items);
      items = cmd.items;
    });
    metadata = cmd.metadata;
    is_create = true;
  })
  current_order cmd.id

unfoldable pub update : UpdateCommand → M Order
update cmd = do
  Commands.append commands (record {
    id = cmd.id;
    expected_version = cmd.expected_version;
    event_type = event_updated;
    payload = encode_updated cmd.status;
    metadata = cmd.metadata;
    is_create = false;
  })
  current_order cmd.id

unfoldable pub cancel : CancelCommand → M Order
cancel cmd = do
  Commands.append commands (record {
    id = cmd.id;
    expected_version = cmd.expected_version;
    event_type = event_cancelled;
    payload = object [];
    metadata = cmd.metadata;
    is_create = false;
  })
  current_order cmd.id

unfoldable pub add_item : AddItemCommand → M Order
add_item cmd = do
  Commands.append commands (record {
    id = cmd.id;
    expected_version = cmd.expected_version;
    event_type = event_item_added;
    payload = encode_item_added cmd.item;
    metadata = cmd.metadata;
    is_create = false;
  })
  current_order cmd.id
