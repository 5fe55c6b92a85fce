-- ===== src/Examples/Startup.antt =====
-- Migrations, and messages of the gRPC server.
use api_time_machine.Prelude.{
  ℕ, String, ◌≡◌, ◌↔◌, refl, arith, false, Option, none, some, List, [], ◌∷◌, map, All, suc,
}
use api_time_machine.Prelude.Int.{pos}
use api_time_machine.Prelude.Sort.{order_by, insert_row}
use api_time_machine.Result.{ok}
use api_time_machine.Text.{show, show_nat, show_from}
use api_time_machine.Aggregate.Order
use api_time_machine.Aggregate.User.{marshal_snapshot}
use api_time_machine.Query.{at_version}
use api_time_machine.Replay
use api_time_machine.Api.{answer}
use api_time_machine.Api
use api_time_machine.Grpc
use api_time_machine.Grpc.{to_proto_order, to_proto_user, elements, fmap}
use api_time_machine.Grpc.Messages.{Int32, of_message, to_proto_order-items, get_user-same}
use api_time_machine.Migrate.{Entry, State, apply_file, apply_files, scripts, up}
use api_time_machine.Migrate.Applied.{Did, up-Did}
use api_time_machine.Migrate.Again.{quiet, up_again}
use api_time_machine.Migrate.Done.{at, up_done}
use api_time_machine.Examples.{two_events}
use api_time_machine.Examples.Reads.{server, get_ann}

abbrev entry : String → Entry
entry name = record { name = name; is_dir = false }

abbrev directory : List Entry
directory = entry "002_products.sql" ∷ entry "001_init.sql" ∷ entry "README.md" ∷ []

-- A schema that counts the scripts that worked on it.
abbrev exec : String → ℕ → Option ℕ
exec sql n = some (suc n)

abbrev read : String → Option String
read name = some "CREATE TABLE t ();"

abbrev nothing_applied : State ℕ
nothing_applied = record { applied = []; schema = 0; faults = [] }

run_twice : up exec read (some directory) nothing_applied ≡ (
  ok tt,
  record { applied = "001_init.sql" ∷ "002_products.sql" ∷ []; schema = 2; faults = [] },
)
unfolding up scripts apply_files apply_file order_by insert_row
run_twice = refl

up-Did_example : Did exec read nothing_applied (up exec read (some directory) nothing_applied).1
up-Did_example = up-Did exec read (some directory) nothing_applied

up_again_example :
    let end = quiet exec read (up exec read (some directory) nothing_applied).1 in
    up exec read (some directory) end ≡ (ok tt, end)
unfolding up scripts apply_files apply_file order_by insert_row
up_again_example = up_again exec read (some directory) nothing_applied refl

up_done_example :
    up exec read (some directory) (at ("001_init.sql" ∷ []) 1)
    ≡ (ok tt, at ("001_init.sql" ∷ "002_products.sql" ∷ []) 2)
unfolding scripts order_by insert_row
up_done_example = up_done exec read directory ("001_init.sql" ∷ []) 1

abbrev large_order : Order.Order
large_order = record {
  id = "o1";
  user_id = "u1";
  status = "created";
  total_cents = pos 5;
  currency = "EUR";
  items = some (record { product_id = "p1"; quantity = pos 4294967297; price_cents = pos 5 } ∷ []);
  cancelled = false;
  version = pos 1;
  created_at = 1;
  updated_at = 1;
}

to_proto_order-items_example :
    All (λ i. Int32 i.quantity) (elements large_order.items)
    ↔ (map of_message (to_proto_order large_order).items ≡ elements large_order.items)
to_proto_order-items_example = to_proto_order-items large_order

get_user-same_example :
    (Api.Users.get_user server get_ann two_events
      ≡ answer marshal_snapshot (Replay.replay_user "u1" (at_version (pos 1))) two_events)
    × (Grpc.get_user Replay.replay_user
          (record { id = "u1"; at = none; version = pos 1 })
          two_events
        ≡ fmap to_proto_user (Replay.replay_user "u1" (at_version (pos 1))) two_events)
unfolding show show_nat show_from
get_user-same_example =
    get_user-same server get_ann (pos 1) two_events (omega arith, omega arith) (omega arith) refl
      refl
