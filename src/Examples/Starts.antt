-- ===== src/Examples/Starts.antt =====
-- A process that starts without Redis and NATS, and stops.
use api_time_machine.Prelude.{
  ℕ, suc, true, false, ◌+◌, ◌≡◌, refl, none, some, List, [], ◌∷◌, All, if◌then◌else◌,
}
use api_time_machine.Prelude.Int.{pos}
use api_time_machine.Prelude.Sort.{order_by, insert_row}
use api_time_machine.Config.{Config}
use api_time_machine.Migrate.{Entry, State, scripts, is_applied, up, apply_files, apply_file}
use api_time_machine.Start.{
  Process, Outside, signalled, redis, migrations_dir, start, main, prepare, serve, init_tracing,
  migrate, find_redis, new_redis_client, listen_grpc, connect_nats,
}
use api_time_machine.Start.Services.{can_start, found_parts, start-can_start, start-migrations}
use api_time_machine.Start.Resources.{opens, closes, count, dropped, main-closes}

abbrev settings : Config
settings = record {
  http_addr = ":8080";
  grpc_addr = ":9090";
  database_url = "postgres://localhost/atm";
  redis_url = "redis://localhost:6379/0";
  nats_url = "nats://localhost:4222";
  nats_topic = "atm.events";
  jwt_secret = "";
  jwt_issuer = "api-time-machine";
  otlp_endpoint = "";
  snapshot_every = pos 50;
  replay_cache_ttl = pos 300000000000;
  migrate_on_start = true;
  workers_enabled = true;
}

-- Redis does not answer, and NATS cannot be reached.
abbrev alone : Outside ℕ
alone = record {
  new_exporter = λ endpoint. false;
  new_pool = λ url. true;
  parse_url = λ url. true;
  ping = false;
  listen = λ addr. true;
  connect = λ url. false;
  getwd = some "/app";
  join = λ dir name. "/app/migrations";
  read_dir = λ dir. some (record { name = "001_init.sql"; is_dir = false } ∷ []);
  read_file = λ name. some "CREATE TABLE t ();";
  exec = λ sql n. some (suc n);
}

abbrev fresh_database : State ℕ
fresh_database = record { applied = []; schema = 0; faults = [] }

abbrev before : Process ℕ
before = record { actions = []; database = fresh_database }

starts_alone : (start alone settings before).0 ≡ some (found_parts alone settings)
unfolding start prepare serve init_tracing migrate find_redis new_redis_client listen_grpc
    connect_nats up scripts apply_files apply_file order_by insert_row
starts_alone = refl

start-can_start_example :
    (start alone settings before).0
    ≡ (if can_start alone settings before then some (found_parts alone settings) else none)
start-can_start_example = start-can_start alone settings before

start-migrations_example :
    (entries : List Entry) × (alone.read_dir (migrations_dir alone) ≡ some entries)
    × All
        (λ name. is_applied name (start alone settings before).1.database ≡ true)
        (scripts entries)
start-migrations_example =
    start-migrations alone settings before (found_parts alone settings) starts_alone refl

main-closes_example :
    let end = (main alone settings signalled before).1.actions in
    count (opens redis) end ≡ count (closes redis) end + dropped true false redis
unfolding up scripts apply_files apply_file order_by insert_row
main-closes_example = main-closes alone settings redis fresh_database refl
