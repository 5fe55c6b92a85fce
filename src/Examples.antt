-- ===== src/Examples.antt =====
-- Runs of the definitions on small tables, with the constants that the runs share.
mod Replays
mod Writes
mod Views
mod Requests
mod Reads
mod Startup
mod Lives
mod Starts
mod Routers
use api_time_machine.Prelude.{none, some, [], ◌∷◌, false}
use api_time_machine.Prelude.Int.{pos}
use api_time_machine.Domain.{StoredEvent, Snapshot, EventMetadata, aggregate_user}
use api_time_machine.Aggregate.User.{
  User, event_created, event_updated, encode_created, encode_updated, marshal_snapshot,
}
use api_time_machine.World.{World, Db, empty_db}

abbrev pub by_ann : EventMetadata
by_ann = record { actor = "ann"; correlation_id = "c1"; trace_id = ""; idempotency_key = "" }

abbrev pub registered : StoredEvent
registered = record {
  id = pos 1;
  aggregate_type = aggregate_user;
  aggregate_id = "u1";
  event_type = event_created;
  version = pos 1;
  payload = encode_created (record { name = "Ann"; email = "ann@example.org" });
  metadata = by_ann;
  created_at = 10;
}

abbrev pub renamed : StoredEvent
renamed = record {
  id = pos 2;
  aggregate_type = aggregate_user;
  aggregate_id = "u1";
  event_type = event_updated;
  version = pos 2;
  payload =
      encode_updated (record { name = some "Anna"; email = none; address = none; avatar = none });
  metadata = by_ann;
  created_at = 20;
}

abbrev pub ann : User
ann = record {
  id = "u1";
  name = "Ann";
  email = "ann@example.org";
  address = "";
  avatar = "";
  deleted = false;
  version = pos 1;
  created_at = 10;
  updated_at = 10;
}

abbrev pub first_snapshot : Snapshot
first_snapshot = record {
  id = pos 1;
  aggregate_type = aggregate_user;
  aggregate_id = "u1";
  version = pos 1;
  state = marshal_snapshot ann;
  created_at = 15;
}

abbrev pub empty_world : World
empty_world = record {
  db = empty_db;
  event_seq = 0;
  outbox_seq = 0;
  snapshot_seq = 0;
  now = 10;
  faults = [];
}

abbrev pub two_events : World
two_events = record empty_world {
  db = record empty_db { events = registered ∷ renamed ∷ []; snapshots = first_snapshot ∷ [] };
  event_seq = 2;
  now = 30;
}
