-- ===== src/SnapshotStore.antt =====
-- internal/snapshot/store.go over the table `snapshots`.
use api_time_machine.Prelude.{
  String, Bool, ◌&&◌, Option, none, some, List, [], ◌∷◌, filter, str_eq, if◌then◌else◌,
}
use api_time_machine.Prelude.Int.{ℤ, leb_ℤ, eqb_ℤ}
use api_time_machine.Json.{Json, Time}
use api_time_machine.Domain.{Snapshot}
use api_time_machine.World.{M, ◌>>=◌, ◌>>◌, gets, modify_db, call, next_snapshot_id}

-- WHERE aggregate_type = $1 AND aggregate_id = $2
unfoldable pub of_aggregate : String → String → Snapshot → Bool
of_aggregate aggregate_type aggregate_id s =
    str_eq s.aggregate_type aggregate_type && str_eq s.aggregate_id aggregate_id

abbrev pub later : Snapshot → Snapshot → Snapshot
later a b = if leb_ℤ b.version a.version then a else b

abbrev pub or_later : Snapshot → Option Snapshot → Option Snapshot
or_later s none = some s
or_later s (some best) = some (later s best)

-- ORDER BY version DESC LIMIT 1
unfoldable pub greatest : List Snapshot → Option Snapshot
greatest [] = none
greatest (s ∷ rest) = or_later s (greatest rest)

abbrev pub latest_of : String → String → List Snapshot → Option Snapshot
latest_of aggregate_type aggregate_id snapshots =
    greatest (filter (of_aggregate aggregate_type aggregate_id) snapshots)

-- `Store.Latest`: pgx.ErrNoRows is no error, and gives a nil snapshot.
unfoldable pub latest : String → String → M (Option Snapshot)
unfolding of_aggregate greatest call
latest aggregate_type aggregate_id = do
  call
  gets (λ w. latest_of aggregate_type aggregate_id w.db.snapshots)

-- INSERT … ON CONFLICT (aggregate_type, aggregate_id, version) DO UPDATE SET state = EXCLUDED.state
unfoldable pub upsert : Snapshot → List Snapshot → List Snapshot
unfolding of_aggregate
upsert new [] = new ∷ []
upsert new (s ∷ rest) =
    if of_aggregate new.aggregate_type new.aggregate_id s && eqb_ℤ s.version new.version
    then record s { state = new.state } ∷ rest
    else s ∷ upsert new rest

unfoldable pub new_snapshot : ℤ → Time → String → String → ℤ → Json → Snapshot
new_snapshot id created_at aggregate_type aggregate_id version state = record {
  id = id;
  aggregate_type = aggregate_type;
  aggregate_id = aggregate_id;
  version = version;
  state = state;
  created_at = created_at;
}

-- `Store.Save`
unfoldable pub save : String → String → ℤ → Json → M (Unit {0})
unfolding upsert new_snapshot call next_snapshot_id
save aggregate_type aggregate_id version state = do
  call
  id ← next_snapshot_id
  now ← gets (λ w. w.now)
  modify_db λ db. record db {
    snapshots = upsert (new_snapshot id now aggregate_type aggregate_id version state) db.snapshots;
  }
