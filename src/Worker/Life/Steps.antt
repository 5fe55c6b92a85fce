-- ===== src/Worker/Life/Steps.antt =====
-- One step of the builder: what it leaves alone.
use api_time_machine.Prelude.{
  String, Bool, true, false, ◌≡◌, refl, ◌⊎◌, inl, inr, arith, Option, none, some, str_eq,
  if◌then◌else◌,
}
use api_time_machine.Prelude.Int.{ℤ}
use api_time_machine.Domain.{aggregate_user, aggregate_product, aggregate_order}
use api_time_machine.Aggregate.{Aggregate}
use api_time_machine.Aggregate.User.{user_aggregate}
use api_time_machine.Aggregate.Product.{product_aggregate}
use api_time_machine.Aggregate.Order.{order_aggregate}
use api_time_machine.EventStore.{load_events_until}
use api_time_machine.SnapshotStore.{save, latest, new_snapshot, upsert}
use api_time_machine.Replay.{replay}
use api_time_machine.World.{World, call, call_keeps, next_snapshot_id, quiet}
use api_time_machine.World.Unchanged.{replay-Keeps}
use api_time_machine.Result.{Result, ok, err, Result-cases}
use api_time_machine.Worker.Builder.{everything, snapshot_one, snapshot_with}
use api_time_machine.Worker.Life.{Save, save_of, or_nothing, take, put}

-- The same tables, and the same sequence of event ids.
abbrev pub Kept : World → World → Type 0
Kept w w' = (w'.db ≡ w.db) × (w'.event_seq ≡ w.event_seq)

module _ {A : Type 0} (agg : Aggregate A) (t id : String) where
  replay_seq : (w : World) → (replay agg t id everything w).1.event_seq ≡ w.event_seq
  unfolding replay latest load_events_until call
  replay_seq w = ground arith

  -- What a replay returns, it returns where no call fails.
  pub replay-quiet :
      (w w' : World) (a : A)
      → replay agg t id everything w ≡ (ok a, w')
      → (replay agg t id everything (quiet w)).0 ≡ ok a
  unfolding replay latest load_events_until call
  replay-quiet w w' a h = ground (arith, h)

  or_nothing-Kept : (w : World) → Kept w (or_nothing agg t id (replay agg t id everything w)).1
  or_nothing-Kept w =
      go (replay agg t id everything w) (replay-Keeps agg t id everything w, replay_seq w)
    where
      go : (p : Result A × World) → Kept w p.1 → Kept w (or_nothing agg t id p).1
      go (ok a, v) k = k
      go (err e, v) k = k

  pub or_nothing-some :
      (p : Result A × World) (s : Save) (w' : World)
      → or_nothing agg t id p ≡ (some s, w')
      → (a : A) × (p ≡ (ok a, w')) × (s ≡ save_of agg t id a)
  or_nothing-some (ok a, v) s w' h = (a, cc, cc)
  or_nothing-some (err e, v) s w' h = cc

if-Kept :
    (b : Bool) (w : World) (p q : Option Save × World)
    → Kept w p.1
    → Kept w q.1
    → Kept w (if b then p else q).1
if-Kept true w p q h k = h
if-Kept false w p q h k = k

pub take-Kept : (t id : String) (w : World) → Kept w (take t id w).1
unfolding take
take-Kept t id w = if-Kept (str_eq t aggregate_user) w _ _ (or_nothing-Kept user_aggregate t id w) (
    if-Kept (str_eq t aggregate_product) w _ _ (or_nothing-Kept product_aggregate t id w) (
      if-Kept (str_eq t aggregate_order) w _ (none, w) (or_nothing-Kept order_aggregate t id w)
        (refl, refl)))

id_keeps : (w : World) → ((next_snapshot_id w).1.db ≡ w.db) × ((next_snapshot_id w).1.now ≡ w.now)
unfolding next_snapshot_id
id_keeps w = ground arith

pub put-event_seq : (s : Save) (w : World) → (put s w).event_seq ≡ w.event_seq
unfolding put save call next_snapshot_id
put-event_seq s w = ground arith

-- A snapshot is written, or nothing.
pub put-db :
    (s : Save) (w : World)
    → ((put s w).db ≡ w.db)
      ⊎ ((n : ℤ) × ((put s w).db ≡ record w.db {
        snapshots =
            upsert (new_snapshot n w.now s.aggregate_type s.id s.version s.state) w.db.snapshots;
      }))
unfolding put save
put-db s w =
    let k = call_keeps w in
    elim (Result-cases (call w).0) [
      | inr (x, e) ↦ inl (ground (arith, e, k))
      | inl (_, e) ↦
          let v = (call w).1 in
          elim (Result-cases (next_snapshot_id v).0) [
            | inr (x, f) ↦ inl (ground (arith, e, f, k, id_keeps v))
            | inl (n, f) ↦ inr (n, ground (arith, e, f, k, id_keeps v))
          ]
    ]

-- The two parts are `snapshotOne`.
pub snapshot_one-put :
    (t id : String) (w : World)
    → snapshot_one t id w
      ≡ (elim (take t id w).0 [ none ↦ (take t id w).1 | some s ↦ put s (take t id w).1 ])
unfolding snapshot_one snapshot_with take put
snapshot_one-put t id w = ground arith
