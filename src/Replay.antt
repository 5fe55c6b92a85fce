-- ===== src/Replay.antt =====
pub mod Reference
pub mod Correct
pub mod Past
pub mod Prefix
pub mod History
pub mod Committed
-- internal/replay/engine.go: the state of an aggregate at a version or an instant, from the latest
-- snapshot and the events.
use api_time_machine.Prelude.{
  String, Bool, true, false, Option, none, some, List, [], ◌∷◌, if◌then◌else◌,
}
use api_time_machine.Prelude.Int.{ℤ, pos, leb_ℤ, ltb_ℤ, eqb_ℤ}
use api_time_machine.Domain.{
  StoredEvent, Snapshot, ReplayQuery, aggregate_user, aggregate_product, aggregate_order,
}
use api_time_machine.Aggregate.{Aggregate}
use api_time_machine.Aggregate.User.{User, user_aggregate}
use api_time_machine.Aggregate.Product.{Product, product_aggregate}
use api_time_machine.Aggregate.Order.{Order, order_aggregate}
use api_time_machine.EventStore
use api_time_machine.SnapshotStore
use api_time_machine.World.{M, ◌>>=◌, ◌>>◌, pure, lift, guard_not}
use api_time_machine.Result
use api_time_machine.Result.{Result, ok, not_found}

-- `query.Version != nil && *query.Version < snap.Version`
abbrev pub before_snapshot : Option ℤ → ℤ → Bool
before_snapshot none version = false
before_snapshot (some v) version = ltb_ℤ v version

module _ {A : Type 0} (agg : Aggregate A) where
  open agg use {fresh, apply, unmarshal_snapshot, current_version}

  -- The state to start from, and `startVersion`.
  unfoldable pub start : String → ReplayQuery → Option Snapshot → Result (A × ℤ)
  start id query none = ok (fresh id, pos 0)
  start id query (some snap) =
      if before_snapshot query.version snap.version
      then ok (fresh id, pos 0)
      else Result.◌>>=◌ (unmarshal_snapshot (fresh id) snap.state) λ a. ok (a, snap.version)

  -- The loop over the events: those up to `start_version` are skipped.
  unfoldable pub apply_events : ℤ → A → List StoredEvent → Result A
  apply_events start_version a [] = ok a
  apply_events start_version a (e ∷ es) = elim (leb_ℤ e.version start_version) [
    | true ↦ apply_events start_version a es
    | false ↦ Result.◌>>=◌ (apply a e) λ a'. apply_events start_version a' es
  ]

  -- `Engine.replay`
  unfoldable pub replay : String → String → ReplayQuery → M A
  unfolding start apply_events
  replay aggregate_type id query = do
    snap ← SnapshotStore.latest aggregate_type id
    first ← lift (start id query snap)
    events ← EventStore.load_events_until aggregate_type id query
    a ← lift (apply_events first.1 first.0 events)
    guard_not (eqb_ℤ (current_version a) (pos 0)) not_found
    pure a

-- `Engine.ReplayUser`, `Engine.ReplayProduct`, `Engine.ReplayOrder`
unfoldable pub replay_user : String → ReplayQuery → M User
unfolding replay
replay_user = replay user_aggregate aggregate_user

unfoldable pub replay_product : String → ReplayQuery → M Product
unfolding replay
replay_product = replay product_aggregate aggregate_product

unfoldable pub replay_order : String → ReplayQuery → M Order
unfolding replay
replay_order = replay order_aggregate aggregate_order
