-- ===== src/Replay/Past.antt =====
-- `Engine.replay` for an instant or an event id: the latest snapshot is used whatever they are.
use api_time_machine.Prelude.{
  String, Bool, false, not, ◌&&◌, ◌||◌, ◌≡◌, sym, ap, fun_ext, ◌∙◌, some, List, [], ◌∷◌, arith,
  filter, All, filter-filter, filter-cong,
}
use api_time_machine.Prelude.Int.{ℤ, leb_ℤ}
use api_time_machine.Prelude.Sort.{order_by, IsSorted, order_by-IsSorted, filter-order_by}
use api_time_machine.Domain.{StoredEvent, Snapshot, ReplayQuery}
use api_time_machine.Aggregate.{Aggregate}
use api_time_machine.EventStore.{version_le, of_aggregate, within, rows_until}
use api_time_machine.SnapshotStore.{latest_of}
use api_time_machine.World.{World, quiet}
use api_time_machine.Result.{◌>>=◌, >>=-assoc}
use api_time_machine.Replay.{before_snapshot, start, apply_events, replay}
use api_time_machine.Replay.Reference.{
  apply_all, or_not_found, apply_all-append, apply_events_lem, split_at_version, version_le_trans,
  version_le_total,
}
use api_time_machine.Replay.Correct.{up_to, IsFaithful, replay_steps}

module _ (aggregate_type id : String) (q : ReplayQuery) (v : ℤ) where
  -- The events up to the version `v`, and those that the query selects.
  unfoldable pub up_to_or : StoredEvent → Bool
  up_to_or e = of_aggregate aggregate_type id e && (leb_ℤ e.version v || within q e)

  up_to_or-le :
      (es : List StoredEvent)
      → All
          (λ e.
            (up_to_or e && leb_ℤ e.version v)
            ≡ (of_aggregate aggregate_type id e && within (up_to v) e))
          es
  unfolding up_to_or within
  up_to_or-le [] = tt
  up_to_or-le (e ∷ es) = (ground arith, up_to_or-le es)

  up_to_or-above :
      (es : List StoredEvent)
      → All
          (λ e.
            (up_to_or e && not (leb_ℤ e.version v))
            ≡ ((of_aggregate aggregate_type id e && within q e) && not (leb_ℤ e.version v)))
          es
  unfolding up_to_or
  up_to_or-above [] = tt
  up_to_or-above (e ∷ es) = (ground arith, up_to_or-above es)

  module _ (events : List StoredEvent) where
    abbrev pub rows_or : List StoredEvent
    rows_or = order_by version_le (filter up_to_or events)

    rows_or-IsSorted : IsSorted version_le rows_or
    rows_or-IsSorted =
        order_by-IsSorted version_le version_le_trans version_le_total (filter up_to_or events)

    filter-rows_or :
        (p : StoredEvent → Bool)
        → filter p rows_or ≡ order_by version_le (filter (λ e. up_to_or e && p e) events)
    filter-rows_or p =
        filter-order_by version_le version_le_trans version_le_total p (filter up_to_or events)
        ∙ ap (order_by version_le) (filter-filter p up_to_or events)

    rows_or-le :
        filter (λ e. leb_ℤ e.version v) rows_or ≡ rows_until aggregate_type id (up_to v) events
    unfolding rows_until
    rows_or-le =
        filter-rows_or _ ∙ ap (order_by version_le) (filter-cong _ _ events (up_to_or-le events))

    rows_or-above :
        filter (λ e. not (leb_ℤ e.version v)) rows_or
        ≡ filter (λ e. not (leb_ℤ e.version v)) (rows_until aggregate_type id q events)
    unfolding rows_until
    rows_or-above =
        filter-rows_or _
        ∙ ap (order_by version_le) (filter-cong _ _ events (up_to_or-above events))
        ∙ sym (
            filter-order_by version_le version_le_trans version_le_total _
              (filter (λ e. of_aggregate aggregate_type id e && within q e) events)
            ∙ ap (order_by version_le)
                (filter-filter _ (λ e. of_aggregate aggregate_type id e && within q e) events))

module _ {A : Type 0} (agg : Aggregate A) (aggregate_type id : String) (q : ReplayQuery) where
  open agg use {fresh, unmarshal_snapshot}

  from_snapshot_or :
      (events : List StoredEvent) (snap : Snapshot)
      → IsFaithful agg aggregate_type id events snap
      → (unmarshal_snapshot (fresh id) snap.state >>= λ a.
          apply_events agg snap.version a (rows_until aggregate_type id q events))
        ≡ apply_all agg (fresh id) (rows_or aggregate_type id q snap.version events)
  from_snapshot_or events snap f =
      rw
        (
          f,
          fun_ext
              (λ x. apply_events_lem agg snap.version x (rows_until aggregate_type id q events)),
          ← rows_or-le aggregate_type id q snap.version events,
          ← rows_or-above aggregate_type id q snap.version events,
        )
        (sym (apply_all-append agg (fresh id) _ _)
          ∙ ap (apply_all agg (fresh id)) (
              split_at_version snap.version (rows_or aggregate_type id q snap.version events)
                (rows_or-IsSorted aggregate_type id q snap.version events)))

  -- If the aggregate's latest snapshot holds the state that the events up to its version give, and
  -- the query's version is not below it, and no call of the driver fails, then a replay returns
  -- what the events up to the snapshot's version together with the events that the query selects
  -- give: the query's instant and event id do not take it back before the snapshot.
  pub replay-past :
      (w : World) (snap : Snapshot)
      → latest_of aggregate_type id w.db.snapshots ≡ some snap
      → IsFaithful agg aggregate_type id w.db.events snap
      → before_snapshot q.version snap.version ≡ false
      → (replay agg aggregate_type id q (quiet w)).0 ≡ (
          apply_all agg (fresh id) (rows_or aggregate_type id q snap.version w.db.events)
          >>= or_not_found agg)
  unfolding start
  replay-past w snap e f b =
      replay_steps agg aggregate_type id q w
      ∙ ap (λ r. r >>= or_not_found agg)
          (rw (e, start, b)
            (>>=-assoc (unmarshal_snapshot (fresh id) snap.state) _ _
              ∙ from_snapshot_or w.db.events snap f))
