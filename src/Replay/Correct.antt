-- ===== src/Replay/Correct.antt =====
-- `Engine.replay` against the reference: when it starts from a snapshot and when it does not.
use api_time_machine.Prelude.{
  String, Bool, true, false, not, ◌&&◌, ◌≡◌, sym, ap, ◌∙◌, ◌⊎◌, inl, inr, Option, none, some, List,
  [], ◌∷◌, fun_ext, arith, filter, All, filter-cong, Bool-cases,
}
use api_time_machine.Prelude.Int.{ℤ, pos, leb_ℤ, ◌<ℤ◌}
use api_time_machine.Prelude.Sort.{order_by}
use api_time_machine.Domain.{StoredEvent, Snapshot, ReplayQuery}
use api_time_machine.Aggregate.{Aggregate}
use api_time_machine.EventStore.{version_le, of_aggregate, within, rows_until, load_events_until}
use api_time_machine.SnapshotStore.{latest_of, latest}
use api_time_machine.World.{World, quiet}
use api_time_machine.Result.{◌>>=◌, >>=-assoc, Result-cases}
use api_time_machine.Replay.{before_snapshot, start, apply_events, replay}
use api_time_machine.Replay.Reference.{
  apply_all, or_not_found, reference, apply_all-append, apply_events_lem, split_at_version,
  rows_until-IsSorted, filter-rows_until,
}

abbrev pub up_to : ℤ → ReplayQuery
up_to v = record { at = none; version = some v; until_id = none }

-- Versions count from 1.
abbrev pub IsNumbered : List StoredEvent → Type 0
IsNumbered events = All (λ e. pos 0 <ℤ e.version) events

above_zero :
    (p : StoredEvent → Bool) (events : List StoredEvent)
    → IsNumbered events
    → All (λ e. (p e && not (leb_ℤ e.version (pos 0))) ≡ p e) events
above_zero p [] h = tt
above_zero p (e ∷ es) h = (ground (arith, h.0), above_zero p es h.1)

within-up_to :
    (aggregate_type id : String) (q : ReplayQuery) (v : ℤ) (events : List StoredEvent)
    → before_snapshot q.version v ≡ false
    → q.at ≡ none
    → q.until_id ≡ none
    → All
        (λ e.
          ((of_aggregate aggregate_type id e && within q e) && leb_ℤ e.version v)
          ≡ (of_aggregate aggregate_type id e && within (up_to v) e))
        events
unfolding within
within-up_to t id q v [] b a u = tt
within-up_to t id q v (e ∷ es) b a u = (ground arith, within-up_to t id q v es b a u)

module _ {A : Type 0} (agg : Aggregate A) (aggregate_type id : String) where
  open agg use {fresh, unmarshal_snapshot}

  -- The snapshot holds the state that the events up to its version give.
  abbrev pub IsFaithful : List StoredEvent → Snapshot → Type 0
  IsFaithful events snap =
      unmarshal_snapshot (fresh id) snap.state
      ≡ apply_all agg (fresh id) (rows_until aggregate_type id (up_to snap.version) events)

  module _ (q : ReplayQuery) (events : List StoredEvent) where
    abbrev pub rows : List StoredEvent
    rows = rows_until aggregate_type id q events

    from_scratch :
        IsNumbered events → apply_events agg (pos 0) (fresh id) rows ≡ apply_all agg (fresh id) rows
    unfolding rows_until
    from_scratch h =
        apply_events_lem agg (pos 0) (fresh id) rows
        ∙ ap (apply_all agg (fresh id)) (
            filter-rows_until aggregate_type id q events _
            ∙ ap (order_by version_le) (filter-cong _ _ events (above_zero _ events h)))

    -- The events up to the snapshot's version, where the query selects them all.
    pub rows-up_to :
        (v : ℤ)
        → before_snapshot q.version v ≡ false
        → q.at ≡ none
        → q.until_id ≡ none
        → filter (λ e. leb_ℤ e.version v) rows ≡ rows_until aggregate_type id (up_to v) events
    unfolding rows_until
    rows-up_to v b a u =
        filter-rows_until aggregate_type id q events _
        ∙ ap (order_by version_le)
            (filter-cong _ _ events (within-up_to aggregate_type id q v events b a u))

    from_snapshot :
        (snap : Snapshot)
        → IsFaithful events snap
        → before_snapshot q.version snap.version ≡ false
        → q.at ≡ none
        → q.until_id ≡ none
        → (unmarshal_snapshot (fresh id) snap.state >>= λ a. apply_events agg snap.version a rows)
          ≡ apply_all agg (fresh id) rows
    from_snapshot snap f b a u =
        rw
          (
            f,
            ← rows-up_to snap.version b a u,
            fun_ext (λ x. apply_events_lem agg snap.version x rows),
          )
          (sym (apply_all-append agg (fresh id) _ _)
            ∙ ap (apply_all agg (fresh id)) (
                split_at_version snap.version rows
                  (rows_until-IsSorted aggregate_type id q events)))

    -- What `start` may be given: no snapshot, one that the query's version passes over, or a
    -- faithful one under a query that bounds no time and no event id.
    abbrev pub Usable : Option Snapshot → Type 0
    Usable none = Unit
    Usable (some snap) =
        (before_snapshot q.version snap.version ≡ true)
        ⊎ (IsFaithful events snap × (q.at ≡ none) × (q.until_id ≡ none))

    pub start-apply_events :
        (snap : Option Snapshot)
        → IsNumbered events
        → Usable snap
        → (start agg id q snap >>= λ first. apply_events agg first.1 first.0 rows)
          ≡ apply_all agg (fresh id) rows
    unfolding start
    start-apply_events none h ok_snap = from_scratch h
    start-apply_events (some snap) h (inl b) = rw b (from_scratch h)
    start-apply_events (some snap) h (inr f) =
        elim (Bool-cases (before_snapshot q.version snap.version)) [
          | inl b ↦ rw b (from_scratch h)
          | inr b ↦ rw b (
              >>=-assoc (unmarshal_snapshot (fresh id) snap.state) _ _
              ∙ from_snapshot snap f.0 b f.1 f.2)
        ]

module _ {A : Type 0} (agg : Aggregate A) (aggregate_type id : String) (q : ReplayQuery) where
  pub replay_steps :
      (w : World)
      → (replay agg aggregate_type id q (quiet w)).0 ≡ (
          (start agg id q (latest_of aggregate_type id w.db.snapshots) >>= λ first.
          apply_events agg first.1 first.0 (rows_until aggregate_type id q w.db.events))
          >>= or_not_found agg)
  unfolding replay latest load_events_until
  replay_steps w =
      elim (Result-cases (start agg id q (latest_of aggregate_type id w.db.snapshots))) [
        | inl (first, e) ↦
            elim (Result-cases
              (apply_events agg first.1 first.0 (rows_until aggregate_type id q w.db.events))) [
                | inl (a, h) ↦ rw (e, h) (ground arith)
                | inr (x, h) ↦ rw (e, h)
              ]
        | inr (x, e) ↦ rw e
      ]

  -- If the versions of all events are above 0, and the aggregate's latest snapshot is missing, lies
  -- above the version that is asked for, or holds the state that the events up to its version give
  -- while the query bounds neither time nor event id, and no call of the driver fails, then a
  -- replay returns the state, or the error, that applying all selected events in the order of their
  -- versions to a new aggregate gives.
  pub replay-eq-reference :
      (w : World)
      → IsNumbered w.db.events
      → Usable agg aggregate_type id q w.db.events (latest_of aggregate_type id w.db.snapshots)
      → (replay agg aggregate_type id q (quiet w)).0 ≡ reference agg aggregate_type id q w.db.events
  unfolding reference
  replay-eq-reference w h u =
      replay_steps w
      ∙ ap (λ r. r >>= or_not_found agg)
          (start-apply_events agg aggregate_type id q w.db.events
            (latest_of aggregate_type id w.db.snapshots) h u)
