-- ===== src/Replay/Committed.antt =====
-- A command that commits, and the replays after it.
use mathlib.Core.List.{append-nil}
use api_time_machine.Prelude.{
  ℕ, suc, ◌≤◌, ◌≡◌, refl, sym, ap, subst, ◌∙◌, arith, List, [], ◌∷◌, ◌++◌, length, length-append,
  take, filter-append,
}
use api_time_machine.Prelude.Compact.{take-append}
use api_time_machine.Prelude.Int.{ℤ, pos}
use package.text.Mathlib.TextPositions.{eq_refl}
use api_time_machine.Domain.{StoredEvent}
use api_time_machine.Aggregate.{Aggregate}
use api_time_machine.EventStore.{of_aggregate, stored_event}
use api_time_machine.EventStore.Log.{log, IsLog, max_version-log}
use api_time_machine.SnapshotStore.{latest_of}
use api_time_machine.World.{World, quiet}
use api_time_machine.Result.{ok, ◌>>=◌}
use api_time_machine.Commands.{AppendRequest, CommandService, to_append, append}
use api_time_machine.Commands.Laws.{IsProjector, Checked, Written, append-committed}
use api_time_machine.Commands.Commit.{Pending, IsRead, stored_version, commit-IsLog}
use api_time_machine.Replay.{replay}
use api_time_machine.Replay.Reference.{apply_all, or_not_found}
use api_time_machine.Replay.Correct.{up_to, Usable}
use api_time_machine.Replay.History.{replay-take}

-- What a command that reads and writes at once has read.
Checked-IsRead :
    (s : CommandService) (req : AppendRequest) (w : World) (current : ℤ)
    → IsProjector s.project
    → IsLog w.db.events
    → Checked s req w current
    → IsRead w.db.events (record { service = s; request = req; current = current })
Checked-IsRead s req w current p h c =
    let mine = log s.aggregate_type req.id w.db.events in
    record {
      projector = p;
      version = length mine;
      current_lem = c.latest ∙ max_version-log mine (h s.aggregate_type req.id);
      within = omega arith;
    }

module _ {A : Type 0} (agg : Aggregate A) (s : CommandService) (req : AppendRequest) where
  own :
      (stored : StoredEvent) (id : ℤ) (now : ℕ) (v : ℤ)
      → stored ≡ stored_event id now (to_append s.aggregate_type req v)
      → log s.aggregate_type req.id (stored ∷ []) ≡ stored ∷ []
  unfolding of_aggregate to_append stored_event
  own stored id now v h = rw (h, eq_refl s.aggregate_type, eq_refl req.id) refl

  module _ (p : IsProjector s.project) (stored : StoredEvent) (w w' : World) (h : IsLog w.db.events)
      (counted : length w.db.events ≤ w.event_seq) (current : ℤ) (c : Checked s req w current)
      (wr : Written s req current stored w w') where
    abbrev before : List StoredEvent
    before = log s.aggregate_type req.id w.db.events

    abbrev pending : Pending
    pending = record { service = s; request = req; current = current }

    version_lem : stored.version ≡ pos (suc (length before))
    unfolding stored_event to_append
    version_lem =
        stored_version pending stored w w' (Checked-IsRead s req w current p h c) wr h counted
        ∙ ap (λ e. pos (suc (length (log e.aggregate_type e.aggregate_id w.db.events))))
            wr.stored_lem

    log_lem : log s.aggregate_type req.id w'.db.events ≡ before ++ stored ∷ []
    log_lem =
        ap (log s.aggregate_type req.id) wr.events
        ∙ filter-append (of_aggregate s.aggregate_type req.id) w.db.events (stored ∷ [])
        ∙ ap (λ es. before ++ es) (own stored _ _ _ wr.stored_lem)

    all_taken :
        take (suc (length before)) (log s.aggregate_type req.id w'.db.events)
        ≡ before ++ stored ∷ []
    all_taken =
        ap (take (suc (length before))) (log_lem ∙ sym (append-nil (before ++ stored ∷ [])))
        ∙ ap (λ (n : ℕ). take n ((before ++ stored ∷ []) ++ [])) {x = suc (length before)}
            (omega (arith, length-append before (stored ∷ [])))
        ∙ take-append (before ++ stored ∷ []) []

    replay_lem :
        Usable agg s.aggregate_type req.id
          (up_to stored.version)
          w'.db.events
          (latest_of s.aggregate_type req.id w'.db.snapshots)
        → (replay agg s.aggregate_type req.id (up_to stored.version) (quiet w')).0
          ≡ (apply_all agg (agg.fresh req.id) (before ++ stored ∷ []) >>= or_not_found agg)
    replay_lem usable =
        ap (λ v. (replay agg s.aggregate_type req.id (up_to v) (quiet w')).0) version_lem
        ∙ replay-take agg s.aggregate_type req.id (suc (length before)) w'
            (commit-IsLog pending stored w w' (Checked-IsRead s req w current p h c) wr h counted)
            (subst
              (λ v.
                Usable agg s.aggregate_type req.id (up_to v) w'.db.events
                  (latest_of s.aggregate_type req.id w'.db.snapshots))
              version_lem usable)
        ∙ ap (λ es. apply_all agg (agg.fresh req.id) es >>= or_not_found agg) all_taken

  -- If the versions of the aggregates count from 1, as many event ids are used as there are events
  -- or more, and a command returns an event, whose projector writes only its own table, then the
  -- event has the next version of its aggregate, and, if the aggregate's latest snapshot is then
  -- missing, lies above that version or holds the state that the events up to its version give, a
  -- replay up to that version, in which no call of the driver fails, gives what applying the
  -- earlier events and then this one to a new aggregate gives.
  pub append-replay :
      (p : IsProjector s.project) (stored : StoredEvent) (w w' : World)
      → IsLog w.db.events
      → length w.db.events ≤ w.event_seq
      → append s req w ≡ (ok stored, w')
      → Usable agg s.aggregate_type req.id
          (up_to stored.version)
          w'.db.events
          (latest_of s.aggregate_type req.id w'.db.snapshots)
      → (stored.version ≡ pos (suc (length (log s.aggregate_type req.id w.db.events))))
        × ((replay agg s.aggregate_type req.id (up_to stored.version) (quiet w')).0 ≡ (
            apply_all agg
              (agg.fresh req.id)
              (log s.aggregate_type req.id w.db.events ++ stored ∷ [])
            >>= or_not_found agg))
  append-replay p stored w w' h counted e usable =
      let (current, c, wr) = append-committed s p req stored w w' e in
      (
        version_lem p stored w w' h counted current c wr,
        replay_lem p stored w w' h counted current c wr usable,
      )
