-- ===== src/Replay/History.antt =====
-- `Engine.replay` at a version, over the events that the commands store.
use api_time_machine.Prelude.{
  ℕ, ◌≤◌, String, ◌≡◌, refl, sym, ap, subst, ◌∙◌, inl, inr, arith, List, ◌++◌, length, take, Option,
  none, some, Bool-cases,
}
use api_time_machine.Prelude.Int.{pos}
use api_time_machine.Domain.{StoredEvent, Snapshot}
use api_time_machine.Aggregate.{Aggregate}
use api_time_machine.EventStore.Log.{log, IsLog}
use api_time_machine.SnapshotStore.{latest_of}
use api_time_machine.World.{World, quiet}
use api_time_machine.Result.{Result, ◌>>=◌}
use api_time_machine.Replay.{before_snapshot, replay}
use api_time_machine.Replay.Reference.{apply_all, or_not_found, reference}
use api_time_machine.Replay.Correct.{up_to, IsNumbered, Usable, replay-eq-reference}
use api_time_machine.Replay.Prefix.{rows_until-take, rows_until-append, IsLog-IsNumbered}
use api_time_machine.Commands.Interleaving.{System, Inv, Reach, Reach-Inv}
use api_time_machine.Commands.History.{Reach-Grown, Reach-snapshots}

module _ {A : Type 0} (agg : Aggregate A) (t id : String) (n : ℕ) where
  -- The state after the first `n` events.
  abbrev pub after : List StoredEvent → Result A
  after events = apply_all agg (agg.fresh id) (take n (log t id events)) >>= or_not_found agg

  pub replay-take :
      (w : World)
      → IsLog w.db.events
      → Usable agg t id (up_to (pos n)) w.db.events (latest_of t id w.db.snapshots)
      → (replay agg t id (up_to (pos n)) (quiet w)).0 ≡ after w.db.events
  unfolding reference
  replay-take w h u =
      replay-eq-reference agg t id (up_to (pos n)) w (IsLog-IsNumbered w.db.events h) u
      ∙ ap (λ es. apply_all agg (agg.fresh id) es >>= or_not_found agg)
          (rows_until-take t id n w.db.events h)

  -- A snapshot that may be used before more events come may be used after.
  Usable-append :
      (events more : List StoredEvent) (snap : Option Snapshot)
      → IsLog (events ++ more)
      → n ≤ length (log t id events)
      → Usable agg t id (up_to (pos n)) events snap
      → Usable agg t id (up_to (pos n)) (events ++ more) snap
  Usable-append events more none h le u = tt
  Usable-append events more (some snap) h le (inl passed) = inl passed
  Usable-append events more (some snap) h le (inr u) =
      elim (Bool-cases (before_snapshot (some (pos n)) snap.version)) [
        | inl passed ↦ inl passed
        | inr reached ↦ inr (
          u.0
              ∙ ap (apply_all agg (agg.fresh id)) (
                  sym (
                    rows_until-append t id snap.version events more h
                      (ground (arith, reached, le)))),
          u.1,
          u.2,
        )
      ]

  replay-grown :
      (events more : List StoredEvent) (w w' : World)
      → w.db.events ≡ events
      → w'.db.events ≡ events ++ more
      → IsLog events
      → IsLog (events ++ more)
      → w'.db.snapshots ≡ w.db.snapshots
      → n ≤ length (log t id events)
      → Usable agg t id (up_to (pos n)) events (latest_of t id w.db.snapshots)
      → (replay agg t id (up_to (pos n)) (quiet w')).0
        ≡ (replay agg t id (up_to (pos n)) (quiet w)).0
  unfolding reference
  replay-grown events more w w' e e' h h' same le u =
      replay-eq-reference agg t id (up_to (pos n)) w'
        (subst IsNumbered (sym e') (IsLog-IsNumbered (events ++ more) h'))
        (subst (λ es. Usable agg t id (up_to (pos n)) es (latest_of t id w'.db.snapshots)) (sym e')
          (subst (λ ss. Usable agg t id (up_to (pos n)) (events ++ more) (latest_of t id ss))
            (sym same) (Usable-append events more (latest_of t id w.db.snapshots) h' le u)))
      ∙ ap (reference agg t id (up_to (pos n))) e'
      ∙ ap (λ es. apply_all agg (agg.fresh id) es >>= or_not_found agg)
          (rows_until-append t id (pos n) events more h' (omega arith))
      ∙ sym (
          replay-eq-reference agg t id (up_to (pos n)) w
            (subst IsNumbered (sym e) (IsLog-IsNumbered events h))
            (subst (λ es. Usable agg t id (up_to (pos n)) es (latest_of t id w.db.snapshots))
              (sym e) u)
          ∙ ap (reference agg t id (up_to (pos n))) e)

  -- From a state that satisfies the invariant of the interleavings on, whatever commands do and in
  -- whatever order, the replay of an aggregate up to a version that its log has reached stays the
  -- same, if its latest snapshot is missing, lies above that version or holds the state that the
  -- events up to its version give, and no call of the driver fails in the replays.
  pub replay-Reach :
      {s u : System}
      → Inv s
      → Reach s u
      → n ≤ length (log t id s.world.db.events)
      → Usable agg t id (up_to (pos n)) s.world.db.events (latest_of t id s.world.db.snapshots)
      → (replay agg t id (up_to (pos n)) (quiet u.world)).0
        ≡ (replay agg t id (up_to (pos n)) (quiet s.world)).0
  replay-Reach {s} {u} inv r le usable =
      let g = Reach-Grown inv r in
      replay-grown s.world.db.events g.more s.world u.world refl g.events inv.is_log
        (subst IsLog g.events (Reach-Inv inv r).is_log) (Reach-snapshots inv r) le usable
