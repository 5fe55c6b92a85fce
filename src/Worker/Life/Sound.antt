-- ===== src/Worker/Life/Sound.antt =====
-- The snapshots stay faithful while commands and the builder run side by side.
use api_time_machine.Prelude.{
  ℕ, suc, ◌+◌, String, ◌&&◌, ◌≡◌, refl, sym, ap, subst, ◌∙◌, inl, inr, arith, Option, none, some,
  List, [], ◌∷◌, ◌++◌, All, filter, filter-cong, filter-append, length, length-append,
}
use api_time_machine.Prelude.Int.{ℤ, pos, ◌≤ℤ◌}
use api_time_machine.Prelude.Sort.{order_by}
use api_time_machine.Json.{Json}
use api_time_machine.Domain.{StoredEvent, Snapshot}
use api_time_machine.Aggregate.{Aggregate}
use api_time_machine.EventStore.{version_le, within, rows_until, of_aggregate}
use api_time_machine.EventStore.Log.{log, IsLog, IsContiguous}
use api_time_machine.SnapshotStore
use api_time_machine.SnapshotStore.{greatest, latest_of}
use api_time_machine.Replay.{replay}
use api_time_machine.Replay.Reference.{apply_all}
use api_time_machine.Replay.Correct.{up_to, Usable}
use api_time_machine.Replay.Prefix.{
  rows_until-append, IsLog-IsNumbered, order_by-sorted, IsContiguous-IsSorted,
}
use api_time_machine.World.{World}
use api_time_machine.Result.{Result, Error, ok, err, Result-cases}
use api_time_machine.Result
use api_time_machine.Worker.Builder.{everything}
use api_time_machine.Worker.Builder.Holds.{Holds, Holds-greatest}
use api_time_machine.Worker.Builder.Faithful.{IsLawful, Given-replayed, replayed}
use api_time_machine.Worker.Life.Steps.{replay-quiet}

-- All rows of a log.
pub rows_until-log :
    (t id : String) (events : List StoredEvent)
    → IsLog events
    → rows_until t id everything events ≡ log t id events
unfolding rows_until
rows_until-log t id events h =
    ap (order_by version_le) (filter-cong _ _ events (bounds events))
    ∙ order_by-sorted (log t id events) (IsContiguous-IsSorted 0 (log t id events) (h t id))
  where
    bounds :
        (es : List StoredEvent)
        → All (λ e. (of_aggregate t id e && within everything e) ≡ of_aggregate t id e) es
    bounds [] = tt
    bounds (e ∷ es) = (unfold within in ground arith, bounds es)

module _ {A : Type 0} (agg : Aggregate A) (t id : String) where
  -- The state is what the events up to the version give, and the log has reached the version.
  abbrev pub Stands : List StoredEvent → ℤ → Json → Type 0
  Stands events v state =
      (agg.unmarshal_snapshot (agg.fresh id) state
        ≡ apply_all agg (agg.fresh id) (rows_until t id (up_to v) events))
      × (v ≤ℤ pos (length (log t id events)))

  -- More events change neither.
  pub Stands-append :
      (events more : List StoredEvent) (v : ℤ) (state : Json)
      → IsLog (events ++ more)
      → Stands events v state
      → Stands (events ++ more) v state
  Stands-append events more v state h (given, le) = (
    given ∙ ap (apply_all agg (agg.fresh id)) (sym (rows_until-append t id v events more h le)),
    longer,
  )
    where
      longer : v ≤ℤ pos (length (log t id (events ++ more)))
      longer = omega (
        arith,
        le,
        ap length (filter-append (of_aggregate t id) events more),
        length-append (log t id events) (log t id more),
      )

  pub Stands-Usable :
      (version : Option ℤ) (events : List StoredEvent) (snaps : List Snapshot)
      → Holds (Stands events) t id snaps
      → Usable agg t id
          (record { at = none; version = version; until_id = none })
          events
          (latest_of t id snaps)
  Stands-Usable version events snaps h = by_latest (latest_of t id snaps) refl
    where
      by_latest :
          (o : Option Snapshot)
          → latest_of t id snaps ≡ o
          → Usable agg t id (record { at = none; version = version; until_id = none }) events o
      by_latest none e = tt
      by_latest (some s) e = inr (
        (Holds-greatest (Stands events) (filter (SnapshotStore.of_aggregate t id) snaps) s h e).0,
        refl,
        refl,
      )

  module _ (laws : IsLawful agg) where
    -- After the events of a log, the version is their number.
    reached :
        (n : ℕ) (a b : A) (es : List StoredEvent)
        → agg.current_version a ≡ pos n
        → IsContiguous n es
        → apply_all agg a es ≡ ok b
        → agg.current_version b ≡ pos (n + length es)
    unfolding apply_all
    reached n a b [] v c h = ap (version_or n) (sym h) ∙ v ∙ ap pos (omega arith)
      where
        version_or : ℕ → Result A → ℤ
        version_or n (ok x) = agg.current_version x
        version_or n (err x) = pos n
    reached n a b (e ∷ es) v c h = elim (Result-cases (agg.apply a e)) [
      | inl (a', applied) ↦
          reached (suc n) a' b es (laws.touches a a' e applied ∙ c.0) c.1
            (sym (ap (λ r. Result.◌>>=◌ r λ x. apply_all agg x es) applied) ∙ h)
          ∙ ap pos (omega arith)
      | inr (x, failed) ↦
          absurd (impossible x (sym (ap (λ r. Result.◌>>=◌ r λ x. apply_all agg x es) failed) ∙ h))
    ]
      where
        impossible : (x : Error) → ¬ (err x ≡ ok b)
        impossible x e = cc

    -- A replay with no bounds gives a snapshot that stands.
    pub Stands-replay :
        (w w' : World) (a : A)
        → agg.current_version (agg.fresh id) ≡ pos 0
        → IsLog w.db.events
        → Holds (Stands w.db.events) t id w.db.snapshots
        → replay agg t id everything w ≡ (ok a, w')
        → Stands w.db.events (agg.current_version a) (agg.marshal_snapshot a)
    Stands-replay w w' a zero lg h e =
        let events = w.db.events in
        let applied =
          replayed agg laws t id w a (IsLog-IsNumbered events lg)
            (Stands-Usable none events w.db.snapshots h) (replay-quiet agg t id w w' a e) in
        let version =
          reached 0 (agg.fresh id) a (log t id events) zero (lg t id)
            (ap (apply_all agg (agg.fresh id)) (sym (rows_until-log t id events lg)) ∙ applied) in
        (
          Given-replayed agg laws t id events a applied,
          subst (λ v. v ≤ℤ pos (length (log t id events))) (sym version) (omega arith),
        )
