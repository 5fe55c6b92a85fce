-- ===== src/Worker/Builder/Faithful.antt =====
-- The builder keeps the snapshots faithful to the events.

use api_time_machine.Prelude.{
  suc, ltb, ◌^◌, String, Bool, true, ◌≡◌, refl, sym, ap, subst, ◌∙◌, ◌⊎◌, inl, inr, arith, Option,
  none, some, List, [], ◌∷◌, filter, All, Bool-cases, if◌then◌else◌,
}
use api_time_machine.Prelude.Int.{ℤ, pos, leb_ℤ}
use api_time_machine.Prelude.Sort.{IsSorted}
use api_time_machine.Json.{Json}
use api_time_machine.Domain.{StoredEvent, Snapshot, ReplayQuery}
use api_time_machine.Aggregate.{Aggregate}
use api_time_machine.EventStore.{version_le, rows_until, load_events_until}
use api_time_machine.SnapshotStore.{of_aggregate, latest_of, upsert, new_snapshot, save, latest}
use api_time_machine.Worker.Builder.Holds.{Holds, Holds-greatest, Holds-upsert}
use api_time_machine.Replay.{replay}
use api_time_machine.Replay.Reference.{apply_all, reference, rows_until-IsSorted}
use api_time_machine.Replay.Correct.{up_to, IsNumbered, Usable, rows-up_to, replay-eq-reference}
use api_time_machine.Worker.Builder.{everything, snapshot_with}
use api_time_machine.World.{World, Db, M, ◌>>=◌, gets, modify_db, quiet, call, next_snapshot_id}
use api_time_machine.Result
use api_time_machine.Result.{db_failed, Error, Result, ok, err, Result-cases}

-- What the builder relies on: an applied event sets the version, and a state survives its snapshot.
pub record IsLawful {A : Type 0} (agg : Aggregate A) : Type 0 where
  pub touches :
      (a b : A) (e : StoredEvent) → agg.apply a e ≡ ok b → agg.current_version b ≡ e.version
  pub roundtrip :
      (id : String) (a : A) → agg.unmarshal_snapshot (agg.fresh id) (agg.marshal_snapshot a) ≡ ok a

module _ {A : Type 0} (agg : Aggregate A) (laws : IsLawful agg) where
  first_below :
      (a b : A) (e : StoredEvent) (es : List StoredEvent)
      → agg.current_version a ≡ e.version
      → All (λ x. version_le e x ≡ true) es
      → All (λ x. leb_ℤ x.version (agg.current_version b) ≡ true) es
      → apply_all agg a es ≡ ok b
      → leb_ℤ e.version (agg.current_version b) ≡ true
  unfolding apply_all
  first_below a b e [] v le below h =
      ground (arith, ap (λ r. version_or agg.current_version r) h, v)
    where
      version_or : (A → ℤ) → Result A → ℤ
      version_or f (ok x) = f x
      version_or f (err y) = pos 0
  first_below a b e (x ∷ es) v le below h = ground (arith, le.0, below.0)

  -- In the order of versions, the state has the greatest version of the events applied.
  below_version :
      (a b : A) (es : List StoredEvent)
      → IsSorted version_le es
      → apply_all agg a es ≡ ok b
      → All (λ e. leb_ℤ e.version (agg.current_version b) ≡ true) es
  unfolding apply_all
  below_version a b [] s h = tt
  below_version a b (e ∷ es) s h = elim (Result-cases (agg.apply a e)) [
    | inl (a', applied) ↦
        let rest : apply_all agg a' es ≡ ok b =
          sym (ap (λ r. Result.◌>>=◌ r λ x. apply_all agg x es) applied) ∙ h in
        let below = below_version a' b es s.1 rest in
        (first_below a' b e es (laws.touches a a' e applied) s.0 below rest, below)
    | inr (x, failed) ↦
        absurd (err-ne-ok x b (sym (ap (λ r. Result.◌>>=◌ r λ x. apply_all agg x es) failed) ∙ h))
  ]
    where
      err-ne-ok : (x : Error) (b : A) → ¬ (err x ≡ ok b)
      err-ne-ok x b e = cc

filter_keeps :
    (p : StoredEvent → Bool) (es : List StoredEvent) → All (λ e. p e ≡ true) es → filter p es ≡ es
filter_keeps p [] h = refl
filter_keeps p (e ∷ es) h = ground (arith, h.0, filter_keeps p es h.1)

module _ {A : Type 0} (agg : Aggregate A) (laws : IsLawful agg) (t id : String) where
  -- The fact: the state is what the events up to the version give.
  abbrev Given : List StoredEvent → ℤ → Json → Type 0
  Given events v state =
      agg.unmarshal_snapshot (agg.fresh id) state
      ≡ apply_all agg (agg.fresh id) (rows_until t id (up_to v) events)

  -- Every snapshot of the aggregate is faithful to the events.
  abbrev pub AllFaithful : Db → Type 0
  AllFaithful db = Holds (Given db.events) t id db.snapshots

  replay_world : (q : ReplayQuery) (w : World) → (replay agg t id q (quiet w)).1 ≡ quiet w
  unfolding replay latest load_events_until call
  replay_world q w = ground arith

  -- A snapshot is written, or, past the last id, nothing.
  save_db :
      (v : ℤ) (state : Json) (w : World)
      → ((save t id v state (quiet w)).1.db ≡ w.db)
        ⊎ ((n : ℤ) × ((save t id v state (quiet w)).1.db ≡ record w.db {
          snapshots = upsert (new_snapshot n w.now t id v state) w.db.snapshots;
        }))
  unfolding save call next_snapshot_id
  save_db v state w = elim (Bool-cases (ltb (suc w.snapshot_seq) (2 ^ 63))) [
    | inl room ↦ inr (pos (suc w.snapshot_seq), ap (step v state w) room)
    | inr full ↦ inl (ap (step v state w) full)
  ]
    where
      next : Bool → M ℤ
      next room w =
          if room
          then (ok (pos (suc w.snapshot_seq)), record w { snapshot_seq = suc w.snapshot_seq })
          else (err db_failed, w)

      -- The database after the save, by whether there is room for an id.
      step : ℤ → Json → World → Bool → Db
      step v state w room =
          ((next room >>= λ n. gets (λ w. w.now) >>= λ now.
          modify_db
            (λ db. record db { snapshots = upsert (new_snapshot n now t id v state) db.snapshots }))
            (quiet w)).1.db

  usable :
      (events : List StoredEvent) (snaps : List Snapshot)
      → Holds (Given events) t id snaps
      → Usable agg t id everything events (latest_of t id snaps)
  usable events snaps all = by_latest (latest_of t id snaps) refl
    where
      by_latest :
          (o : Option Snapshot) → latest_of t id snaps ≡ o → Usable agg t id everything events o
      by_latest none e = tt
      by_latest (some s) e =
          inr (Holds-greatest (Given events) (filter (of_aggregate t id) snaps) s all e, refl, refl)

  pub replayed :
      (w : World) (a : A)
      → IsNumbered w.db.events
      → Usable agg t id everything w.db.events (latest_of t id w.db.snapshots)
      → (replay agg t id everything (quiet w)).0 ≡ ok a
      → apply_all agg (agg.fresh id) (rows_until t id everything w.db.events) ≡ ok a
  unfolding reference
  replayed w a numbered usable h =
      let from_reference = sym (replay-eq-reference agg t id everything w numbered usable) ∙ h in
      elim (Result-cases (apply_all agg (agg.fresh id) (rows_until t id everything w.db.events))) [
        | inl (b, e) ↦ ground (arith, e, from_reference)
        | inr (x, e) ↦ ground (arith, e, from_reference)
      ]

  -- The state that a replay returns, under its own version, is faithful.
  pub Given-replayed :
      (events : List StoredEvent) (a : A)
      → apply_all agg (agg.fresh id) (rows_until t id everything events) ≡ ok a
      → Given events (agg.current_version a) (agg.marshal_snapshot a)
  Given-replayed events a h =
      let rows = rows_until t id everything events in
      laws.roundtrip id a
      ∙ sym h
      ∙ ap (apply_all agg (agg.fresh id)) (
          sym (
            filter_keeps _ rows (
              below_version agg laws (agg.fresh id) a rows
                (rows_until-IsSorted t id everything events) h))
          ∙ rows-up_to agg t id everything events (agg.current_version a) refl refl refl)

  saved :
      (w : World) (a : A)
      → AllFaithful w.db
      → Given w.db.events (agg.current_version a) (agg.marshal_snapshot a)
      → let end = (save t id (agg.current_version a) (agg.marshal_snapshot a) (quiet w)).1 in
        AllFaithful end.db × (end.db.events ≡ w.db.events)
  saved w a all given = elim (save_db (agg.current_version a) (agg.marshal_snapshot a) w) [
    | inl same ↦ (subst AllFaithful (sym same) all, ap (λ (db : Db). db.events) same)
    | inr (n, written) ↦
        let new = new_snapshot n w.now t id (agg.current_version a) (agg.marshal_snapshot a) in
        (
          subst AllFaithful (sym written) (
              Holds-upsert (Given w.db.events) t id new w.db.snapshots
                (λ _. unfold new_snapshot in given) all),
          ap (λ (db : Db). db.events) written,
        )
  ]

  abbrev after : Result A → World → World
  after (ok a) w = (save t id (agg.current_version a) (agg.marshal_snapshot a) w).1
  after (err x) w = w

  after_replay :
      (w : World)
      → (snapshot_with agg t id (quiet w)).1
        ≡ after (replay agg t id everything (quiet w)).0 (quiet w)
  unfolding snapshot_with
  after_replay w = ground (arith, replay_world everything w)

  -- For an aggregate whose applied events set its version and whose states survive their snapshots:
  -- if the versions of all events are above 0 and all snapshots of one id hold the states that the
  -- events up to their versions give, then, after the builder has taken a snapshot of that id with
  -- no call of the driver failing, all of them still do, the new one too, and the events are as
  -- they were.
  pub snapshot_with-AllFaithful :
      (w : World)
      → IsNumbered w.db.events
      → AllFaithful w.db
      → let end = (snapshot_with agg t id (quiet w)).1 in
        AllFaithful end.db × (end.db.events ≡ w.db.events)
  snapshot_with-AllFaithful w numbered all =
      elim (Result-cases (replay agg t id everything (quiet w)).0) [
        | inl (a, e) ↦
            rw (after_replay w, e)
              (saved w a all (
                Given-replayed w.db.events a
                  (replayed w a numbered (usable w.db.events w.db.snapshots all) e)))
        | inr (x, e) ↦ rw (after_replay w, e) (all, refl)
      ]
