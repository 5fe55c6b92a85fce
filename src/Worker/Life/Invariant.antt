-- ===== src/Worker/Life/Invariant.antt =====
-- What holds in every state that is reached: the versions of the log, and the snapshots of a type.
use api_time_machine.Prelude.{
  ℕ, String, true, ◌≡◌, sym, ap, subst, ◌∙◌, inl, inr, arith, some, List, [], ◌∷◌, ◌++◌, All,
  All-map, All-drop, filter, length, str_eq, eq_iff,
}
use api_time_machine.Prelude.Int.{ℤ, pos}
use api_time_machine.Domain.{StoredEvent}
use api_time_machine.Aggregate.{Aggregate}
use api_time_machine.EventStore.Log.{IsLog}
use api_time_machine.SnapshotStore
use api_time_machine.SnapshotStore.{new_snapshot}
use api_time_machine.Replay.{replay}
use api_time_machine.Replay.Correct.{up_to}
use api_time_machine.Replay.History.{after, replay-take}
use api_time_machine.World.{World, Db, quiet}
use api_time_machine.Result.{ok}
use api_time_machine.Commands.Interleaving.{System, Step, Inv, Step-Inv, idle, idle-Inv}
use api_time_machine.Commands.Commit.{IsRead}
use api_time_machine.Commands.History.{Step-Grown, Step-snapshots}
use api_time_machine.Worker.Builder.{everything}
use api_time_machine.Worker.Builder.Holds.{Holds, Holds-upsert}
use api_time_machine.Worker.Builder.Faithful.{IsLawful}
use api_time_machine.Worker.Life
use api_time_machine.Worker.Life.{
  Save, save_of, put, Running, Moment, command, taken, given_up, saved, Life, born, lived,
}
use api_time_machine.Worker.Life.Steps.{take-Kept, put-event_seq, put-db}
use api_time_machine.Worker.Life.Sound.{Stands, Stands-append, Stands-Usable, Stands-replay}

kept-Inv :
    (sys : System) (w : World)
    → w.db.events ≡ sys.world.db.events
    → w.event_seq ≡ sys.world.event_seq
    → Inv sys
    → Inv (record sys { world = w })
kept-Inv sys w events seq inv = record {
  is_log = subst IsLog (sym events) inv.is_log;
  counted = omega (arith, inv.counted, ap length events, seq);
  reads = subst (λ es. All (IsRead es) sys.pending) (sym events) inv.reads;
}

put-events : (s : Save) (w : World) → (put s w).db.events ≡ w.db.events
put-events s w = elim (put-db s w) [
  | inl same ↦ ap (λ (db : Db). db.events) same
  | inr (n, written) ↦ ap (λ (db : Db). db.events) written
]

module _ {A : Type 0} (agg : Aggregate A) (t : String) where
  -- The snapshots that the builder takes for this type are those of this aggregate.
  abbrev pub Owns : Type 0
  Owns =
      (t' id : String) (s : Save) (w w' : World)
      → Life.take t' id w ≡ (some s, w')
      → str_eq s.aggregate_type t ≡ true
      → (a : A) × (replay agg t id everything w ≡ (ok a, w')) × (s ≡ save_of agg t id a)

module _ {A : Type 0} (agg : Aggregate A) (laws : IsLawful agg) (t : String)
    (zero : (id : String) → agg.current_version (agg.fresh id) ≡ pos 0) where
  abbrev Sound : Db → Type 0
  Sound db = (id : String) → Holds (Stands agg t id db.events) t id db.snapshots

  abbrev Fits : List StoredEvent → Save → Type 0
  Fits events s = str_eq s.aggregate_type t ≡ true → Stands agg t s.id events s.version s.state

  record LifeInv (r : Running) : Type 0 where
    system : Inv r.system
    snapshots : Sound r.system.world.db
    saves : All (Fits r.system.world.db.events) r.saves

  -- The snapshot of an aggregate that a save writes.
  Fits-new :
      (s : Save) (n : ℤ) (w : World) (id : String)
      → Fits w.db.events s
      → SnapshotStore.of_aggregate t id
          (new_snapshot n w.now s.aggregate_type s.id s.version s.state)
        ≡ true
      → Stands agg t id w.db.events s.version s.state
  unfolding SnapshotStore.of_aggregate new_snapshot
  Fits-new s n w id fits mine =
      subst (λ id. Stands agg t id w.db.events s.version s.state)
        ((eq_iff s.id id).0 (ground (arith, mine))) (fits (ground (arith, mine)))

  module _ (owns : Owns agg t) where
    command-LifeInv :
        (r : Running) (u : System) → Step r.system u → LifeInv r → LifeInv (record r { system = u })
    command-LifeInv r u step inv =
        let system = Step-Inv step inv.system in
        let g = Step-Grown step inv.system in
        let events = r.system.world.db.events in
        let lg = subst IsLog g.events system.is_log in
        record {
          system = system;
          snapshots = λ id.
              subst (λ es. Holds (Stands agg t id es) t id u.world.db.snapshots) (sym g.events)
                (subst (Holds (Stands agg t id (events ++ g.more)) t id)
                  (sym (Step-snapshots step inv.system))
                  (All-map (λ s. Stands agg t id events s.version s.state)
                    (λ s. Stands agg t id (events ++ g.more) s.version s.state)
                    (filter (SnapshotStore.of_aggregate t id) r.system.world.db.snapshots)
                    (λ s. Stands-append agg t id events g.more s.version s.state lg)
                    (inv.snapshots id)));
          saves =
              subst (λ es. All (Fits es) r.saves) (sym g.events)
                (All-map (Fits events) (Fits (events ++ g.more)) r.saves
                  (λ s fits mine.
                    Stands-append agg t s.id events g.more s.version s.state lg (fits mine))
                  inv.saves);
        }

    -- A step that keeps the events and the snapshots that there are.
    kept-LifeInv :
        (r : Running) (w : World) (saves : List Save)
        → w.db ≡ r.system.world.db
        → w.event_seq ≡ r.system.world.event_seq
        → LifeInv r
        → All (Fits r.system.world.db.events) saves
        → LifeInv (record { system = record r.system { world = w }; saves = saves })
    kept-LifeInv r w saves db seq inv fits = record {
      system = kept-Inv r.system w (ap (λ (d : Db). d.events) db) seq inv.system;
      snapshots = subst Sound (sym db) inv.snapshots;
      saves = subst (λ (d : Db). All (Fits d.events) saves) (sym db) fits;
    }

    taken-LifeInv :
        (r : Running) (t' id : String) (s : Save) (w : World)
        → Life.take t' id r.system.world ≡ (some s, w)
        → LifeInv r
        → LifeInv (record { system = record r.system { world = w }; saves = s ∷ r.saves })
    taken-LifeInv r t' id s w h inv =
        let old = r.system.world in
        let kept = take-Kept t' id old in
        kept-LifeInv r w (s ∷ r.saves) (ap (λ p. p.1.db) (sym h) ∙ kept.0)
          (ap (λ p. p.1.event_seq) (sym h) ∙ kept.1) inv
          (
            (λ mine.
                let (a, e, same) = owns t' id s old w h mine in
                subst (λ (s : Save). Stands agg t s.id old.db.events s.version s.state) (sym same)
                  (Stands-replay agg t id laws old w a (zero id) inv.system.is_log
                    (inv.snapshots id) e)),
            inv.saves,
          )

    given_up-LifeInv :
        (r : Running) (t' id : String)
        → LifeInv r
        → LifeInv
            (record r { system = record r.system { world = (Life.take t' id r.system.world).1 } })
    given_up-LifeInv r t' id inv =
        let kept = take-Kept t' id r.system.world in
        kept-LifeInv r (Life.take t' id r.system.world).1 r.saves kept.0 kept.1 inv inv.saves

    -- The snapshots after a save.
    put-Sound : (s : Save) (w : World) → Fits w.db.events s → Sound w.db → Sound (put s w).db
    unfolding new_snapshot
    put-Sound s w fits sound = elim (put-db s w) [
      | inl same ↦ subst Sound (sym same) sound
      | inr (n, written) ↦ subst Sound (sym written) λ id.
          Holds-upsert (Stands agg t id w.db.events) t id
            (new_snapshot n w.now s.aggregate_type s.id s.version s.state) w.db.snapshots
            (λ mine. Fits-new s n w id fits mine) (sound id)
    ]

    saved-LifeInv :
        (r : Running) (before after : List Save) (s : Save)
        → r.saves ≡ before ++ s ∷ after
        → LifeInv r
        → LifeInv (record {
          system = record r.system { world = put s r.system.world };
          saves = before ++ after;
        })
    saved-LifeInv r before after s h inv =
        let w = r.system.world in
        let (fits, rest) =
          All-drop (Fits w.db.events) before after s (subst (All (Fits w.db.events)) h inv.saves) in
        let events = put-events s w in
        record {
          system = kept-Inv r.system (put s w) events (put-event_seq s w) inv.system;
          snapshots = put-Sound s w fits inv.snapshots;
          saves = subst (λ es. All (Fits es) (before ++ after)) (sym events) rest;
        }

    Moment-LifeInv : {r u : Running} → Moment r u → LifeInv r → LifeInv u
    Moment-LifeInv (command r u step) inv = command-LifeInv r u step inv
    Moment-LifeInv (taken r t' id s w h) inv = taken-LifeInv r t' id s w h inv
    Moment-LifeInv (given_up r t' id) inv = given_up-LifeInv r t' id inv
    Moment-LifeInv (saved r before after s h) inv = saved-LifeInv r before after s h inv

    Life-LifeInv : {r u : Running} → Life r u → LifeInv r → LifeInv u
    Life-LifeInv born inv = inv
    Life-LifeInv (lived l m) inv = Moment-LifeInv m (Life-LifeInv l inv)

    -- A replay up to a version, in a state that is reached from empty tables.
    pub Life-replay :
        (w : World) {r : Running}
        → Life (record { system = idle w; saves = [] }) r
        → (id : String) (n : ℕ)
        → (replay agg t id (up_to (pos n)) (quiet r.system.world)).0
          ≡ after agg t id n r.system.world.db.events
    Life-replay w {r} life id n =
        let inv =
          Life-LifeInv life (record { system = idle-Inv w; snapshots = λ id. tt; saves = tt }) in
        replay-take agg t id n r.system.world inv.system.is_log (
          Stands-Usable agg t id (some (pos n)) r.system.world.db.events r.system.world.db.snapshots
            (inv.snapshots id))
