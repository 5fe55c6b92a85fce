-- ===== src/Commands/Interleaving.antt =====
-- Commands that run side by side. The version is read outside the transaction, so other commands
-- may commit between one command's read and its write: a step is a read, a write or a change of the
-- surroundings, and the steps of different commands come in any order. Postgres runs the inserts
-- into one unique index one after the other, so a write is one step.
use api_time_machine.Prelude.{
  ◌≤◌, Bool, ◌≡◌, sym, ap, subst, ◌∙◌, inl, inr, arith, List, [], ◌∷◌, ◌++◌, All, All-map, All-drop,
  length,
}
use api_time_machine.Prelude.Int.{ℤ}
use api_time_machine.Json.{Time}
use api_time_machine.EventStore
use api_time_machine.EventStore.{of_aggregate, max_version, stored_event}
use api_time_machine.EventStore.Log.{log, IsLog, max_version-log}
use api_time_machine.World.{
  World, Db, empty_db, call, transaction, call_keeps, transaction_err, transaction_ok, >>=-eq-ok,
  ◌>>◌,
}
use api_time_machine.Commands.{AppendRequest, CommandService, read, write}
use api_time_machine.Commands.Laws.{IsProjector, read_lem, write_lem, call_lem}
use api_time_machine.Commands.Commit.{
  Pending, IsRead, IsRead-append, commit-IsLog, commit-counted, write_seq,
}
use api_time_machine.Result.{Result, ok, Result-cases}

pub record System : Type 0 where
  pub world : World
  pub pending : List Pending

pub data Step : System → System → Type 0 where
  -- `Begin`, `LatestVersion` and the guards
  start :
      (s : CommandService) (req : AppendRequest) (sys : System) (current : ℤ) (w : World)
      → IsProjector s.project
      → (call >> read s req) sys.world ≡ (ok current, w)
      → Step sys (record {
        world = w;
        pending = record { service = s; request = req; current = current } ∷ sys.pending;
      })
  -- a command that ends there
  refuse :
      (s : CommandService) (req : AppendRequest) (sys : System)
      → Step sys (record sys { world = ((call >> read s req) sys.world).1 })
  -- the rest of one of the commands, which commits or rolls back
  finish :
      (sys : System) (before after : List Pending) (p : Pending)
      → sys.pending ≡ before ++ p ∷ after
      → Step sys (record {
        world = (transaction (write p.service p.request p.current) sys.world).1;
        pending = before ++ after;
      })
  -- time passes, the database becomes slow or fast
  surroundings :
      (sys : System) (now : Time) (faults : List Bool)
      → Step sys (record sys { world = record sys.world { now = now; faults = faults } })

pub data Reach (s : System) : System → Type 0 where
  here : Reach s s
  next : {t u : System} → Reach s t → Step t u → Reach s u

pub record Inv (sys : System) : Type 0 where
  pub is_log : IsLog sys.world.db.events
  pub counted : length sys.world.db.events ≤ sys.world.event_seq
  pub reads : All (IsRead sys.world.db.events) sys.pending

finish-Inv :
    (sys : System) (before after : List Pending) (p : Pending)
    → sys.pending ≡ before ++ p ∷ after
    → Inv sys
    → Inv (record {
      world = (transaction (write p.service p.request p.current) sys.world).1;
      pending = before ++ after;
    })
finish-Inv sys before after p e inv =
    let w = sys.world in
    let m = write p.service p.request p.current in
    let w' = (transaction m w).1 in
    let (r, others) =
      All-drop (IsRead w.db.events) before after p (subst (All (IsRead w.db.events)) e inv.reads) in
    elim (Result-cases (transaction m w).0) [
      | inl (stored, h) ↦
          let wr =
            write_lem p.service r.projector p.request p.current stored w w'
              (transaction_ok m (cc)) in
          record {
            is_log = commit-IsLog p stored w w' r wr inv.is_log inv.counted;
            counted = commit-counted p stored w w' r wr inv.is_log inv.counted;
            reads =
                subst (λ es. All (IsRead es) (before ++ after)) (sym wr.events)
                  (All-map (IsRead w.db.events) (IsRead (w.db.events ++ stored ∷ []))
                    (before ++ after) (IsRead-append w.db.events stored) others);
          }
      | inr (x, h) ↦
          let same = transaction_err m w x h in
          record {
            is_log = subst (λ db. IsLog db.events) (sym same) inv.is_log;
            counted = omega (
              arith,
              inv.counted,
              ap (λ (db : Db). length db.events) same,
              write_seq p.service p.request p.current w r.projector,
            );
            reads = subst (λ db. All (IsRead db.events) (before ++ after)) (sym same) others;
          }
    ]

-- A read keeps the tables, whether it returns or not.
pub read_db :
    (s : CommandService) (req : AppendRequest) (w : World)
    → (((call >> read s req) w).1.db ≡ w.db) × (((call >> read s req) w).1.event_seq ≡ w.event_seq)
unfolding read EventStore.latest_version
read_db s req w = ground (arith, call_keeps w, call_keeps (call w).1)

pub start-IsRead :
    (s : CommandService) (req : AppendRequest) (current : ℤ) (w w' : World)
    → IsProjector s.project
    → (call >> read s req) w ≡ (ok current, w')
    → IsLog w.db.events
    → IsRead w.db.events (record { service = s; request = req; current = current })
start-IsRead s req current w w' p h lg =
    let (u, v, called, got) = >>=-eq-ok call (λ _. read s req) h in
    let (checked, _) = read_lem s req current v w' got in
    let mine = log s.aggregate_type req.id w.db.events in
    record {
      projector = p;
      version = length mine;
      current_lem =
          checked.latest
          ∙ ap (λ (db : Db). max_version (log s.aggregate_type req.id db.events))
              (call_lem w v called).db
          ∙ max_version-log mine (lg s.aggregate_type req.id);
      within = omega arith;
    }

read-Inv :
    (s : CommandService) (req : AppendRequest) (sys : System)
    → Inv sys
    → Inv (record sys { world = ((call >> read s req) sys.world).1 })
read-Inv s req sys inv =
    let (same, seq) = read_db s req sys.world in
    record {
      is_log = subst (λ db. IsLog db.events) (sym same) inv.is_log;
      counted = omega (arith, inv.counted, ap (λ (db : Db). length db.events) same, seq);
      reads = subst (λ db. All (IsRead db.events) sys.pending) (sym same) inv.reads;
    }

pub Step-Inv : {t u : System} → Step t u → Inv t → Inv u
Step-Inv (start s req sys current w p h) inv =
    let (same, seq) = read_db s req sys.world in
    let db : w.db ≡ sys.world.db = cc (same, h) in
    record {
      is_log = subst (λ db. IsLog db.events) (sym db) inv.is_log;
      counted = omega (
        arith,
        inv.counted,
        ap (λ (db : Db). length db.events) db,
        seq,
        ap (λ (r : Result ℤ × World). r.1.event_seq) h,
      );
      reads =
          subst
            (λ db.
              All (IsRead db.events)
                (record { service = s; request = req; current = current } ∷ sys.pending))
            (sym db) (start-IsRead s req current sys.world w p h inv.is_log, inv.reads);
    }
Step-Inv (refuse s req sys) inv = read-Inv s req sys inv
Step-Inv (finish sys before after p e) inv = finish-Inv sys before after p e inv
Step-Inv (surroundings sys now faults) inv = record {
  is_log = inv.is_log;
  counted = inv.counted;
  reads = inv.reads;
}

-- Empty tables and no command under way.
abbrev pub idle : World → System
idle w = record { world = record w { db = empty_db }; pending = [] }

pub idle-Inv : (w : World) → Inv (idle w)
idle-Inv w = record { is_log = λ t id. tt; counted = omega arith; reads = tt }

pub Reach-Inv : {s t : System} → Inv s → Reach s t → Inv t
Reach-Inv inv here = inv
Reach-Inv inv (next r step) = Step-Inv step (Reach-Inv inv r)

-- In every state that is reached from empty tables by reads, refusals, writes of commands that
-- interleave in any order and fail at any call, and by changes of the clock and of the faults, each
-- aggregate's events have the versions 1, 2, 3, … in the order of the inserts, each once. The
-- projectors write only their own tables.
pub Reach-IsLog : (w : World) {sys : System} → Reach (idle w) sys → IsLog sys.world.db.events
Reach-IsLog w r = (Reach-Inv (idle-Inv w) r).is_log
