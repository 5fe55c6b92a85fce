-- ===== src/Commands/Laws.antt =====
-- `CommandService.Append`: what a command that returns has written, and that one that fails has
-- written nothing.
use api_time_machine.Prelude.{
  ◌∙◌, sym, ap, suc, ◌<◌, ◌^◌, String, false, not, ◌&&◌, ◌≡◌, arith, [], ◌∷◌, ◌++◌, filter, any,
}
use api_time_machine.Prelude.Int.{ℤ, pos, add64, ltb_ℤ, eqb_ℤ}
use api_time_machine.Domain.{StoredEvent}
use api_time_machine.EventStore
use api_time_machine.EventStore.{
  of_aggregate, max_version, same_version, stored_event, outbox_row, latest_version,
}
use api_time_machine.EventStore.Append.{append_lem as inserted_lem}
use api_time_machine.World.{
  World, M, transaction, call, pure, ◌>>=◌, ◌>>◌, >>=-eq-ok, call_keeps, transaction_err,
  transaction_ok,
}
use api_time_machine.Commands.{
  AppendRequest, CommandService, mismatch, to_append, check, read, write, append,
}
use api_time_machine.Result.{Error, ok, err}

-- What the command path relies on: a projector writes only its own table.
pub record IsProjector (project : StoredEvent → M (Unit {0})) : Type 0 where
  pub events : (e : StoredEvent) (w : World) → (project e w).1.db.events ≡ w.db.events
  pub outbox : (e : StoredEvent) (w : World) → (project e w).1.db.outbox ≡ w.db.outbox
  pub snapshots : (e : StoredEvent) (w : World) → (project e w).1.db.snapshots ≡ w.db.snapshots
  pub event_seq : (e : StoredEvent) (w : World) → (project e w).1.event_seq ≡ w.event_seq

-- A command that returns an error, at whichever step, leaves every table as it was.
pub append_atomic :
    (s : CommandService) (req : AppendRequest) (w : World) (e : Error)
    → (append s req w).0 ≡ err e
    → (append s req w).1.db ≡ w.db
unfolding append
append_atomic s req w e h =
    ground (arith, call_keeps w, transaction_err (λ w. (read s req >>= write s req) w) (call w).1 e)

-- What a returned `write` has done.
pub record Written (s : CommandService) (req : AppendRequest) (current : ℤ) (stored : StoredEvent)
    (w w' : World) : Type 0 where
  pub stored_lem :
      stored
      ≡ stored_event
          (pos (suc w.event_seq))
          w.now
          (to_append s.aggregate_type req (add64 current (pos 1)))
  pub unique :
      any (same_version (to_append s.aggregate_type req (add64 current (pos 1)))) w.db.events
      ≡ false
  pub events : w'.db.events ≡ w.db.events ++ stored ∷ []
  pub outbox : w'.db.outbox ≡ w.db.outbox ++ outbox_row (pos (suc w.outbox_seq)) stored ∷ []
  pub snapshots : w'.db.snapshots ≡ w.db.snapshots
  pub event_seq : w'.event_seq ≡ suc w.event_seq
  pub in_range : suc w.event_seq < 2 ^ 63

-- The projection and the commit.
abbrev project_and_commit : CommandService → StoredEvent → M StoredEvent
project_and_commit s stored = do s.project stored; call; pure stored

project_and_commit_lem :
    (s : CommandService) (e stored : StoredEvent) (w w' : World)
    → project_and_commit s e w ≡ (ok stored, w')
    → (stored ≡ e) × (w'.db ≡ (s.project e w).1.db) × (w'.event_seq ≡ (s.project e w).1.event_seq)
project_and_commit_lem s e stored w w' h = ground (arith, call_keeps (s.project e w).1)

pub write_lem :
    (s : CommandService) (p : IsProjector s.project) (req : AppendRequest) (current : ℤ)
    (stored : StoredEvent) (w w' : World)
    → write s req current w ≡ (ok stored, w')
    → Written s req current stored w w'
unfolding write
write_lem s p req current stored w w' h =
    let a = to_append s.aggregate_type req (add64 current (pos 1)) in
    let (e, v, inserted, rest) = >>=-eq-ok (EventStore.append a) (project_and_commit s) h in
    let ins = inserted_lem a e w v inserted in
    let (same, db, seq) = project_and_commit_lem s e stored v w' rest in
    record {
      stored_lem = same ∙ ins.stored_lem;
      unique = ins.unique;
      events = cc (db, same, ins.db, p.events e v);
      outbox = cc (db, same, ins.db, p.outbox e v);
      snapshots = cc (db, ins.db, p.snapshots e v);
      event_seq = cc (seq, ins.event_seq, p.event_seq e v);
      in_range = ins.in_range;
    }

-- The version that `append` reads and the guards that it checks, before it writes.
pub record Checked (s : CommandService) (req : AppendRequest) (w : World) (current : ℤ)
    : Type 0 where
  pub latest : current ≡ max_version (filter (of_aggregate s.aggregate_type req.id) w.db.events)
  pub expected : mismatch req.expected_version current ≡ false
  pub creates : (req.is_create && ltb_ℤ (pos 0) current) ≡ false
  pub exists : (not req.is_create && eqb_ℤ current (pos 0)) ≡ false

latest_version_lem :
    (t id : String) (current : ℤ) (w w' : World)
    → latest_version t id w ≡ (ok current, w')
    → (current ≡ max_version (filter (of_aggregate t id) w.db.events))
      × (w'.db ≡ w.db)
      × (w'.event_seq ≡ w.event_seq)
      × (w'.now ≡ w.now)
      × (w'.outbox_seq ≡ w.outbox_seq)
unfolding latest_version
latest_version_lem t id current w w' h = ground (arith, call_keeps w)

check_lem :
    (req : AppendRequest) (current : ℤ) (w w' : World)
    → check req current w ≡ (ok tt, w')
    → (w' ≡ w)
      × (mismatch req.expected_version current ≡ false)
      × ((req.is_create && ltb_ℤ (pos 0) current) ≡ false)
      × ((not req.is_create && eqb_ℤ current (pos 0)) ≡ false)
unfolding check
check_lem req current w w' h = ground arith

-- The same tables, sequences and clock.
pub record Same (w v : World) : Type 0 where
  pub db : v.db ≡ w.db
  pub event_seq : v.event_seq ≡ w.event_seq
  pub now : v.now ≡ w.now
  pub outbox_seq : v.outbox_seq ≡ w.outbox_seq

-- A read that returns changes no table.
pub read_lem :
    (s : CommandService) (req : AppendRequest) (current : ℤ) (w w' : World)
    → read s req w ≡ (ok current, w')
    → Checked s req w current × Same w w'
unfolding read
read_lem s req current w w' h =
    let (c, v, latest, rest) =
      >>=-eq-ok (latest_version s.aggregate_type req.id) (λ c. check req c >> pure c) h in
    let (u, x, checked, last) = >>=-eq-ok (check req c) (λ _. pure c) rest in
    let facts = latest_version_lem s.aggregate_type req.id c w v latest in
    let guards = check_lem req c v x checked in
    let same : c ≡ current = cc in
    let end : x ≡ w' = cc in
    (
      record {
        latest = cc (same, facts.0);
        expected = ap (mismatch req.expected_version) (sym same) ∙ guards.1;
        creates = ap (λ c. req.is_create && ltb_ℤ (pos 0) c) (sym same) ∙ guards.2;
        exists = ap (λ c. not req.is_create && eqb_ℤ c (pos 0)) (sym same) ∙ guards.3;
      },
      record {
        db = cc (end, guards.0, facts.1);
        event_seq = cc (end, guards.0, facts.2);
        now = cc (end, guards.0, facts.3);
        outbox_seq = cc (end, guards.0, facts.4);
      },
    )

Checked-Same :
    {s : CommandService} {req : AppendRequest} {w v : World} {current : ℤ}
    → Same w v
    → Checked s req v current
    → Checked s req w current
Checked-Same same c = record {
  latest = cc (same.db, c.latest);
  expected = c.expected;
  creates = c.creates;
  exists = c.exists;
}

Written-Same :
    {s : CommandService} {req : AppendRequest} {stored : StoredEvent} {w v w' : World} {current : ℤ}
    → Same w v
    → Written s req current stored v w'
    → Written s req current stored w w'
Written-Same same wr = record {
  stored_lem = cc (wr.stored_lem, same.event_seq, same.now);
  unique = cc (wr.unique, same.db);
  events = cc (wr.events, same.db);
  outbox = cc (wr.outbox, same.db, same.outbox_seq);
  snapshots = cc (wr.snapshots, same.db);
  event_seq = cc (wr.event_seq, same.event_seq);
  in_range = rw same.event_seq at wr.in_range;
}

pub call_lem : (w w' : World) → call w ≡ (ok tt, w') → Same w w'
call_lem w w' h =
    let k = call_keeps w in
    record {
      db = cc (k.0, h);
      event_seq = cc (k.1, h);
      now = cc (k.3, h);
      outbox_seq = cc (k.2, h);
    }

-- If a command returns, and its projector writes only its own table, then the version it read is
-- the greatest of its aggregate's events, it is the expected one, the aggregate is new for a create
-- and not new otherwise, and the command has appended one event, with the next version and a
-- version that no event of the aggregate had, and one outbox row of that event.
pub append-committed :
    (s : CommandService) (p : IsProjector s.project) (req : AppendRequest) (stored : StoredEvent)
    (w w' : World)
    → append s req w ≡ (ok stored, w')
    → (current : ℤ) × Checked s req w current × Written s req current stored w w'
unfolding append
append-committed s p req stored w w' h =
    let (u, w1, called, body) = >>=-eq-ok call (λ _. transaction (read s req >>= write s req)) h in
    let begun = call_lem w w1 called in
    let (current, w2, got, wrote) =
      >>=-eq-ok (read s req) (write s req) (transaction_ok (read s req >>= write s req) body) in
    let (checked, same) = read_lem s req current w1 w2 got in
    let written = write_lem s p req current stored w2 w' wrote in
    (current, Checked-Same begun checked, Written-Same begun (Written-Same same written))
