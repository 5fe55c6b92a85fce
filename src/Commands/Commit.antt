-- ===== src/Commands/Commit.antt =====
-- The write of a command whose version was read before: it takes the next version of the log, or
-- nothing.
use api_time_machine.Prelude.{
  ℕ, suc, ◌≤◌, ◌≡◌, sym, ap, subst, ◌∙◌, inl, inr, arith, List, [], ◌∷◌, ◌++◌, length,
  length-append, length-filter, filter, filter-append,
}
use api_time_machine.Prelude.Int.{ℤ, pos, add64, add64-one}
use api_time_machine.Domain.{StoredEvent, AppendEvent}
use api_time_machine.EventStore
use api_time_machine.EventStore.{of_aggregate, max_version, stored_event}
use api_time_machine.EventStore.Log.{log, IsLog, IsLog-append, next_version}
use api_time_machine.World.{World, transaction, call_keeps}
use api_time_machine.Commands.{AppendRequest, CommandService, to_append, write}
use api_time_machine.Commands.Laws.{IsProjector, Written}
use api_time_machine.Result.{Result-cases}

-- A command between its read and its write.
pub record Pending : Type 0 where
  pub service : CommandService
  pub request : AppendRequest
  pub current : ℤ

-- The version that a pending command has read is one that its aggregate has had.
pub record IsRead (events : List StoredEvent) (p : Pending) : Type 0 where
  pub projector : IsProjector p.service.project
  pub version : ℕ
  pub current_lem : p.current ≡ pos version
  pub within : version ≤ length (log p.service.aggregate_type p.request.id events)

pub IsRead-append :
    (events : List StoredEvent) (e : StoredEvent) (p : Pending)
    → IsRead events p
    → IsRead (events ++ e ∷ []) p
IsRead-append events e p r = record {
  projector = r.projector;
  version = r.version;
  current_lem = r.current_lem;
  within =
      let mine = of_aggregate p.service.aggregate_type p.request.id in
      omega (
        arith,
        r.within,
        ap length (filter-append mine events (e ∷ [])),
        length-append (filter mine events) (filter mine (e ∷ [])),
      );
}

-- A write that commits, with a version that may be out of date, takes the next version.
module _ (p : Pending) (stored : StoredEvent) (w w' : World) (r : IsRead w.db.events p)
    (wr : Written p.service p.request p.current stored w w') (lg : IsLog w.db.events)
    (ct : length w.db.events ≤ w.event_seq) where
  abbrev mine : List StoredEvent
  mine = log p.service.aggregate_type p.request.id w.db.events

  next_lem : add64 p.current (pos 1) ≡ pos (suc r.version)
  next_lem =
      ap (λ c. add64 c (pos 1)) r.current_lem
      ∙ add64-one r.version (
          omega (
            arith,
            r.within,
            wr.in_range,
            length-filter (of_aggregate p.service.aggregate_type p.request.id) w.db.events,
          ))

  version_lem : r.version ≡ length mine
  unfolding to_append
  version_lem =
      next_version (to_append p.service.aggregate_type p.request (add64 p.current (pos 1)))
        w.db.events r.version lg next_lem r.within wr.unique

  pub stored_version :
      stored.version
      ≡ pos (suc (length (log stored.aggregate_type stored.aggregate_id w.db.events)))
  unfolding to_append stored_event
  stored_version = rw wr.stored_lem (next_lem ∙ ap (λ (n : ℕ). pos (suc n)) version_lem)

  pub commit-IsLog : IsLog w'.db.events
  commit-IsLog = subst IsLog (sym wr.events) (IsLog-append w.db.events stored lg stored_version)

  pub commit-counted : length w'.db.events ≤ w'.event_seq
  commit-counted =
      omega (arith, ct, ap length wr.events, length-append w.db.events (stored ∷ []), wr.event_seq)

insert_seq : (a : AppendEvent) (w : World) → w.event_seq ≤ (EventStore.append a w).1.event_seq
unfolding EventStore.append
insert_seq a w = ground arith

-- A write that fails has at most used up an event id.
pub write_seq :
    (s : CommandService) (req : AppendRequest) (current : ℤ) (w : World)
    → IsProjector s.project
    → w.event_seq ≤ (transaction (write s req current) w).1.event_seq
unfolding write transaction
write_seq s req current w p =
    let a = to_append s.aggregate_type req (add64 current (pos 1)) in
    let v = (EventStore.append a w).1 in
    elim (Result-cases (EventStore.append a w).0) [
      | inl (e, h) ↦
          ground (arith, h, insert_seq a w, p.event_seq e v, call_keeps (s.project e v).1)
      | inr (x, h) ↦ ground (arith, h, insert_seq a w)
    ]
