-- ===== src/Commands/Accepted.antt =====
-- A command that nothing is wrong with goes through.
use api_time_machine.Prelude.{
  ℕ, suc, ◌^◌, ◌<◌, ◌≤◌, ◌+◌, ◌≡◌, refl, sym, ap, ◌∙◌, arith, Bool, true, false, none, List, [],
  ◌∷◌, ◌++◌, any, length, length-filter, ltb, if◌then◌else◌,
}
use api_time_machine.Prelude.Int.{ℤ, pos, add64, add64-one, eqb_ℤ}
use api_time_machine.Domain.{StoredEvent, AppendEvent}
use api_time_machine.EventStore
use api_time_machine.EventStore.{
  of_aggregate, max_version, same_version, stored_event, outbox_row, latest_version,
}
use api_time_machine.EventStore.Log.{log, IsLog, IsContiguous, max_version-log, any-filter}
use api_time_machine.World.{
  World, M, ◌>>=◌, ◌>>◌, gets, modify_db, guard_not, pure, quiet, call, transaction, next_event_id,
  next_outbox_id,
}
use api_time_machine.Commands.{AppendRequest, CommandService, to_append, check, read, write, append}
use api_time_machine.Commands.Refusals.{verdict}
use api_time_machine.Result.{Result, ok, err, conflict, db_failed}

-- The next version of a log is free.
not_taken :
    (k n : ℕ) (es : List StoredEvent)
    → IsContiguous n es
    → n + length es ≤ k
    → any (λ e. eqb_ℤ e.version (pos (suc k))) es ≡ false
not_taken k n [] h le = refl
not_taken k n (e ∷ es) h le = ground (arith, h.0, not_taken k (suc n) es h.1)

-- The event that a command stores, and the world after its two inserts.
abbrev pub stores : CommandService → AppendRequest → World → StoredEvent
stores s req w =
    stored_event (pos (suc w.event_seq)) w.now (
      to_append s.aggregate_type req (pos (suc (length (log s.aggregate_type req.id w.db.events)))))

abbrev pub inserted : StoredEvent → World → World
inserted e w = record w {
  db = record w.db {
    events = w.db.events ++ e ∷ [];
    outbox = w.db.outbox ++ outbox_row (pos (suc w.outbox_seq)) e ∷ [];
  };
  event_seq = suc w.event_seq;
  outbox_seq = suc w.outbox_seq;
}

lt→ltb : (a b : ℕ) → a < b → ltb a b ≡ true
lt→ltb a b h = ground arith

abbrev event_id : Bool → M ℤ
event_id room w =
    if room
    then (ok (pos (suc w.event_seq)), record w { event_seq = suc w.event_seq })
    else (err db_failed, w)

abbrev row_id : Bool → M ℤ
row_id room w =
    if room
    then (ok (pos (suc w.outbox_seq)), record w { outbox_seq = suc w.outbox_seq })
    else (err db_failed, w)

insert_lem :
    (a : AppendEvent) (w : World)
    → suc w.event_seq < 2 ^ 63
    → suc w.outbox_seq < 2 ^ 63
    → any (same_version a) w.db.events ≡ false
    → let e = stored_event (pos (suc w.event_seq)) w.now a in
      EventStore.append a (quiet w) ≡ (ok e, quiet (inserted e w))
unfolding EventStore.append call next_event_id next_outbox_id
insert_lem a w room room' free =
    ap by_room (lt→ltb (suc w.event_seq) (2 ^ 63) room)
    ∙ ap (λ t. by_taken t (quiet (record w { event_seq = suc w.event_seq }))) free
    ∙ ap by_room' (lt→ltb (suc w.outbox_seq) (2 ^ 63) room')
  where
    e : StoredEvent
    e = stored_event (pos (suc w.event_seq)) w.now a

    -- The inserts, by the outcome of each test in turn.
    by_room : Bool → Result StoredEvent × World
    by_room r =
        (do
          call
          id ← event_id r
          taken ← gets (λ w. any (same_version a) w.db.events)
          guard_not taken conflict
          stored ← gets (λ w. stored_event id w.now a)
          modify_db (λ db. record db { events = db.events ++ stored ∷ [] })
          call
          row ← next_outbox_id
          modify_db (λ db. record db { outbox = db.outbox ++ outbox_row row stored ∷ [] })
          pure stored)
          (quiet w)

    by_taken : Bool → M StoredEvent
    by_taken t = do
      guard_not t conflict
      stored ← gets (λ v. stored_event (pos (suc w.event_seq)) v.now a)
      modify_db (λ db. record db { events = db.events ++ stored ∷ [] })
      call
      row ← next_outbox_id
      modify_db (λ db. record db { outbox = db.outbox ++ outbox_row row stored ∷ [] })
      pure stored

    by_room' : Bool → Result StoredEvent × World
    by_room' r =
        (do
          row ← row_id r
          modify_db (λ db. record db { outbox = db.outbox ++ outbox_row row e ∷ [] })
          pure e)
          (quiet (record w {
            db = record w.db { events = w.db.events ++ e ∷ [] };
            event_seq = suc w.event_seq;
          }))

module _ (s : CommandService) (req : AppendRequest) (w : World) (lg : IsLog w.db.events)
    (counted : length w.db.events ≤ w.event_seq) (room : suc w.event_seq < 2 ^ 63) where
  abbrev mine : List StoredEvent
  mine = log s.aggregate_type req.id w.db.events

  latest : max_version mine ≡ pos (length mine)
  latest = max_version-log mine (lg s.aggregate_type req.id)

  next_lem : add64 (max_version mine) (pos 1) ≡ pos (suc (length mine))
  next_lem =
      ap (λ c. add64 c (pos 1)) latest
      ∙ add64-one (length mine) (
          omega (
            arith,
            counted,
            room,
            length-filter (of_aggregate s.aggregate_type req.id) w.db.events,
          ))

  free_lem :
      any (same_version (to_append s.aggregate_type req (pos (suc (length mine))))) w.db.events
      ≡ false
  unfolding same_version to_append
  free_lem =
      sym (any-filter (of_aggregate s.aggregate_type req.id) _ w.db.events)
      ∙ not_taken (length mine) 0 mine (lg s.aggregate_type req.id) (omega arith)

  module _ (room' : suc w.outbox_seq < 2 ^ 63) where
    inserts :
        EventStore.append (to_append s.aggregate_type req (pos (suc (length mine)))) (quiet w)
        ≡ (ok (stores s req w), quiet (inserted (stores s req w) w))
    inserts =
        insert_lem (to_append s.aggregate_type req (pos (suc (length mine)))) w room room' free_lem

    -- If the versions of the aggregates count from 1, as many event ids are used as there are
    -- events or more, both sequences have room for one id more, no call of the driver fails,
    -- nothing is wrong with the command by the verdict on its aggregate's latest version, and the
    -- projector accepts the event, then the command returns: it stores the event of the next
    -- version, and the world is the one that the projector leaves.
    pub append_accepted :
        (v : World)
        → verdict req (max_version mine) ≡ none
        → s.project (stores s req w) (quiet (inserted (stores s req w) w)) ≡ (ok tt, quiet v)
        → append s req (quiet w) ≡ (ok (stores s req w), quiet v)
    unfolding append read check verdict latest_version call transaction write
    append_accepted v fine projected = ground (arith, next_lem, inserts)
