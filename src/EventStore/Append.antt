-- ===== src/EventStore/Append.antt =====
-- What a successful `Store.Append` has done.
use api_time_machine.Prelude.{suc, ◌<◌, ◌^◌, ◌≡◌, arith, false, [], ◌∷◌, ◌++◌, any}
use api_time_machine.Prelude.Int.{pos}
use api_time_machine.Domain.{StoredEvent, AppendEvent}
use api_time_machine.EventStore.{same_version, stored_event, outbox_row, append}
use api_time_machine.World.{World, call, next_event_id, next_outbox_id}
use api_time_machine.Result.{ok}

-- The insert of one event and of its outbox row, and nothing else.
pub record Appended (a : AppendEvent) (stored : StoredEvent) (w w' : World) : Type 0 where
  pub stored_lem : stored ≡ stored_event (pos (suc w.event_seq)) w.now a
  pub unique : any (same_version a) w.db.events ≡ false
  pub db : w'.db ≡ record w.db {
    events = w.db.events ++ stored ∷ [];
    outbox = w.db.outbox ++ outbox_row (pos (suc w.outbox_seq)) stored ∷ [];
  }
  pub event_seq : w'.event_seq ≡ suc w.event_seq
  pub in_range : suc w.event_seq < 2 ^ 63
  pub now : w'.now ≡ w.now

pub append_lem :
    (a : AppendEvent) (stored : StoredEvent) (w w' : World)
    → append a w ≡ (ok stored, w')
    → Appended a stored w w'
unfolding append call next_event_id next_outbox_id
append_lem a stored w w' h = ground arith
