-- ===== src/Examples/Lives.antt =====
-- A command, and a snapshot of what it made.
use api_time_machine.Prelude.{◌≡◌, refl, some, false, [], ◌∷◌}
use api_time_machine.Prelude.Int.{pos, add64}
use api_time_machine.Domain.{aggregate_user, aggregate_product}
use api_time_machine.Aggregate.Product
use api_time_machine.Aggregate.Product.{product_aggregate}
use api_time_machine.Aggregate.User.{user_aggregate}
use api_time_machine.EventStore
use api_time_machine.EventStore.{
  stored_event, latest_version, max_version, load_events_until, rows_until, of_aggregate, within,
}
use api_time_machine.Prelude.Sort.{order_by}
use api_time_machine.SnapshotStore.{latest, greatest}
use api_time_machine.Projection.{apply_product, store_product}
use api_time_machine.Projection.Laws.{apply_product-IsProjector}
use api_time_machine.World.{World, call, transaction, next_event_id, next_outbox_id, ◌>>◌, quiet}
use api_time_machine.Service.Product.{commands}
use api_time_machine.Commands.{read, write, check, to_append}
use api_time_machine.Commands.Interleaving.{System, start as begin, finish, idle}
use api_time_machine.Replay.{replay, start, apply_events, replay_user, replay_product}
use api_time_machine.Replay.Correct.{up_to}
use api_time_machine.Replay.History.{after}
use api_time_machine.Worker.Life.{
  Save, save_of, take, put, Life, born, lived, command, taken, saved,
}
use api_time_machine.Worker.Life.Replays.{replays-Life}
use api_time_machine.Examples.{empty_world}
use api_time_machine.Examples.Writes.{create_pen, pending}

abbrev pen_read : World
pen_read = ((call >> read commands create_pen) empty_world).1

abbrev pen_written : World
pen_written = (transaction (write commands create_pen (pos 0)) pen_read).1

abbrev pen : Product.Product
pen = record {
  id = "p1";
  name = "Pen";
  description = "";
  price_cents = pos 120;
  currency = "EUR";
  deleted = false;
  version = pos 1;
  created_at = 10;
  updated_at = 10;
}

abbrev pen_save : Save
pen_save = save_of product_aggregate aggregate_product "p1" pen

abbrev at_rest : World → System
at_rest w = record { world = w; pending = [] }

taken_pen : take "product" "p1" pen_written ≡ (some pen_save, pen_written)
unfolding take replay start apply_events load_events_until latest greatest rows_until order_by
    of_aggregate within read check latest_version max_version call transaction write
    EventStore.append next_event_id next_outbox_id stored_event to_append apply_product
    store_product product_aggregate Product.apply Product.kind Product.touch Product.apply_case
    Product.set_created Product.fresh Product.encode_created Product.decode_created add64
taken_pen = refl

-- The builder replays the product, and saves the snapshot afterwards.
life :
    Life
      (record { system = idle empty_world; saves = [] })
      (record { system = at_rest (put pen_save pen_written); saves = [] })
unfolding read check latest_version max_version call take replay start latest load_events_until
life =
    lived
      (lived
        (lived
          (lived born (
            command _ _ (
              begin commands create_pen (idle empty_world) (pos 0) pen_read
                apply_product-IsProjector refl)))
          (command _ _
            (finish (record { world = pen_read; pending = pending ∷ [] }) [] [] pending refl)))
        (taken (record { system = at_rest pen_written; saves = [] }) "product" "p1" pen_save
          pen_written taken_pen))
      (saved (record { system = at_rest pen_written; saves = pen_save ∷ [] }) [] [] pen_save refl)

replays-Life_example :
    let events = (put pen_save pen_written).db.events in
    ((replay_user "p1" (up_to (pos 1)) (quiet (put pen_save pen_written))).0
      ≡ after user_aggregate aggregate_user "p1" 1 events)
    × ((replay_product "p1" (up_to (pos 1)) (quiet (put pen_save pen_written))).0
        ≡ after product_aggregate aggregate_product "p1" 1 events)
replays-Life_example = replays-Life empty_world life "p1" 1
