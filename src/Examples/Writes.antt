-- ===== src/Examples/Writes.antt =====
-- Commands that are refused, that commit, and that run side by side; the publisher's pass.
use api_time_machine.Prelude.{arith, ◌≡◌, refl, true, false, none, some, [], ◌∷◌}
use api_time_machine.Prelude.Int.{ℤ, pos, add64}
use api_time_machine.Aggregate.Product.{
  event_created, event_updated, encode_created, encode_updated,
}
use api_time_machine.Aggregate.Product
use api_time_machine.Aggregate.Product.{fresh, kind, touch, apply_case, set_created, decode_created}
use api_time_machine.Projection.{apply_product, store_product}
use api_time_machine.EventStore
use api_time_machine.EventStore.{latest_version, max_version, stored_event}
use api_time_machine.EventStore.Log.{IsLog}
use api_time_machine.World.{World, call, ◌>>◌}
use api_time_machine.Service.Product.{commands}
use api_time_machine.Commands.{AppendRequest, append, read, write, check, to_append}
use api_time_machine.Commands.Laws.{Checked, Written, append_atomic, append-committed}
use api_time_machine.Commands.History.{Grown, Reach-Grown}
use api_time_machine.World.{empty_db}
use api_time_machine.Commands.Accepted.{stores, append_accepted}
use api_time_machine.Result.{ok}
use api_time_machine.Commands.Refusals.{verdict, append_refused}
use api_time_machine.World.{quiet}
use api_time_machine.Commands.Commit.{Pending}
use api_time_machine.Commands.Interleaving.{
  Reach, here, next, start, finish, idle, idle-Inv, Reach-IsLog,
}
use api_time_machine.Projection.Laws.{apply_product-IsProjector}
use api_time_machine.Result.{err, version_mismatch}
use api_time_machine.World.{transaction, next_event_id, next_outbox_id}
use api_time_machine.Domain.{StoredEvent}
use api_time_machine.Examples.{by_ann, empty_world}

abbrev pub create_pen : AppendRequest
create_pen = record {
  id = "p1";
  expected_version = none;
  event_type = event_created;
  payload =
      encode_created
        (record { name = "Pen"; description = ""; price_cents = pos 120; currency = "EUR" });
  metadata = by_ann;
  is_create = true;
}

abbrev update_pen : AppendRequest
update_pen = record create_pen {
  expected_version = some (pos 3);
  event_type = event_updated;
  is_create = false;
}

abbrev pub registered_pen : StoredEvent
registered_pen = stored_event (pos 1) 10 (to_append "product" create_pen (pos 1))

abbrev pub with_pen : World
with_pen = (append commands create_pen empty_world).1

append_atomic_example : (append commands update_pen empty_world).1.db ≡ empty_world.db
unfolding append read check latest_version max_version call transaction
append_atomic_example = append_atomic commands update_pen empty_world version_mismatch refl

append-committed_example :
    (current : ℤ) × Checked commands create_pen empty_world current
    × Written commands create_pen current registered_pen empty_world with_pen
unfolding append read check latest_version max_version call transaction write EventStore.append
    next_event_id next_outbox_id stored_event to_append apply_product store_product Product.apply
    kind touch apply_case set_created fresh encode_created decode_created add64
append-committed_example =
    append-committed commands apply_product-IsProjector create_pen registered_pen empty_world
      with_pen refl

-- Two commands that create the same product, both of which read before either writes.
abbrev pub pending : Pending
pending = record { service = commands; request = create_pen; current = pos 0 }

abbrev read_once : World
read_once = ((call >> read commands create_pen) empty_world).1

abbrev read_twice : World
read_twice = ((call >> read commands create_pen) read_once).1

abbrev written : World
written = (transaction (write commands create_pen (pos 0)) read_twice).1

abbrev refused : World
refused = (transaction (write commands create_pen (pos 0)) written).1

race : Reach (idle empty_world) (record { world = refused; pending = [] })
unfolding read check latest_version max_version call
race =
    next
      (next
        (next
          (next here (
            start commands create_pen (idle empty_world) (pos 0) read_once apply_product-IsProjector
              refl))
          (start commands create_pen (record { world = read_once; pending = pending ∷ [] }) (pos 0)
            read_twice apply_product-IsProjector refl))
        (finish (record { world = read_twice; pending = pending ∷ pending ∷ [] }) [] (pending ∷ [])
          pending refl))
      (finish (record { world = written; pending = pending ∷ [] }) [] [] pending refl)

Reach-IsLog_example : IsLog refused.db.events
Reach-IsLog_example = Reach-IsLog empty_world race

Reach-Grown_example : Grown empty_db refused.db
Reach-Grown_example = Reach-Grown (idle-Inv empty_world) race

append_refused_example :
    append commands update_pen (quiet empty_world) ≡ (err version_mismatch, quiet empty_world)
unfolding max_version verdict
append_refused_example = append_refused commands update_pen empty_world version_mismatch refl

append_accepted_example :
    append commands create_pen (quiet empty_world)
    ≡ (ok (stores commands create_pen empty_world), quiet with_pen)
unfolding append read check latest_version max_version call transaction write EventStore.append
    next_event_id verdict next_outbox_id stored_event to_append apply_product store_product
    Product.apply kind touch apply_case set_created fresh encode_created decode_created add64
append_accepted_example =
    append_accepted commands create_pen empty_world (λ t id. tt) (omega arith) (omega arith)
      (omega arith) with_pen refl refl
