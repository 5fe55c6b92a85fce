-- ===== src/Worker/Loops.antt =====
-- The `Run` methods of internal/worker: a select over the ticker and the end of the context. A turn
-- is what the select picks, or what others do to the tables in the meantime.
use api_time_machine.Prelude.{Bool, true, false, List, [], ◌∷◌}
use api_time_machine.Json.{Json}
use api_time_machine.World.{World}
use api_time_machine.Worker.Outbox.{publish_batch}
use api_time_machine.Worker.Builder.{build_snapshots, types}
use api_time_machine.Worker.Warmer.{warm}

pub data Turn : Type 0 where
  tick : Turn
  cancelled : Turn
  others : (World → World) → Turn

-- `SnapshotBuilder.Run`
unfoldable pub run_builder : List Turn → World → World
unfolding build_snapshots
run_builder [] w = w
run_builder (tick ∷ turns) w = run_builder turns (build_snapshots types w)
run_builder (cancelled ∷ turns) w = w
run_builder (others change ∷ turns) w = run_builder turns (change w)

unfoldable pub warmer_loop : List Turn → World → World
unfolding warm
warmer_loop [] w = w
warmer_loop (tick ∷ turns) w = warmer_loop turns (warm w)
warmer_loop (cancelled ∷ turns) w = w
warmer_loop (others change ∷ turns) w = warmer_loop turns (change w)

-- `CacheWarmer.Run`
unfoldable pub run_warmer : Bool → List Turn → World → World
unfolding warmer_loop
run_warmer false turns w = w
run_warmer true turns w = warmer_loop turns w

module _ {B : Type 0} (publish : Json → B → Bool × B) where
  -- `OutboxPublisher.Run`
  unfoldable pub run_publisher : Bool → List Turn → World → B → World × B
  unfolding publish_batch
  run_publisher connected [] w b = (w, b)
  run_publisher connected (tick ∷ turns) w b =
      let end = publish_batch publish connected w b in
      run_publisher connected turns end.world end.broker
  run_publisher connected (cancelled ∷ turns) w b = (w, b)
  run_publisher connected (others change ∷ turns) w b = run_publisher connected turns (change w) b
