-- ===== src/Worker/Warmer.antt =====
-- internal/worker/cache_warmer.go: one pass of the cache warmer. It replays users with the engine itself, and
-- neither reads nor writes the cache. A row's columns always scan.
use api_time_machine.Prelude.{
  String, Bool, true, false, not, ◌&&◌, ◌≡◌, refl, ◌∙◌, List, [], ◌∷◌, map, take, filter, str_eq,
  if◌then◌else◌,
}
use text.Mathlib.Text.{is_le}
use Prim.Native.String
use api_time_machine.Prelude.Sort.{order_by}
use api_time_machine.Domain.{StoredEvent, aggregate_user}
use api_time_machine.Query.{no_bounds}
use api_time_machine.Replay.{replay_user}
use api_time_machine.World.{World, call, call_keeps}
use api_time_machine.World.Unchanged.{replay_user-Keeps}
use api_time_machine.Result.{Result, ok, err}

abbrev Pair : Type 0
Pair = String × String

abbrev pair_of : StoredEvent → Pair
pair_of e = (e.aggregate_type, e.aggregate_id)

abbrev other_than : Pair → Pair → Bool
other_than a b = not (str_eq b.0 a.0 && str_eq b.1 a.1)

-- SELECT DISTINCT
unfoldable distinct : List Pair → List Pair
distinct [] = []
distinct (p ∷ ps) = p ∷ filter (other_than p) (distinct ps)

abbrev id_le : Pair → Pair → Bool
id_le a b = is_le (String.compare a.1 b.1)

-- SELECT DISTINCT aggregate_type, aggregate_id … ORDER BY aggregate_id LIMIT 50
unfoldable pub aggregates : List StoredEvent → List Pair
unfolding distinct order_by
aggregates events = take 50 (order_by id_le (distinct (map pair_of events)))

-- The body of the loop: the result of the replay is dropped.
abbrev warm_one : Pair → World → World
warm_one (aggregate_type, id) w =
    if str_eq aggregate_type aggregate_user then (replay_user id no_bounds w).1 else w

unfoldable warm_rows : List Pair → World → World
warm_rows [] w = w
warm_rows (p ∷ ps) w = warm_rows ps (warm_one p w)

abbrev warm_found : Result (Unit {0}) → World → World
warm_found (err e) w = w
warm_found (ok _) w = warm_rows (aggregates w.db.events) w

-- `CacheWarmer.warm`
unfoldable pub warm : World → World
unfolding warm_rows aggregates call
warm w = let (r, w') = call w in warm_found r w'

if-db : (b : Bool) (v w : World) → v.db ≡ w.db → (if b then v else w).db ≡ w.db
if-db true v w e = e
if-db false v w e = refl

warm_rows-db : (ps : List Pair) (w : World) → (warm_rows ps w).db ≡ w.db
unfolding warm_rows
warm_rows-db [] w = refl
warm_rows-db ((t, id) ∷ ps) w =
    warm_rows-db ps (warm_one (t, id) w)
    ∙ if-db (str_eq t aggregate_user) (replay_user id no_bounds w).1 w
        (replay_user-Keeps id no_bounds w)

warm_found-db : (r : Result (Unit {0})) (w : World) → (warm_found r w).db ≡ w.db
warm_found-db (err e) w = refl
warm_found-db (ok _) w = warm_rows-db (aggregates w.db.events) w

-- A pass changes no table.
pub warm-db : (w : World) → (warm w).db ≡ w.db
unfolding warm
warm-db w = warm_found-db (call w).0 (call w).1 ∙ (call_keeps w).0
