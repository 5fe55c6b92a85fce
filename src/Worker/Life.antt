-- ===== src/Worker/Life.antt =====
-- `SnapshotBuilder` of internal/worker/outbox.go beside the commands. Between the replay and the
-- save of one aggregate others may write: the two are steps of their own, and which aggregates the
-- builder selects, and when, is left open.
pub mod Steps
pub mod Sound
pub mod Invariant
pub mod Replays
use api_time_machine.Prelude.{
  String, Option, none, some, List, ◌∷◌, ◌++◌, ◌≡◌, str_eq, if◌then◌else◌,
}
use api_time_machine.Prelude.Int.{ℤ}
use api_time_machine.Json.{Json}
use api_time_machine.Domain.{aggregate_user, aggregate_product, aggregate_order}
use api_time_machine.Aggregate.{Aggregate}
use api_time_machine.Aggregate.User.{user_aggregate}
use api_time_machine.Aggregate.Product.{product_aggregate}
use api_time_machine.Aggregate.Order.{order_aggregate}
use api_time_machine.SnapshotStore
use api_time_machine.Replay.{replay}
use api_time_machine.World.{World}
use api_time_machine.Result.{Result, ok, err}
use api_time_machine.Commands.Interleaving.{System, Step}
use api_time_machine.Worker.Builder.{everything}

-- The snapshot that `snapshotOne` is about to save.
pub record Save : Type 0 where
  pub aggregate_type : String
  pub id : String
  pub version : ℤ
  pub state : Json

module _ {A : Type 0} (agg : Aggregate A) (aggregate_type id : String) where
  abbrev pub save_of : A → Save
  save_of a = record {
    aggregate_type = aggregate_type;
    id = id;
    version = agg.current_version a;
    state = agg.marshal_snapshot a;
  }

  abbrev pub or_nothing : Result A × World → Option Save × World
  or_nothing (ok a, w) = (some (save_of a), w)
  or_nothing (err e, w) = (none, w)

-- The switch of `snapshotOne`: an error of the replay ends it.
unfoldable pub take : String → String → World → Option Save × World
take aggregate_type id w =
    if str_eq aggregate_type aggregate_user
    then or_nothing user_aggregate aggregate_type id
        (replay user_aggregate aggregate_type id everything w)
    else if str_eq aggregate_type aggregate_product
    then or_nothing product_aggregate aggregate_type id
        (replay product_aggregate aggregate_type id everything w)
    else if str_eq aggregate_type aggregate_order
    then or_nothing order_aggregate aggregate_type id
        (replay order_aggregate aggregate_type id everything w)
    else (none, w)

-- The rest of `snapshotOne`.
unfoldable pub put : Save → World → World
put s w = (SnapshotStore.save s.aggregate_type s.id s.version s.state w).1

pub record Running : Type 0 where
  pub system : System
  pub saves : List Save

pub data Moment : Running → Running → Type 0 where
  command : (r : Running) (u : System) → Step r.system u → Moment r (record r { system = u })
  taken :
      (r : Running) (aggregate_type id : String) (s : Save) (w : World)
      → take aggregate_type id r.system.world ≡ (some s, w)
      → Moment r (record { system = record r.system { world = w }; saves = s ∷ r.saves })
  -- a replay that ends with an error, or a builder that ends there
  given_up :
      (r : Running) (aggregate_type id : String)
      → Moment r (record r {
        system = record r.system { world = (take aggregate_type id r.system.world).1 };
      })
  saved :
      (r : Running) (before after : List Save) (s : Save)
      → r.saves ≡ before ++ s ∷ after
      → Moment r (record {
        system = record r.system { world = put s r.system.world };
        saves = before ++ after;
      })

pub data Life (r : Running) : Running → Type 0 where
  born : Life r r
  lived : {t u : Running} → Life r t → Moment t u → Life r u
