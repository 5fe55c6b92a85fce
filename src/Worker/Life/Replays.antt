-- ===== src/Worker/Life/Replays.antt =====
-- What the replays of users and products return, in every state that is reached.
use mathlib.Core.Bool.{false≢true}
use api_time_machine.Prelude.{
  ℕ, String, Bool, true, false, ◌≡◌, refl, sym, ap, ◌∙◌, inl, inr, Option, some, none, [],
  Bool-cases, str_eq, eq_iff, if◌then◌else◌,
}
use api_time_machine.Prelude.Int.{pos}
use api_time_machine.Domain.{aggregate_user, aggregate_product, aggregate_order}
use api_time_machine.Aggregate.{Aggregate}
use api_time_machine.Aggregate.Order.{order_aggregate}
use api_time_machine.Aggregate.User.{user_aggregate}
use api_time_machine.Aggregate.User
use api_time_machine.Aggregate.Product
use api_time_machine.Aggregate.Product.{product_aggregate}
use api_time_machine.Replay.{replay, replay_user, replay_product}
use api_time_machine.Replay.Correct.{up_to}
use api_time_machine.Replay.History.{after}
use api_time_machine.World.{World, quiet}
use api_time_machine.Commands.Interleaving.{idle}
use api_time_machine.Worker.Builder.{everything}
use api_time_machine.Worker.Builder.Lawful.{user_aggregate-IsLawful, product_aggregate-IsLawful}
use api_time_machine.Worker.Life.{Save, or_nothing, take, Running, Life}
use api_time_machine.Worker.Life.Steps.{or_nothing-some}
use api_time_machine.Worker.Life.Invariant.{Owns, Life-replay}

-- A snapshot is saved under the type that it was taken for.
same_type :
    {A : Type 0} (agg : Aggregate A) (t id : String) (s : Save) (w w' : World)
    → or_nothing agg t id (replay agg t id everything w) ≡ (some s, w')
    → s.aggregate_type ≡ t
same_type agg t id s w w' h =
    let (a, _, same) = or_nothing-some agg t id (replay agg t id everything w) s w' h in
    ap (λ (s : Save). s.aggregate_type) same

chosen :
    (b : Bool) (t : String) (s : Save) (w' : World) (p q : Option Save × World)
    → (p ≡ (some s, w') → s.aggregate_type ≡ t)
    → (q ≡ (some s, w') → s.aggregate_type ≡ t)
    → (if b then p else q) ≡ (some s, w')
    → s.aggregate_type ≡ t
chosen true t s w' p q f g h = f h
chosen false t s w' p q f g h = g h

take-type :
    (t id : String) (s : Save) (w w' : World) → take t id w ≡ (some s, w') → s.aggregate_type ≡ t
unfolding take
take-type t id s w w' =
    chosen (str_eq t aggregate_user) t s w' _ _ (same_type user_aggregate t id s w w') (
      chosen (str_eq t aggregate_product) t s w' _ _ (same_type product_aggregate t id s w w') (
        chosen (str_eq t aggregate_order) t s w' _ (none, w) (same_type order_aggregate t id s w w')
          (λ h. cc)))

-- Where the type is not the chosen one, the snapshot is not of that type.
other_type :
    {B : Type 0} (own t : String) (s : Save)
    → str_eq t own ≡ false
    → s.aggregate_type ≡ t
    → str_eq s.aggregate_type own ≡ true
    → B
other_type own t s other same mine =
    absurd (false≢true (sym other ∙ ap (λ t. str_eq t own) (sym same) ∙ mine))

take_user :
    (id : String) (w : World)
    → take aggregate_user id w
      ≡ or_nothing user_aggregate aggregate_user id
          (replay user_aggregate aggregate_user id everything w)
unfolding take
take_user id w = refl

take_product :
    (id : String) (w : World)
    → take aggregate_product id w
      ≡ or_nothing product_aggregate aggregate_product id
          (replay product_aggregate aggregate_product id everything w)
unfolding take
take_product id w = refl

user-Owns : Owns user_aggregate aggregate_user
user-Owns t id s w w' h mine = elim (Bool-cases (str_eq t aggregate_user)) [
  | inl user ↦
      or_nothing-some user_aggregate aggregate_user id
        (replay user_aggregate aggregate_user id everything w) s w'
        (sym (take_user id w) ∙ ap (λ t. take t id w) (sym ((eq_iff t aggregate_user).0 user)) ∙ h)
  | inr other ↦ other_type aggregate_user t s other (take-type t id s w w' h) mine
]

product-Owns : Owns product_aggregate aggregate_product
product-Owns t id s w w' h mine = elim (Bool-cases (str_eq t aggregate_product)) [
  | inl product ↦
      or_nothing-some product_aggregate aggregate_product id
        (replay product_aggregate aggregate_product id everything w) s w'
        (sym (take_product id w)
          ∙ ap (λ t. take t id w) (sym ((eq_iff t aggregate_product).0 product))
          ∙ h)
  | inr other ↦ other_type aggregate_product t s other (take-type t id s w w' h) mine
]

user_zero : (id : String) → user_aggregate.current_version (user_aggregate.fresh id) ≡ pos 0
unfolding user_aggregate User.fresh
user_zero id = refl

product_zero :
    (id : String) → product_aggregate.current_version (product_aggregate.fresh id) ≡ pos 0
unfolding product_aggregate Product.fresh
product_zero id = refl

-- In every state that is reached from empty tables by commands that interleave in any order and
-- fail at any call, by snapshots that the builder takes of any aggregate at any moment, replay and
-- save being steps of their own, and by changes of the clock and of the faults, a replay of a user
-- or a product up to a version, where no call of the driver fails any more, gives what applying
-- that many of its first events to a new one gives, or not found where the version is 0 then. The
-- projectors write only their own tables, and the user service takes no snapshots of its own.
pub replays-Life :
    (w : World) {r : Running}
    → Life (record { system = idle w; saves = [] }) r
    → (id : String) (n : ℕ)
    → ((replay_user id (up_to (pos n)) (quiet r.system.world)).0
        ≡ after user_aggregate aggregate_user id n r.system.world.db.events)
      × ((replay_product id (up_to (pos n)) (quiet r.system.world)).0
          ≡ after product_aggregate aggregate_product id n r.system.world.db.events)
unfolding replay_user replay_product
replays-Life w life id n = (
  Life-replay user_aggregate user_aggregate-IsLawful aggregate_user user_zero user-Owns w life id n,
  Life-replay product_aggregate product_aggregate-IsLawful aggregate_product product_zero
      product-Owns w life id n,
)
