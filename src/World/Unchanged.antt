-- ===== src/World/Unchanged.antt =====
-- Actions that change no table.
use api_time_machine.Prelude.{String, List, ◌≡◌, refl, ◌∙◌, Option, none, some, map, filter, take}
use api_time_machine.Prelude.Sort.{order_by}
use api_time_machine.Prelude.Assoc.{lookup}
use api_time_machine.Aggregate.User.{user_aggregate}
use api_time_machine.Aggregate.Product.{product_aggregate}
use api_time_machine.Aggregate.Order.{as_items, order_aggregate}
use api_time_machine.Domain.{
  StoredEvent, Snapshot, ReplayQuery, aggregate_user, aggregate_product, aggregate_order,
}
use api_time_machine.Prelude.Int.{ℤ, pos, eqb_ℤ}
use api_time_machine.Aggregate.{Aggregate}
use api_time_machine.EventStore
use api_time_machine.EventStore.{SearchFilter}
use api_time_machine.SnapshotStore
use api_time_machine.Projection.{
  current_user, current_product, current_order, found, user_of_row, order_of_row,
}
use api_time_machine.Replay.{replay, replay_user, replay_product, replay_order, start, apply_events}
use api_time_machine.World.{
  World, M, OrderRow, ◌>>=◌, ◌>>◌, pure, guard_not, gets, lift, call, call_keeps,
}
use api_time_machine.Result.{Result, ok, err, not_found}

abbrev pub Keeps {ℓ} : {A : Type ℓ} → M A → Type 0
Keeps m = (w : World) → (m w).1.db ≡ w.db

abbrev after {ℓ κ} : {A : Type ℓ} {B : Type κ} → (A → M B) → Result A → World → Result B × World
after f r w' = elim r [ ok a ↦ f a w' | err e ↦ (err e, w') ]

after-Keeps {ℓ κ} :
    {A : Type ℓ} {B : Type κ} (f : A → M B) (w : World) (r : Result A) (w' : World)
    → w'.db ≡ w.db
    → ((a : A) → Keeps (f a))
    → (after f r w').1.db ≡ w.db
after-Keeps f w (ok a) w' e hf = hf a w' ∙ e
after-Keeps f w (err x) w' e hf = e

pub Keeps-bind {ℓ κ} :
    {A : Type ℓ} {B : Type κ} (m : M A) (f : A → M B)
    → Keeps m
    → ((a : A) → Keeps (f a))
    → Keeps (m >>= f)
Keeps-bind m f hm hf w = after-Keeps f w (m w).0 (m w).1 (hm w) hf

Keeps-read {ℓ} : {A : Type ℓ} (f : World → A) → Keeps (call >> gets f)
Keeps-read f = Keeps-bind call (λ _. gets f) (λ w. (call_keeps w).0) (λ _ w. refl)

pub load_events_until-Keeps :
    (t id : String) (q : ReplayQuery) → Keeps (EventStore.load_events_until t id q)
unfolding EventStore.load_events_until
load_events_until-Keeps t id q = Keeps-read (λ w. EventStore.rows_until t id q w.db.events)

pub history-Keeps : (t id : String) → Keeps (EventStore.history t id)
unfolding EventStore.history
history-Keeps t id =
    load_events_until-Keeps t id (record { at = none; version = none; until_id = none })

pub timeline-Keeps : (t id : String) → Keeps (EventStore.timeline t id)
unfolding EventStore.timeline
timeline-Keeps t id = Keeps-read λ w.
    map EventStore.timeline_entry
      (order_by EventStore.version_le (filter (EventStore.of_aggregate t id) w.db.events))

pub search_events-Keeps : (f : SearchFilter) → Keeps (EventStore.search_events f)
unfolding EventStore.search_events
search_events-Keeps f =
    Keeps-read
      λ w. take 500 (order_by EventStore.newest_first (filter (EventStore.selects f) w.db.events))

latest-Keeps : (t id : String) → Keeps (SnapshotStore.latest t id)
unfolding SnapshotStore.latest
latest-Keeps t id = Keeps-read (λ w. SnapshotStore.latest_of t id w.db.snapshots)

-- The end of a replay.
abbrev or_not_found : {A : Type 0} → Aggregate A → A → M A
or_not_found agg a = guard_not (eqb_ℤ (agg.current_version a) (pos 0)) not_found >> pure a

abbrev then_apply : {A : Type 0} → Aggregate A → A × ℤ → List StoredEvent → M A
then_apply agg first events = lift (apply_events agg first.1 first.0 events) >>= or_not_found agg

abbrev then_load : {A : Type 0} → Aggregate A → String → String → ReplayQuery → A × ℤ → M A
then_load agg t id q first = EventStore.load_events_until t id q >>= then_apply agg first

abbrev then_start :
    {A : Type 0} → Aggregate A → String → String → ReplayQuery → Option Snapshot → M A
then_start agg t id q snap = lift (start agg id q snap) >>= then_load agg t id q

pub replay-Keeps :
    {A : Type 0} (agg : Aggregate A) (t id : String) (q : ReplayQuery) → Keeps (replay agg t id q)
unfolding replay
replay-Keeps agg t id q =
    Keeps-bind (SnapshotStore.latest t id) (then_start agg t id q) (latest-Keeps t id) λ snap.
      Keeps-bind (lift (start agg id q snap)) (then_load agg t id q) (λ w. refl)
        λ first.
          Keeps-bind (EventStore.load_events_until t id q) (then_apply agg first)
            (load_events_until-Keeps t id q)
            λ events.
              Keeps-bind (lift (apply_events agg first.1 first.0 events)) (or_not_found agg)
                (λ w. refl)
                λ a.
                  Keeps-bind (guard_not (eqb_ℤ (agg.current_version a) (pos 0)) not_found)
                    (λ _. pure a) (λ w. refl) (λ _ w. refl)

pub replay_user-Keeps : (id : String) (q : ReplayQuery) → Keeps (replay_user id q)
unfolding replay_user
replay_user-Keeps id q = replay-Keeps user_aggregate aggregate_user id q

pub replay_product-Keeps : (id : String) (q : ReplayQuery) → Keeps (replay_product id q)
unfolding replay_product
replay_product-Keeps id q = replay-Keeps product_aggregate aggregate_product id q

pub replay_order-Keeps : (id : String) (q : ReplayQuery) → Keeps (replay_order id q)
unfolding replay_order
replay_order-Keeps id q = replay-Keeps order_aggregate aggregate_order id q

found-Keeps :
    {R A : Type 0} (f : R → M A) → ((r : R) → Keeps (f r)) → (row : Option R) → Keeps (found row f)
found-Keeps f h none w = refl
found-Keeps f h (some r) w = h r w

found-read :
    {R A : Type 0} (get : World → Option R) (f : R → M A)
    → ((r : R) → Keeps (f r))
    → Keeps (call >> (gets get >>= λ row. found row f))
found-read get f h =
    Keeps-bind call (λ _. gets get >>= λ row. found row f) (λ w. (call_keeps w).0)
      λ _ w. found-Keeps f h (get w) w

order_of_row-Keeps : (r : OrderRow) → Keeps (order_of_row r)
unfolding order_of_row
order_of_row-Keeps r =
    Keeps-bind (lift (as_items (some r.items) none)) _ (λ w. refl) (λ items w. refl)

pub current_user-Keeps : (id : String) → Keeps (current_user id)
unfolding current_user
current_user-Keeps id =
    found-read (λ w. lookup id w.db.users) (λ r. pure (user_of_row r)) (λ r w. refl)

pub current_product-Keeps : (id : String) → Keeps (current_product id)
unfolding current_product
current_product-Keeps id = found-read (λ w. lookup id w.db.products) (λ r. pure r) (λ r w. refl)

pub current_order-Keeps : (id : String) → Keeps (current_order id)
unfolding current_order
current_order-Keeps id = found-read (λ w. lookup id w.db.orders) order_of_row order_of_row-Keeps
