-- ===== src/World.antt =====
-- The state that the handlers share, and the actions on it: the tables of migrations/001_init.sql
-- and migrations/002_products_orders.sql, the sequences behind their ids, the clock, and the faults of the
-- database. A call of the driver (pgx) that may fail consumes one of the faults: `true` is a call
-- that returns an error, and after the last entry no call fails.

pub mod Unchanged
use api_time_machine.Prelude.{
  ℕ, suc, ◌^◌, ltb, ◌≡◌, refl, arith, String, Bool, true, false, List, [], ◌∷◌, if◌then◌else◌,
}
use api_time_machine.Prelude.Assoc.{Assoc}
use api_time_machine.Prelude.Int.{ℤ, pos}
use api_time_machine.Json.{Json, Time}
use api_time_machine.Domain.{StoredEvent, Snapshot}
use api_time_machine.Aggregate.Product.{Product}
use api_time_machine.Result.{Error, db_failed, Result, ok, err}

pub record OutboxRow : Type 0 where
  pub id : ℤ
  pub aggregate_type : String
  pub aggregate_id : String
  pub event_id : ℤ
  pub payload : Json
  pub published : Bool

-- The columns of `users`: no address and no avatar.
pub record UserRow : Type 0 where
  pub id : String
  pub name : String
  pub email : String
  pub version : ℤ
  pub deleted : Bool
  pub created_at : Time
  pub updated_at : Time

-- The columns of `orders`; `items` is JSONB. Those of `products` are the fields of Product.
pub record OrderRow : Type 0 where
  pub id : String
  pub user_id : String
  pub status : String
  pub total_cents : ℤ
  pub currency : String
  pub items : Json
  pub version : ℤ
  pub cancelled : Bool
  pub created_at : Time
  pub updated_at : Time

pub record IdempotencyRow : Type 0 where
  pub response_body : Json
  pub status_code : ℕ
  pub expires_at : Time

pub record Db : Type 0 where
  pub events : List StoredEvent
  pub outbox : List OutboxRow
  pub snapshots : List Snapshot
  pub users : Assoc UserRow
  pub products : Assoc Product
  pub orders : Assoc OrderRow
  pub idempotency_keys : Assoc IdempotencyRow

-- A rollback gives no sequence value back, so the sequences stand outside the tables.
pub record World : Type 0 where
  pub db : Db
  pub event_seq : ℕ
  pub outbox_seq : ℕ
  pub snapshot_seq : ℕ
  pub now : Time
  pub faults : List Bool

abbrev pub empty_db : Db
empty_db = record {
  events = [];
  outbox = [];
  snapshots = [];
  users = [];
  products = [];
  orders = [];
  idempotency_keys = [];
}

-- An action returns its result or an error, and the world that it leaves.
abbrev pub M {ℓ} : Type ℓ → Type ℓ
M A = World → Result A × World

infixl 5 ◌>>=◌ ◌>>◌
abbrev pub ◌>>=◌ {ℓ κ} : {A : Type ℓ} {B : Type κ} → M A → (A → M B) → M B
◌>>=◌ m f w = let (r, w') = m w in elim r [ ok a ↦ f a w' | err e ↦ (err e, w') ]

abbrev pub ◌>>◌ {ℓ κ} : {A : Type ℓ} {B : Type κ} → M A → M B → M B
m >> k = m >>= λ _. k

module _ {ℓ} {A : Type ℓ} where
  abbrev pub pure : A → M A
  pure a w = (ok a, w)

  abbrev pub throw : Error → M A
  throw e w = (err e, w)

  abbrev pub lift : Result A → M A
  lift r w = (r, w)

  abbrev pub gets : (World → A) → M A
  gets f w = (ok (f w), w)

  -- `defer tx.Rollback(ctx)`: a transaction that ends with an error changes no table.
  unfoldable pub transaction : M A → M A
  transaction m w =
      let (r, w') = m w in elim r [ ok a ↦ (ok a, w') | err e ↦ (err e, record w' { db = w.db }) ]

  -- `go f()`, run where it is started; nobody reads its result.
  unfoldable pub spawn : M A → M (Unit {0})
  spawn m w = (ok tt, (m w).1)

abbrev pub modify : (World → World) → M (Unit {0})
modify f w = (ok tt, f w)

abbrev pub modify_db : (Db → Db) → M (Unit {0})
modify_db f w = (ok tt, record w { db = f w.db })

abbrev pub guard_not : Bool → Error → M (Unit {0})
guard_not bad e w = (if bad then err e else ok tt, w)

abbrev next_fault : List Bool → Result (Unit {0}) × List Bool
next_fault [] = (ok tt, [])
next_fault (false ∷ fs) = (ok tt, fs)
next_fault (true ∷ fs) = (err db_failed, fs)

-- A call of the driver.
unfoldable pub call : M (Unit {0})
call w = let (r, fs) = next_fault w.faults in (r, record w { faults = fs })

-- BIGSERIAL: nextval of the sequence of `events` counts from 1, and fails past 2^63 - 1.
unfoldable pub next_event_id : M ℤ
next_event_id w =
    if ltb (suc w.event_seq) (2 ^ 63)
    then (ok (pos (suc w.event_seq)), record w { event_seq = suc w.event_seq })
    else (err db_failed, w)

unfoldable pub next_outbox_id : M ℤ
next_outbox_id w =
    if ltb (suc w.outbox_seq) (2 ^ 63)
    then (ok (pos (suc w.outbox_seq)), record w { outbox_seq = suc w.outbox_seq })
    else (err db_failed, w)

unfoldable pub next_snapshot_id : M ℤ
next_snapshot_id w =
    if ltb (suc w.snapshot_seq) (2 ^ 63)
    then (ok (pos (suc w.snapshot_seq)), record w { snapshot_seq = suc w.snapshot_seq })
    else (err db_failed, w)

-- Inversion of a chain of actions that returns.
pub >>=-eq-ok :
    {A B : Type 0} (m : M A) (f : A → M B) {w w'' : World} {b : B}
    → (m >>= f) w ≡ (ok b, w'')
    → (a : A) × (w' : World) × (m w ≡ (ok a, w')) × (f a w' ≡ (ok b, w''))
>>=-eq-ok {A} {B} m f {w} {w''} {b} h = go (m w) refl h
  where
    go :
        (p : Result A × World)
        → m w ≡ p
        → (elim p.0 [ ok a ↦ f a p.1 | err e ↦ (err e, p.1) ]) ≡ (ok b, w'')
        → (a : A) × (w' : World) × (m w ≡ (ok a, w')) × (f a w' ≡ (ok b, w''))
    go (ok a, w') e h = (a, w', e, h)
    go (err x, w') e h = cc

-- The world in which no call fails any more.
abbrev pub quiet : World → World
quiet w = record w { faults = [] }

-- A call of the driver changes no table and no sequence.
pub call_keeps :
    (w : World)
    → ((call w).1.db ≡ w.db)
      × ((call w).1.event_seq ≡ w.event_seq)
      × ((call w).1.outbox_seq ≡ w.outbox_seq)
      × ((call w).1.now ≡ w.now)
unfolding call
call_keeps w = ground arith

module _ {A : Type 0} where
  pub transaction_err :
      (m : M A) (w : World) (e : Error)
      → (transaction m w).0 ≡ err e
      → (transaction m w).1.db ≡ w.db
  unfolding transaction
  transaction_err m w e h = ground arith

  -- A transaction that returns has done what its body did.
  pub transaction_ok :
      (m : M A) {w w' : World} {a : A} → transaction m w ≡ (ok a, w') → m w ≡ (ok a, w')
  unfolding transaction
  transaction_ok m h = ground arith
