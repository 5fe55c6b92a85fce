-- ===== src/Projection.antt =====
pub mod Laws
pub mod Current
mod Upsert
-- internal/projection/user.go and internal/projection/catalog.go: the read models. Each `Apply`
-- applies the event to a new aggregate, and writes that aggregate into the table.
use api_time_machine.Prelude.{String, Option, none, some}
use api_time_machine.Prelude.Assoc.{Assoc, lookup, insert}
use api_time_machine.Prelude.Int.{ℤ, pos}
use api_time_machine.Json.{Json}
use api_time_machine.Domain.{StoredEvent}
use api_time_machine.Aggregate.User
use api_time_machine.Aggregate.User.{User}
use api_time_machine.Aggregate.Product
use api_time_machine.Aggregate.Product.{Product}
use api_time_machine.Aggregate.Order
use api_time_machine.Aggregate.Order.{Order, encode_items, as_items}
use api_time_machine.World.{
  World, Db, M, UserRow, OrderRow, ◌>>=◌, ◌>>◌, pure, throw, lift, gets, modify_db, call,
}
use api_time_machine.Result.{not_found}

-- INSERT … ON CONFLICT (id) DO UPDATE: `keep old new` is the row that an existing row becomes.
abbrev pub upsert : {R : Type 0} → (R → R → R) → String → R → Assoc R → Assoc R
upsert keep id new table =
    insert id (elim (lookup id table) [ none ↦ new | some old ↦ keep old new ]) table

unfoldable pub user_row : User → UserRow
user_row u = record {
  id = u.id;
  name = u.name;
  email = u.email;
  version = u.version;
  deleted = u.deleted;
  created_at = u.created_at;
  updated_at = u.updated_at;
}

-- The SET clause leaves `created_at` of a row that is there.
abbrev pub keep_user_created : UserRow → UserRow → UserRow
keep_user_created old new = record new { created_at = old.created_at }

unfoldable pub store_user : User → M (Unit {0})
unfolding user_row insert lookup call
store_user u = do
  call
  modify_db (λ db. record db { users = upsert keep_user_created u.id (user_row u) db.users })

-- `UserProjector.Apply`
unfoldable pub apply_user : StoredEvent → M (Unit {0})
unfolding store_user
apply_user event = do u ← lift (User.apply (User.fresh event.aggregate_id) event); store_user u

-- The scan into a zero User.
unfoldable pub user_of_row : UserRow → User
user_of_row r = record {
  id = r.id;
  name = r.name;
  email = r.email;
  address = "";
  avatar = "";
  deleted = r.deleted;
  version = r.version;
  created_at = r.created_at;
  updated_at = r.updated_at;
}

abbrev pub found {ℓ} : {R : Type 0} {A : Type ℓ} → Option R → (R → M A) → M A
found none f = throw not_found
found (some r) f = f r

-- `UserProjector.GetCurrent`
unfoldable pub current_user : String → M User
unfolding user_of_row lookup call
current_user id = do
  call
  row ← gets (λ w. lookup id w.db.users)
  found row (λ r. pure (user_of_row r))

abbrev pub keep_product_created : Product → Product → Product
keep_product_created old new = record new { created_at = old.created_at }

unfoldable pub store_product : Product → M (Unit {0})
unfolding insert lookup call
store_product p = do
  call
  modify_db (λ db. record db { products = upsert keep_product_created p.id p db.products })

-- `ProductProjector.Apply`
unfoldable pub apply_product : StoredEvent → M (Unit {0})
unfolding store_product
apply_product event = do
  p ← lift (Product.apply (Product.fresh event.aggregate_id) event)
  store_product p

-- `ProductProjector.GetCurrent`
unfoldable pub current_product : String → M Product
unfolding lookup call
current_product id = do call; row ← gets (λ w. lookup id w.db.products); found row (λ r. pure r)

unfoldable pub order_row : Order → OrderRow
unfolding encode_items
order_row o = record {
  id = o.id;
  user_id = o.user_id;
  status = o.status;
  total_cents = o.total_cents;
  currency = o.currency;
  items = encode_items o.items;
  version = o.version;
  cancelled = o.cancelled;
  created_at = o.created_at;
  updated_at = o.updated_at;
}

abbrev pub keep_order_created : OrderRow → OrderRow → OrderRow
keep_order_created old new = record new { created_at = old.created_at }

unfoldable pub store_order : Order → M (Unit {0})
unfolding order_row insert lookup call
store_order o = do
  call
  modify_db (λ db. record db { orders = upsert keep_order_created o.id (order_row o) db.orders })

-- `OrderProjector.Apply`
unfoldable pub apply_order : StoredEvent → M (Unit {0})
unfolding store_order
apply_order event = do o ← lift (Order.apply (Order.fresh event.aggregate_id) event); store_order o

-- The scan into a zero Order, whose `items` are decoded from their column.
unfoldable pub order_of_row : OrderRow → M Order
unfolding as_items
order_of_row r = do
  items ← lift (as_items (some r.items) none)
  pure (record {
    id = r.id;
    user_id = r.user_id;
    status = r.status;
    total_cents = r.total_cents;
    currency = r.currency;
    items = items;
    cancelled = r.cancelled;
    version = r.version;
    created_at = r.created_at;
    updated_at = r.updated_at;
  })

-- `OrderProjector.GetCurrent`
unfoldable pub current_order : String → M Order
unfolding order_of_row lookup call
current_order id = do call; row ← gets (λ w. lookup id w.db.orders); found row order_of_row
