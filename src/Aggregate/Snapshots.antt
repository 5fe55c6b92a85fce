-- ===== src/Aggregate/Snapshots.antt =====
-- The snapshots of the three aggregates, read into a new aggregate.
use api_time_machine.Prelude.{String, ◌≡◌, some}
use api_time_machine.Result.{ok}
use api_time_machine.Aggregate.User
use api_time_machine.Aggregate.Product
use api_time_machine.Aggregate.Order
use api_time_machine.Aggregate.Order.{elements}
use api_time_machine.Aggregate.User.Snapshots.{unmarshal-marshal_user}
use api_time_machine.Aggregate.Product.Snapshots.{unmarshal-marshal_product}
use api_time_machine.Aggregate.Order.Snapshots.{unmarshal-marshal_order}

-- The snapshot of a user, of a product or of an order, read into a new one of any id, is the same
-- user, product or order, but for a nil slice of an order's items, which becomes an empty one.
pub unmarshal-marshal :
    (id : String) (u : User.User) (p : Product.Product) (o : Order.Order)
    → (User.unmarshal_snapshot (User.fresh id) (User.marshal_snapshot u) ≡ ok u)
      × (Product.unmarshal_snapshot (Product.fresh id) (Product.marshal_snapshot p) ≡ ok p)
      × (Order.unmarshal_snapshot (Order.fresh id) (Order.marshal_snapshot o)
          ≡ ok (record o { items = some (elements o.items) }))
unmarshal-marshal id u p o =
    (unmarshal-marshal_user id u, unmarshal-marshal_product id p, unmarshal-marshal_order id o)
