-- ===== src/Worker/Builder/Lawful.antt =====
-- Users and products meet what the builder relies on; orders do not, since a nil slice of items does
-- not survive its snapshot.
use api_time_machine.Aggregate.User.{user_aggregate}
use api_time_machine.Aggregate.Product.{product_aggregate}
use api_time_machine.Aggregate.User.Apply.{apply_touches as user_touches}
use api_time_machine.Aggregate.Product.Apply.{apply_touches as product_touches}
use api_time_machine.Aggregate.User.Snapshots.{unmarshal-marshal_user}
use api_time_machine.Aggregate.Product.Snapshots.{unmarshal-marshal_product}
use api_time_machine.Worker.Builder.Faithful.{IsLawful}

pub user_aggregate-IsLawful : IsLawful user_aggregate
unfolding user_aggregate
user_aggregate-IsLawful = record {
  touches = λ a b e h. (user_touches a b e h).1;
  roundtrip = unmarshal-marshal_user;
}

pub product_aggregate-IsLawful : IsLawful product_aggregate
unfolding product_aggregate
product_aggregate-IsLawful = record {
  touches = λ a b e h. (product_touches a b e h).1;
  roundtrip = unmarshal-marshal_product;
}
