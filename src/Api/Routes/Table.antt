-- ===== src/Api/Routes/Table.antt =====
-- internal/api/server.go: which routes are guarded by RequireWrite, and which only read.
use api_time_machine.Prelude.{String, ◌≡◌, refl, Option, ◌++◌, All, All-append, ◌⊎◌, inl, inr}
use api_time_machine.Domain.{ReplayQuery, aggregate_user, aggregate_product, aggregate_order}
use api_time_machine.Aggregate.Order
use api_time_machine.Aggregate.Product
use api_time_machine.Aggregate.User.{marshal_snapshot}
use api_time_machine.Diff.{user_map, product_map, order_map}
use api_time_machine.Projection.{current_user, current_product, current_order}
use api_time_machine.Replay.{replay_product, replay_order}
use api_time_machine.Auth.{Signed, Authenticator}
use api_time_machine.World.Unchanged.{
  Keeps, replay_product-Keeps, replay_order-Keeps, current_user-Keeps, current_product-Keeps,
  current_order-Keeps,
}
use api_time_machine.Api.{Server, Request}
use api_time_machine.Api.Reads.{entity_diff, time_or_version, or_no_bounds, replay_request}
use api_time_machine.Api.Users.{get_user, user_history, user_timeline, user_diff, user_replay}
use api_time_machine.Api.Products.{
  get_product, product_history, product_timeline, product_diff, product_replay,
}
use api_time_machine.Api.Orders.{get_order, order_history, order_timeline, order_diff, order_replay}
use api_time_machine.Api.Routes.{
  Route, writer, users_routes, products_routes, orders_routes, events_routes, routes,
}
use api_time_machine.Api.Routes.Reading.{
  Reads, answer-Reads, get_entity-Reads, history-Reads, timeline-Reads, diff-Reads, bounds-Reads,
  search-Reads, token-Reads,
}

-- A route whose handler writes has the guard RequireWrite.
abbrev pub Guarded : Server → Request → Route → Type 0
Guarded s r route = (route.guard ≡ writer) ⊎ Reads (route.handler s r)

module _ (s : Server) (keeps : (id : String) (q : ReplayQuery) → Keeps (s.replay_user id q))
    (r : Request) where
  users-Guarded : All (Guarded s r) users_routes
  unfolding get_user user_history user_timeline user_diff user_replay
  users-Guarded = (
    inl refl,
    (
      inl refl,
      (
        inl refl,
        (
          inr (
              get_entity-Reads marshal_snapshot (s.replay_user r.id) (current_user r.id) r
                (keeps r.id) (current_user-Keeps r.id)),
          (
            inr (history-Reads aggregate_user r),
            (
              inr (timeline-Reads aggregate_user r),
              (
                inr (
                    bounds-Reads r
                      (λ from to.
                        entity_diff user_map s r (s.replay_user r.id from) (s.replay_user r.id to))
                      λ from to. diff-Reads user_map s r (s.replay_user r.id) from to (keeps r.id)),
                (
                  inr (
                      answer-Reads marshal_snapshot (s.replay_user r.id (replay_request r))
                        (keeps r.id (replay_request r))),
                  (
                    inr (
                        answer-Reads marshal_snapshot (s.replay_user r.id (replay_request r))
                          (keeps r.id (replay_request r))),
                    tt,
                  ),
                ),
              ),
            ),
          ),
        ),
      ),
    ),
  )

  products-Guarded : All (Guarded s r) products_routes
  unfolding get_product product_history product_timeline product_diff product_replay
  products-Guarded = (
    inl refl,
    (
      inl refl,
      (
        inl refl,
        (
          inr (
              get_entity-Reads Product.marshal_snapshot (replay_product r.id) (current_product r.id)
                r (replay_product-Keeps r.id) (current_product-Keeps r.id)),
          (
            inr (history-Reads aggregate_product r),
            (
              inr (timeline-Reads aggregate_product r),
              (
                inr (
                    diff-Reads product_map s r (replay_product r.id)
                      (or_no_bounds (time_or_version r "from"))
                      (or_no_bounds (time_or_version r "to")) (replay_product-Keeps r.id)),
                (
                  inr (
                      answer-Reads Product.marshal_snapshot (replay_product r.id (replay_request r))
                        (replay_product-Keeps r.id (replay_request r))),
                  tt,
                ),
              ),
            ),
          ),
        ),
      ),
    ),
  )

  orders-Guarded : All (Guarded s r) orders_routes
  unfolding get_order order_history order_timeline order_diff order_replay
  orders-Guarded = (
    inl refl,
    (
      inl refl,
      (
        inl refl,
        (
          inl refl,
          (
            inr (
                get_entity-Reads Order.marshal_snapshot (replay_order r.id) (current_order r.id) r
                  (replay_order-Keeps r.id) (current_order-Keeps r.id)),
            (
              inr (history-Reads aggregate_order r),
              (
                inr (timeline-Reads aggregate_order r),
                (
                  inr (
                      diff-Reads order_map s r (replay_order r.id)
                        (or_no_bounds (time_or_version r "from"))
                        (or_no_bounds (time_or_version r "to")) (replay_order-Keeps r.id)),
                  (
                    inr (
                        answer-Reads Order.marshal_snapshot (replay_order r.id (replay_request r))
                          (replay_order-Keeps r.id (replay_request r))),
                    tt,
                  ),
                ),
              ),
            ),
          ),
        ),
      ),
    ),
  )

  pub routes-Guarded :
      (sign : String → Signed → Option String) (auth : Option Authenticator)
      → All (Guarded s r) (routes sign auth)
  routes-Guarded sign auth = (
    inr (λ w. refl),
    (
      inr (token-Reads sign auth r),
      All-append (Guarded s r) users_routes (products_routes ++ orders_routes ++ events_routes)
          users-Guarded
          (All-append (Guarded s r) products_routes (orders_routes ++ events_routes)
            products-Guarded
            (All-append (Guarded s r) orders_routes events_routes orders-Guarded
              (inr (search-Reads r), tt))),
    ),
  )
