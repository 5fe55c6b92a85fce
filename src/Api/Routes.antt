-- ===== src/Api/Routes.antt =====
-- internal/api/server.go: the table of the routes and the checks in front of them. chi's choice of a
-- route for a request, /metrics and /ui are left out.
pub mod Reading
pub mod Table
pub mod Guards
use api_time_machine.Prelude.{
  ℕ, String, Bool, true, false, not, ◌||◌, Option, none, some, List, [], ◌∷◌, ◌++◌, str_eq,
  if◌then◌else◌,
}
use api_time_machine.Json.{
  Json, Time, str, object, as_fields, as_string, read_field, read_string, read_int, read_string_ptr,
  read_int_ptr,
}
use api_time_machine.Auth
use api_time_machine.Auth.{
  Claims, Signed, Authenticator, Outcome, unauthorized, invalid_token, forbidden, pass, enabled,
  issue, role_reader, middleware, require_write, require_replay, and_then,
}
use api_time_machine.Result.{Result, ok, err, ◌>>=◌}
use api_time_machine.Api.{Server, Request, Response, Handler, write_error, with_body, day}
use api_time_machine.Api.Users.{
  create_user, update_user, delete_user, get_user, user_history, user_timeline, user_diff,
  user_replay,
}
use api_time_machine.Api.Products.{
  create_product, update_product, delete_product, get_product, product_history, product_timeline,
  product_diff, product_replay,
}
use api_time_machine.Api.Orders.{
  create_order, update_order, cancel_order, add_order_item, get_order, order_history,
  order_timeline, order_diff, order_replay,
}
use api_time_machine.Api.Reads.{search_events}

-- `Server.health`
abbrev pub health : Handler
health w = (record { status = 200; body = object (("status", str "ok") ∷ []) }, w)

pub record TokenRequest : Type 0 where
  pub subject : String
  pub role : String

unfoldable pub decode_token_request : Json → Result TokenRequest
decode_token_request j = do
  fs ← as_fields j
  subject ← read_string "subject" fs
  role ← read_string "role" fs
  ok (record { subject = subject; role = role })

abbrev pub token_answer : Option String → Response
token_answer none = write_error 500 "token issue failed"
token_answer (some token) = record { status = 200; body = object (("token", str token) ∷ []) }

module _ (sign : String → Signed → Option String) where
  abbrev pub token_of : Authenticator → TokenRequest → Time → Response
  unfolding issue
  token_of a req now =
      token_answer
        (issue sign a req.subject (if str_eq req.role "" then role_reader else req.role) day now)

  -- `Server.issueToken`
  unfoldable pub issue_token : Option Authenticator → Request → Handler
  unfolding decode_token_request
  issue_token none r w = (write_error 501 "auth disabled", w)
  issue_token (some a) r w =
      if not (enabled a)
      then (write_error 501 "auth disabled", w)
      else with_body r decode_token_request (λ req w. (token_of a req w.now, w)) w

-- The group of a route: `RequireWrite`, `RequireReplay` or neither.
pub data Guard : Type 0 where
  unguarded : Guard
  writer : Guard
  reader : Guard

pub record Route : Type 0 where
  pub method : String
  pub pattern : String
  pub guard : Guard
  pub handler : Server → Request → Handler

abbrev route : String → String → Guard → (Server → Request → Handler) → Route
route method pattern guard handler = record {
  method = method;
  pattern = pattern;
  guard = guard;
  handler = handler;
}

-- `Server.mountUsers`; `userPreview` calls `userReplay`.
abbrev pub users_routes : List Route
users_routes =
    route "POST" "/users/" writer create_user
    ∷ route "PUT" "/users/{id}" writer update_user
    ∷ route "DELETE" "/users/{id}" writer delete_user
    ∷ route "GET" "/users/{id}" reader get_user
    ∷ route "GET" "/users/{id}/history" reader (λ s. user_history)
    ∷ route "GET" "/users/{id}/timeline" reader (λ s. user_timeline)
    ∷ route "GET" "/users/{id}/diff" reader user_diff
    ∷ route "POST" "/users/{id}/replay" reader user_replay
    ∷ route "POST" "/users/{id}/preview" reader user_replay
    ∷ []

-- `Server.mountProducts`
abbrev pub products_routes : List Route
products_routes =
    route "POST" "/products/" writer (λ s. create_product)
    ∷ route "PUT" "/products/{id}" writer (λ s. update_product)
    ∷ route "DELETE" "/products/{id}" writer (λ s. delete_product)
    ∷ route "GET" "/products/{id}" reader (λ s. get_product)
    ∷ route "GET" "/products/{id}/history" reader (λ s. product_history)
    ∷ route "GET" "/products/{id}/timeline" reader (λ s. product_timeline)
    ∷ route "GET" "/products/{id}/diff" reader product_diff
    ∷ route "POST" "/products/{id}/replay" reader (λ s. product_replay)
    ∷ []

-- `Server.mountOrders`
abbrev pub orders_routes : List Route
orders_routes =
    route "POST" "/orders/" writer (λ s. create_order)
    ∷ route "PUT" "/orders/{id}" writer (λ s. update_order)
    ∷ route "POST" "/orders/{id}/cancel" writer (λ s. cancel_order)
    ∷ route "POST" "/orders/{id}/items" writer (λ s. add_order_item)
    ∷ route "GET" "/orders/{id}" reader (λ s. get_order)
    ∷ route "GET" "/orders/{id}/history" reader (λ s. order_history)
    ∷ route "GET" "/orders/{id}/timeline" reader (λ s. order_timeline)
    ∷ route "GET" "/orders/{id}/diff" reader order_diff
    ∷ route "POST" "/orders/{id}/replay" reader (λ s. order_replay)
    ∷ []

abbrev pub token_route : (String → Signed → Option String) → Option Authenticator → Route
token_route sign auth = route "POST" "/auth/token" unguarded (λ s. issue_token sign auth)

abbrev pub events_routes : List Route
events_routes = route "GET" "/events" reader (λ s. search_events) ∷ []

-- `Server.Router`
abbrev pub routes : (String → Signed → Option String) → Option Authenticator → List Route
routes sign auth =
    route "GET" "/health" unguarded (λ s r. health) ∷ token_route sign auth ∷ users_routes
    ++ products_routes
    ++ orders_routes
    ++ events_routes

abbrev pub admit : Guard → Auth.Request → Outcome
unfolding require_write require_replay
admit unguarded r = pass r
admit writer r = require_write r
admit reader r = require_replay r

-- What `http.Error` writes, or the handler's answer.
abbrev pub answer_outcome : Outcome → Handler → Handler
answer_outcome unauthorized h w = (write_error 401 "unauthorized", w)
answer_outcome invalid_token h w = (write_error 401 "invalid token", w)
answer_outcome forbidden h w = (write_error 403 "forbidden", w)
answer_outcome (pass _) h w = h w

module _ (parse : String → String → Option Claims) where
  -- `if s.deps.Auth != nil { r.Use(s.deps.Auth.Middleware) }`
  unfoldable pub authenticate : Option Authenticator → Auth.Request → Outcome
  unfolding middleware
  authenticate none r = pass r
  authenticate (some a) r = middleware parse a r

  -- What a route answers to a request that chi gives to it: `caller` is what the checks read of it.
  unfoldable pub serve : Option Authenticator → Server → Route → Auth.Request → Request → Handler
  unfolding authenticate
  serve auth s route caller r =
      answer_outcome (and_then (authenticate auth caller) (admit route.guard)) (route.handler s r)
