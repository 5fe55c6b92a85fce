-- ===== src/Api/Router.antt =====
-- `Server.Router` of internal/api/server.go: the limit on the clients and the checks in front of the
-- route that chi chooses. `choose` is chi's choice, the number of the route in the order of the table, or
-- none; `unrouted` is what chi, /metrics and /ui answer then. The address of a request is the one that chi's
-- RealIP leaves. The requests come one after the other.
pub mod Limits
use api_time_machine.Prelude.{
  ℕ, String, Bool, true, false, Option, none, some, List, [], ◌∷◌, if◌then◌else◌,
}
use api_time_machine.Prelude.Compact.{get_elem?}
use api_time_machine.Json.{Time}
use api_time_machine.Auth
use api_time_machine.Auth.{Claims, Signed, Authenticator}
use api_time_machine.World.{World}
use api_time_machine.RateLimit
use api_time_machine.RateLimit.{RateLimiter, allow}
use api_time_machine.RateLimit.Client.{client_key}
use api_time_machine.Api.{Server, Request, Response, Handler, write_error}
use api_time_machine.Api.Routes.{Route, routes, serve, authenticate, answer_outcome}

pub record Incoming : Type 0 where
  pub at : Time
  pub address : String
  pub method : String
  pub caller : Auth.Request
  pub request : Request

-- What the server keeps between requests.
pub record Site : Type 0 where
  pub limiter : RateLimiter
  pub world : World

pub record Served : Type 0 where
  pub site : Site
  pub responses : List Response
  -- the requests that the limiter let through
  pub admitted : List Incoming

-- `rateLimitMiddleware(300, time.Minute)`, in ticks of a nanosecond
abbrev pub limiter : RateLimiter
limiter = RateLimit.fresh 300 60000000000

module _ (parse : String → String → Option Claims) (sign : String → Signed → Option String)
    (choose : String → String → Option ℕ) (unrouted : Incoming → Response)
    (auth : Option Authenticator) (server : Server) where
  abbrev pub no_route : Incoming → Handler
  no_route i = answer_outcome (authenticate parse auth i.caller) (λ w. (unrouted i, w))

  abbrev pub to_route : Incoming → Option Route → Handler
  to_route i none = no_route i
  to_route i (some route) = serve parse auth server route i.caller i.request

  abbrev pub chosen : Option ℕ → Option Route
  chosen none = none
  chosen (some n) = get_elem? (routes sign auth) n

  -- Authentication, the guard of the route, and its handler.
  abbrev pub dispatch : Incoming → Handler
  dispatch i = to_route i (chosen (choose i.method i.caller.path))

  abbrev pub limited : Incoming → Bool × RateLimiter → World → Bool × (Response × Site)
  limited i (false, rl) w =
      (false, (write_error 429 "rate limit exceeded", record { limiter = rl; world = w }))
  limited i (true, rl) w =
      let (r, w') = dispatch i w in (true, (r, record { limiter = rl; world = w' }))

  -- One request: whether the limiter lets it through, and the answer.
  unfoldable pub handle : Incoming → Site → Bool × (Response × Site)
  unfolding allow client_key serve authenticate
  handle i s =
      limited i (allow (client_key i.address) i.at s.limiter) (record s.world { now = i.at })

  unfoldable pub serve_all : List Incoming → Site → Served
  unfolding handle
  serve_all [] s = record { site = s; responses = []; admitted = [] }
  serve_all (i ∷ rest) s =
      let (passed, (r, s')) = handle i s in
      let later = serve_all rest s' in
      record {
        site = later.site;
        responses = r ∷ later.responses;
        admitted = if passed then i ∷ later.admitted else later.admitted;
      }
