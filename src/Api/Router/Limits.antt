-- ===== src/Api/Router/Limits.antt =====
-- What sequences of requests cannot do.
use api_time_machine.Prelude.{
  ℕ, zero, suc, ◌≤◌, String, Bool, true, false, ◌≡◌, refl, sym, ap, subst, ◌∙◌, Option, none, some,
  List, [], ◌∷◌, map, All, filter, length, if◌then◌else◌,
}
use api_time_machine.Prelude.Compact.{get_elem?}
use api_time_machine.Json.{Time}
use api_time_machine.Domain.{ReplayQuery}
use api_time_machine.Text.{trim_prefix}
use api_time_machine.Auth.{Claims, Signed, Authenticator, enabled, is_open, bearer, writes}
use api_time_machine.World.{World}
use api_time_machine.World.Unchanged.{Keeps}
use api_time_machine.RateLimit
use api_time_machine.RateLimit.{RateLimiter, Arrival, allow}
use api_time_machine.RateLimit.Client.{client_key}
use api_time_machine.RateLimit.Window.{IsOrdered, last_at, counts, serve-limit}
use api_time_machine.Api.{Server, Response}
use api_time_machine.Api.Routes.{Route, routes, serve, authenticate}
use api_time_machine.Api.Routes.Guards.{outcome-unchanged, unchanged_without_writer}
use api_time_machine.Api.Router.{
  Incoming, Site, limiter, to_route, chosen, dispatch, limited, handle, serve_all,
}

-- The member of a list for which all members' fact holds.
All-get {ℓ} :
    {A : Type 0} (P : A → Type ℓ) (xs : List A) (n : ℕ) (x : A)
    → All P xs
    → get_elem? xs n ≡ some x
    → P x
All-get P [] n x h e = absurd (cc (e))
All-get P (y ∷ xs) zero x h e = let same : y ≡ x = cc (e) in subst P same h.0
All-get P (y ∷ xs) (suc n) x h e = All-get P xs n x h.1 e

-- How the limiter sees a request.
abbrev pub arrival : Incoming → Arrival
arrival i = record { key = client_key i.address; at = i.at }

module _ (parse : String → String → Option Claims) (sign : String → Signed → Option String)
    (choose : String → String → Option ℕ) (unrouted : Incoming → Response) (a : Authenticator)
    (server : Server) where
  -- The path is not an open one, and no token of the request verifies with a role that may write.
  abbrev pub MayNotWrite : Incoming → Type 0
  MayNotWrite i =
      (is_open i.caller.path ≡ false)
      × ((c : Claims)
          → parse a.secret (trim_prefix i.caller.authorization bearer) ≡ some c
          → writes c.role ≡ false)

  dispatch-db :
      (i : Incoming) (w : World)
      → ((id : String) (q : ReplayQuery) → Keeps (server.replay_user id q))
      → enabled a ≡ true
      → MayNotWrite i
      → (dispatch parse sign choose unrouted (some a) server i w).1.db ≡ w.db
  dispatch-db i w keeps on may = by_choice (choose i.method i.caller.path)
    where
      by_route :
          (o : Option Route)
          → ((route : Route)
              → o ≡ some route
              → (serve parse (some a) server route i.caller i.request w).1.db ≡ w.db)
          → (to_route parse sign choose unrouted (some a) server i o w).1.db ≡ w.db
      by_route none h =
          outcome-unchanged (authenticate parse (some a) i.caller) (λ w. (unrouted i, w)) w
            (λ r e. refl)
      by_route (some route) h = h route refl

      by_choice :
          (n : Option ℕ)
          → (to_route parse sign choose unrouted
              (some a)
              server
              i
              (chosen parse sign choose unrouted (some a) server n)
              w).1.db
            ≡ w.db
      by_choice none = by_route none (λ route e. absurd (cc (e)))
      by_choice (some n) = by_route (get_elem? (routes sign (some a)) n) λ route e.
          All-get (λ route. (serve parse (some a) server route i.caller i.request w).1.db ≡ w.db)
            (routes sign (some a)) n route
            (unchanged_without_writer parse sign a server i.caller i.request w keeps on may.0 may.1)
            e

  handle-db :
      (i : Incoming) (s : Site)
      → ((id : String) (q : ReplayQuery) → Keeps (server.replay_user id q))
      → enabled a ≡ true
      → MayNotWrite i
      → (handle parse sign choose unrouted (some a) server i s).1.1.world.db ≡ s.world.db
  unfolding handle
  handle-db i s keeps on may = go (allow (client_key i.address) i.at s.limiter)
    where
      go :
          (p : Bool × RateLimiter)
          → (limited parse sign choose unrouted
              (some a)
              server
              i
              p
              (record s.world { now = i.at })).1.1.world.db
            ≡ s.world.db
      go (false, rl) = refl
      go (true, rl) = dispatch-db i (record s.world { now = i.at }) keeps on may

  -- When authentication is enabled, no request of a sequence asks for an open path, and no header
  -- of them holds a token that verifies with the role admin or writer, the sequence changes no
  -- table, whatever route chi chooses for each and whatever the limiter does, as long as the replay
  -- of users changes none.
  pub serve_all-db :
      (requests : List Incoming) (s : Site)
      → ((id : String) (q : ReplayQuery) → Keeps (server.replay_user id q))
      → enabled a ≡ true
      → All MayNotWrite requests
      → (serve_all parse sign choose unrouted (some a) server requests s).site.world.db ≡ s.world.db
  unfolding serve_all
  serve_all-db [] s keeps on may = refl
  serve_all-db (i ∷ rest) s keeps on may =
      serve_all-db rest (handle parse sign choose unrouted (some a) server i s).1.1 keeps on may.1
      ∙ handle-db i s keeps on may.0

module _ (parse : String → String → Option Claims) (sign : String → Signed → Option String)
    (choose : String → String → Option ℕ) (unrouted : Incoming → Response)
    (auth : Option Authenticator) (server : Server) where
  admitted-serve :
      (requests : List Incoming) (s : Site)
      → map arrival (serve_all parse sign choose unrouted auth server requests s).admitted
        ≡ (RateLimit.serve s.limiter (map arrival requests)).1
  unfolding serve_all handle RateLimit.serve
  admitted-serve [] s = refl
  admitted-serve (i ∷ rest) s =
      go (allow (client_key i.address) i.at s.limiter) (admitted-serve rest)
    where
      go :
          (p : Bool × RateLimiter)
          → ((s' : Site)
              → map arrival (serve_all parse sign choose unrouted auth server rest s').admitted
                ≡ (RateLimit.serve s'.limiter (map arrival rest)).1)
          → let q =
              limited parse sign choose unrouted auth server i p (record s.world { now = i.at }) in
            let later = serve_all parse sign choose unrouted auth server rest q.1.1 in
            map arrival (if q.0 then i ∷ later.admitted else later.admitted) ≡ (
              if p.0
              then arrival i ∷ (RateLimit.serve p.1 (map arrival rest)).1
              else (RateLimit.serve p.1 (map arrival rest)).1)
      go (false, rl) ih = ih _
      go (true, rl) ih = ap (λ es. arrival i ∷ es) (ih _)

  -- For requests that come in the order of the clock to a new router, at every instant from the
  -- last one on, at most 300 of the requests of a client that the limiter let through are in the
  -- minute before that instant.
  pub serve_all-limit :
      (requests : List Incoming) (w : World) (t now : Time) (key : String)
      → IsOrdered t (map arrival requests)
      → last_at t (map arrival requests) ≤ now
      → length (
          filter (counts 60000000000 key now) (
            map arrival
              (serve_all parse sign choose unrouted auth server requests
                (record { limiter = limiter; world = w })).admitted))
        ≤ 300
  serve_all-limit requests w t now key h later =
      subst (λ es. length (filter (counts 60000000000 key now) es) ≤ 300)
        (sym (admitted-serve requests (record { limiter = limiter; world = w })))
        (serve-limit 300 60000000000 (map arrival requests) t now key h later)
