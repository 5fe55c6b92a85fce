-- ===== src/Examples/Routers.antt =====
-- Requests that go through the router.
use api_time_machine.Prelude.{
  ℕ, ◌≤◌, String, Bool, true, false, ◌&&◌, ◌≡◌, refl, subst, arith, Option, none, some, List, [],
  ◌∷◌, map, filter, length, str_eq, if◌then◌else◌,
}
use api_time_machine.Auth
use api_time_machine.Auth.{
  Claims, Signed, Authenticator, writes, bearer, pass, middleware, require_write,
}
use api_time_machine.Auth.Token.{
  Method, hs256, other, Token, key_of, parse, Verifying, writer_token,
}
use api_time_machine.World.Unchanged.{replay_user-Keeps}
use api_time_machine.RateLimit.Client.{has, client_key, client_key-with_port}
use api_time_machine.RateLimit.Window.{counts}
use api_time_machine.Api.{Response, write_error}
use api_time_machine.Api.Router.{Incoming, Site, limiter, serve_all}
use api_time_machine.Api.Router.Limits.{arrival, serve_all-db, serve_all-limit}
use api_time_machine.Text.{trim_prefix}
use api_time_machine.Examples.{two_events}
use api_time_machine.Examples.Reads.{server, get_ann}

abbrev authenticator : Authenticator
authenticator = record { secret = "s3cret"; issuer = "time-machine" }

abbrev reader_claims : Claims
reader_claims = record { subject = "bob"; role = "reader" }

abbrev read_any : String → String → Option Claims
read_any secret token = some reader_claims

abbrev sign : String → Signed → Option String
sign secret claims = some claims.claims.role

-- POST to the second route of orders, which adds an item, and GET of a user.
abbrev choose : String → String → Option ℕ
choose method path = if str_eq method "POST" then some 22 else some 5

abbrev unrouted : Incoming → Response
unrouted i = write_error 404 "not found"

abbrev asks : String → String → Incoming
asks method path = record {
  at = 40;
  address = "10.0.0.1:5123";
  method = method;
  caller = record { path = path; authorization = "Bearer abc"; claims = none };
  request = get_ann;
}

abbrev requests : List Incoming
requests = asks "POST" "/orders/o1/items" ∷ asks "GET" "/users/u1" ∷ []

abbrev site : Site
site = record { limiter = limiter; world = two_events }

reader_only : (c : Claims) → some reader_claims ≡ some c → writes c.role ≡ false
reader_only c e =
    let same : reader_claims ≡ c = cc (e) in subst (λ c. writes c.role ≡ false) same refl

serve_all-db_example :
    (serve_all read_any sign choose unrouted
      (some authenticator)
      server
      requests
      site).site.world.db
    ≡ two_events.db
serve_all-db_example =
    serve_all-db read_any sign choose unrouted authenticator server requests site replay_user-Keeps
      refl ((refl, reader_only), ((refl, reader_only), tt))

serve_all-limit_example :
    length (
      filter (counts 60000000000 "10.0.0.1" 50) (
        map arrival
          (serve_all read_any sign choose unrouted
            (some authenticator)
            server
            requests
            site).admitted))
    ≤ 300
serve_all-limit_example =
    serve_all-limit read_any sign choose unrouted (some authenticator) server requests two_events 10
      50 "10.0.0.1" (omega arith, (omega arith, tt)) (omega arith)

client_key-with_port_example :
    (client_key "10.0.0.1:5123" ≡ "10.0.0.1")
    × (client_key "10.0.0.1:80" ≡ client_key "10.0.0.1:5123")
unfolding has
client_key-with_port_example =
    client_key-with_port "10.0.0.1" "5123" "80" (refl, refl, refl) (refl, refl, refl)
      (refl, refl, refl)

-- Tokens that are signed with HS256 and "s3cret".
abbrev writer_claims : Claims
writer_claims = record { subject = "ann"; role = "writer" }

abbrev verifies : Method → String → String → Bool
verifies hs256 k token = str_eq k "s3cret" && str_eq token "abc"
verifies (other name) k token = false

abbrev with_key : String → Option String → Option Token
with_key token none = none
with_key token (some k) =
    if verifies hs256 k token
    then some (record { method = hs256; claims = writer_claims; valid = true })
    else none

abbrev parse_with_claims : (Method → Option String) → String → Option Token
parse_with_claims key token = with_key token (key hs256)

abbrev signed : Token
signed = record { method = hs256; claims = writer_claims; valid = true }

made :
    (b : Bool) (t : Token) → (if b then some signed else none) ≡ some t → (b ≡ true) × (signed ≡ t)
made true t h = (refl, cc)
made false t h = cc

parse_with_claims-Verifying : Verifying parse_with_claims verifies
parse_with_claims-Verifying key token t h = go (key hs256) refl h
  where
    go :
        (o : Option String)
        → key hs256 ≡ o
        → with_key token o ≡ some t
        → (k : String) × (key t.method ≡ some k) × (verifies t.method k token ≡ true)
    go none e h = absurd (cc (h))
    go (some k) e h =
        let (verified, same) = made (verifies hs256 k token) t h in
        subst
          (λ (t : Token).
            (k : String) × (key t.method ≡ some k) × (verifies t.method k token ≡ true))
          same (k, e, verified)

abbrev put_user : Auth.Request
put_user = record { path = "/users/u1"; authorization = "Bearer abc"; claims = none }

writer_token_example :
    (c : Claims) × (verifies hs256 authenticator.secret (trim_prefix put_user.authorization bearer)
      ≡ true)
    × (writes c.role ≡ true)
    × (record put_user { claims = some writer_claims } ≡ record put_user { claims = some c })
unfolding middleware require_write parse key_of
writer_token_example =
    writer_token parse_with_claims verifies parse_with_claims-Verifying authenticator put_user
      (record put_user { claims = some writer_claims }) refl refl refl
