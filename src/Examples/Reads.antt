-- ===== src/Examples/Reads.antt =====
-- Requests that read: bounds, routes, tokens and the cache.
use Prim.Native.String
use api_time_machine.Result.{ok}
use api_time_machine.Prelude.{
  ℕ, String, ◌≡◌, refl, arith, Bool, true, false, ◌&&◌, ◌==◌, str_eq, ◌+◌, Option, none, some, List,
  [], ◌∷◌, inl, inr, if◌then◌else◌, Bool-cases, ap₂,
}
use api_time_machine.Prelude.Int.{pos, negsuc}
use api_time_machine.Json.{Json, object, str}
use api_time_machine.Text.{codes, show, show_nat, show_from}
use api_time_machine.Query.{at_version, at_instant, parse_bound}
use api_time_machine.Domain.{ReplayQuery}
use api_time_machine.Query.Bounds.{parse_bound-version}
use api_time_machine.Auth
use api_time_machine.Auth.{Claims, Signed, Authenticator, bearer, writes}
use api_time_machine.Replay
use api_time_machine.World.{quiet}
use api_time_machine.Api
use api_time_machine.Api.{Server, answer, day}
use api_time_machine.Api.Routes.{token_route, token_answer, serve, decode_token_request}
use api_time_machine.Api.Routes.Guards.{any_role}
use api_time_machine.Cache.{cache_key}
use api_time_machine.Cache
use api_time_machine.Cache.Keys.{cache_key-eq, asked}
use api_time_machine.Cache.Coherent.{ReadKeeps, WriteSets, Coherent, replay_user-Coherent}
use api_time_machine.Examples.{two_events}

parse_bound-version_example :
    (parse_bound (String.◌++◌ "v" "-12") ≡ ok (at_version (negsuc 11)))
    × (parse_bound "-12" ≡ ok (at_version (negsuc 11)))
unfolding show show_nat show_from
parse_bound-version_example = parse_bound-version (negsuc 11) "-12" (omega arith, omega arith) refl

abbrev pub server : Server
server = record {
  replay_user = Replay.replay_user;
  idempotency = false;
  snapshot_n = pos 10;
  from_locations = λ r. record { created_at = 1; updated_at = 1 };
  to_locations = λ r. record { created_at = 1; updated_at = 1 };
}

abbrev pub at_one : String → String
at_one k = if str_eq k "version" then "1" else ""

abbrev pub get_ann : Api.Request
get_ann = record {
  id = "u1";
  body = none;
  actor = "";
  correlation_id = "";
  trace_id = "";
  idempotency_key = "";
  if_match = "";
  param = at_one;
  content_length = pos 0;
}

abbrev authenticator : Authenticator
authenticator = record { secret = "s3cret"; issuer = "time-machine" }

abbrev reader_claims : Claims
reader_claims = record { subject = "bob"; role = "reader" }

abbrev parse : String → String → Option Claims
parse secret token = some reader_claims

abbrev sign : String → Signed → Option String
sign secret claims = some claims.claims.role

abbrev bob : String → Auth.Request
bob path = record { path = path; authorization = "Bearer abc"; claims = none }

abbrev ask_admin : Json
ask_admin = object (("subject", str "bob") ∷ ("role", str "reader") ∷ ("ROLE", str "admin") ∷ [])

any_role_example :
    serve parse
      (some authenticator)
      server
      (token_route sign (some authenticator))
      (bob "/auth/token")
      (record get_ann { body = some ask_admin })
      two_events
    ≡ (
      token_answer (
          sign "s3cret" (record {
            claims = record { subject = "bob"; role = "admin" };
            issuer = "time-machine";
            issued_at = two_events.now;
            expires_at = two_events.now + day;
          })),
      two_events,
    )
unfolding decode_token_request
any_role_example =
    any_role parse sign authenticator server (bob "/auth/token")
      (record get_ann { body = some ask_admin }) two_events reader_claims refl refl

-- The second 1 of the Unix time.
abbrev at_start : ReplayQuery
at_start = at_instant 62135596801000000000

cache_key-eq_example : (codes "u1" ≡ codes "u1") × (asked at_start ≡ asked at_start)
cache_key-eq_example =
    cache_key-eq "user" "u1" "u1" at_start at_start tt tt (omega arith, omega arith)
      (omega arith, omega arith) refl

-- A cache that holds the last entry.
abbrev Last : Type 0
Last = Option (List ℕ × Json)

abbrev same : List ℕ → List ℕ → Bool
same [] [] = true
same [] (y ∷ ys) = false
same (x ∷ xs) [] = false
same (x ∷ xs) (y ∷ ys) = x == y && same xs ys

same-eq : (xs ys : List ℕ) → same xs ys ≡ true → xs ≡ ys
same-eq [] [] h = refl
same-eq [] (y ∷ ys) h = cc
same-eq (x ∷ xs) [] h = cc
same-eq (x ∷ xs) (y ∷ ys) h =
    let e : x ≡ y = ground (arith, h) in ap₂ (λ a b. a ∷ b) e (same-eq xs ys (ground (arith, h)))

abbrev get : List ℕ → Last → Option Json × Last
get k none = (none, none)
get k (some (k', v)) = (if same k k' then some v else none, some (k', v))

abbrev set : List ℕ → Json → ℕ → Last → Last
set k v ttl c = some (k, v)

get-ReadKeeps : ReadKeeps get set
get-ReadKeeps k k' none raw h = h
get-ReadKeeps k k' (some e) raw h = h

set-WriteSets : WriteSets get set
set-WriteSets k k' v ttl c raw h = elim (Bool-cases (same k' k)) [
  | inl e ↦ inl (same-eq k' k e, ground (arith, h, e))
  | inr e ↦ absurd (ground (arith, h, e))
]

empty-Coherent : Coherent get set two_events none
empty-Coherent id q raw u simple h is_user = absurd (cc (h))

replay_user-Coherent_example :
    let out = Cache.replay_user get set true 60 "u1" (at_version (pos 1)) (quiet two_events) none in
    (out.0 ≡ (Replay.replay_user "u1" (at_version (pos 1)) (quiet two_events)).0)
    × Coherent get set two_events out.1.1
replay_user-Coherent_example =
    replay_user-Coherent get set get-ReadKeeps set-WriteSets two_events true 60 "u1"
      (at_version (pos 1)) none
      (record {
        int64 = (omega arith, omega arith);
        in_era = tt;
        one_bound = inr refl;
        no_event = refl;
      })
      empty-Coherent
