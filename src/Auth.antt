-- ===== src/Auth.antt =====
-- internal/auth/jwt.go: who may call what. The verification of tokens (golang-jwt) is a parameter:
-- `parse` gives the claims of a token that `ParseWithClaims` accepts.
pub mod Access
pub mod Token
use text.Mathlib.Text.{starts_with}
use Prim.Native.String
use api_time_machine.Text.{trim_prefix}
use api_time_machine.Json.{Time}
use api_time_machine.Prelude.{
  ℕ, ◌+◌, String, Bool, true, false, not, ◌&&◌, ◌||◌, Option, none, some, str_eq, if◌then◌else◌,
}

abbrev pub role_admin : String
role_admin = "admin"

abbrev pub role_writer : String
role_writer = "writer"

abbrev pub role_reader : String
role_reader = "reader"

pub record Claims : Type 0 where
  pub subject : String
  pub role : String

pub record Authenticator : Type 0 where
  pub secret : String
  pub issuer : String

-- `Enabled`
abbrev pub enabled : Authenticator → Bool
enabled a = not (str_eq a.secret "")

-- What the middleware reads of a request, and the claims in its context.
pub record Request : Type 0 where
  pub path : String
  pub authorization : String
  pub claims : Option Claims

-- What a handler answers before any other code runs, or the request that it passes on.
pub data Outcome : Type 0 where
  unauthorized : Outcome
  invalid_token : Outcome
  forbidden : Outcome
  pass : Request → Outcome

abbrev pub is_open : String → Bool
is_open path = str_eq path "/health" || str_eq path "/metrics" || starts_with path "/ui"

abbrev pub bearer : String
bearer = "Bearer "

abbrev pub with_claims : Request → Option Claims → Outcome
with_claims r none = invalid_token
with_claims r (some c) = pass (record r { claims = some c })

module _ (parse : String → String → Option Claims) where
  -- `Authenticator.Middleware`
  unfoldable pub middleware : Authenticator → Request → Outcome
  middleware a r =
      if not (enabled a)
      then pass r
      else if is_open r.path
      then pass r
      else if not (starts_with r.authorization bearer)
      then unauthorized
      else with_claims r (parse a.secret (trim_prefix r.authorization bearer))

abbrev pub writes : String → Bool
writes role = str_eq role role_admin || str_eq role role_writer

abbrev pub replays : String → Bool
replays role = str_eq role role_admin || str_eq role role_reader || str_eq role role_writer

abbrev pub allowed : (String → Bool) → Request → Option Claims → Outcome
allowed may r none = pass r
allowed may r (some c) = if may c.role then pass r else forbidden

-- `RequireWrite`
unfoldable pub require_write : Request → Outcome
require_write r = allowed writes r r.claims

-- `RequireReplay`
unfoldable pub require_replay : Request → Outcome
require_replay r = allowed replays r r.claims

abbrev pub and_then : Outcome → (Request → Outcome) → Outcome
and_then (pass r) f = f r
and_then o f = o

-- The claims that `Issue` signs.
pub record Signed : Type 0 where
  pub claims : Claims
  pub issuer : String
  pub issued_at : Time
  pub expires_at : Time

module _ (sign : String → Signed → Option String) where
  -- `Authenticator.Issue`: `sign` is HS256 under the secret.
  unfoldable pub issue : Authenticator → String → String → ℕ → Time → Option String
  issue a subject role ttl now = sign a.secret (record {
    claims = record { subject = subject; role = role };
    issuer = a.issuer;
    issued_at = now;
    expires_at = now + ttl;
  })
