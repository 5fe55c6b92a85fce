-- ===== src/Auth/Token.antt =====
-- internal/auth/jwt.go: `Parse`. golang-jwt is a parameter: `parse_with_claims` takes the function that
-- gives the key of a signing method.

use api_time_machine.Prelude.{
  String, Bool, true, false, ◌≡◌, refl, sym, ap, ◌∙◌, Option, none, some, inl, inr, Option-cases,
  if◌then◌else◌,
}
use api_time_machine.Text.{trim_prefix}
use api_time_machine.Auth.{
  Claims, Authenticator, Request, pass, enabled, is_open, bearer, writes, middleware, require_write,
  and_then,
}
use api_time_machine.Auth.Access.{writer_only}

pub data Method : Type 0 where
  hs256 : Method
  other : String → Method

-- `jwt.Token`
pub record Token : Type 0 where
  pub method : Method
  pub claims : Claims
  pub valid : Bool

-- The key function of `Parse`: an error for every other method.
unfoldable pub key_of : String → Method → Option String
key_of secret hs256 = some secret
key_of secret (other name) = none

abbrev pub claims_of : Option Token → Option Claims
claims_of none = none
claims_of (some t) = if t.valid then some t.claims else none

module _ (parse_with_claims : (Method → Option String) → String → Option Token) where
  -- `Authenticator.Parse`
  unfoldable pub parse : String → String → Option Claims
  unfolding key_of
  parse secret token = claims_of (parse_with_claims (key_of secret) token)

  -- What golang-jwt documents: a token that it returns verifies under the key that the function gave
  -- for the token's method.
  abbrev pub Verifying : (Method → String → String → Bool) → Type 0
  Verifying verifies =
      (key : Method → Option String) (token : String) (t : Token)
      → parse_with_claims key token ≡ some t
      → (k : String) × (key t.method ≡ some k) × (verifies t.method k token ≡ true)

  key_of-some :
      (secret k : String) (m : Method) → key_of secret m ≡ some k → (m ≡ hs256) × (k ≡ secret)
  unfolding key_of
  key_of-some secret k hs256 h = (refl, cc)
  key_of-some secret k (other name) h = cc

  -- Where golang-jwt returns only tokens that verify under the key that the key function gave for
  -- their method, authentication is enabled and the path is not an open one, a request that passes
  -- the middleware and RequireWrite has a token that verifies with HS256 under the secret, and is
  -- passed on with claims whose role is admin or writer and otherwise unchanged.
  pub writer_token :
      (verifies : Method → String → String → Bool)
      → Verifying verifies
      → (a : Authenticator) (r passed : Request) → enabled a ≡ true
      → is_open r.path ≡ false
      → and_then (middleware parse a r) require_write ≡ pass passed
      → (c : Claims) × (verifies hs256 a.secret (trim_prefix r.authorization bearer) ≡ true)
        × (writes c.role ≡ true)
        × (passed ≡ record r { claims = some c })
  unfolding parse
  writer_token verifies documented a r passed on closed h =
      let (c, starts, parsed, may, same) = writer_only parse a r passed on closed h in
      let token = trim_prefix r.authorization bearer in
      elim (Option-cases (parse_with_claims (key_of a.secret) token)) [
        | inl e ↦ absurd (none-ne-some c (sym (ap claims_of e) ∙ parsed))
        | inr (t, e) ↦
            let (k, given, verified) = documented (key_of a.secret) token t e in
            let (is_hs, is_secret) = key_of-some a.secret k t.method given in (c, cc, may, same)
      ]
    where
      none-ne-some : (c : Claims) → ¬ (claims_of none ≡ some c)
      none-ne-some c e = cc
