-- ===== src/Auth/Access.antt =====
-- What the middleware guarantees to the handlers behind it.
use text.Mathlib.Text.{starts_with}
use api_time_machine.Prelude.{
  String, true, false, ◌≡◌, arith, Option, none, some, Option-cases, inl, inr,
}
use api_time_machine.Text.{trim_prefix}
use api_time_machine.Auth.{
  Claims, Authenticator, Request, pass, enabled, is_open, bearer, writes, middleware, require_write,
  and_then,
}

-- When authentication is enabled and the path is not an open one, a request that passes the
-- middleware and RequireWrite has a Bearer token that verifies against the secret, with the role
-- admin or writer, and is passed on with the claims of that token and otherwise unchanged.
pub writer_only :
    (parse : String → String → Option Claims) (a : Authenticator) (r passed : Request)
    → enabled a ≡ true
    → is_open r.path ≡ false
    → and_then (middleware parse a r) require_write ≡ pass passed
    → (c : Claims) × (starts_with r.authorization bearer ≡ true)
      × (parse a.secret (trim_prefix r.authorization bearer) ≡ some c)
      × (writes c.role ≡ true)
      × (passed ≡ record r { claims = some c })
unfolding middleware require_write
writer_only parse a r passed on closed h =
    elim (Option-cases (parse a.secret (trim_prefix r.authorization bearer))) [
      | inl e ↦ ground (arith, e)
      | inr (c, e) ↦ (c, ground (arith, e), e, ground (arith, e), ground (arith, e))
    ]

-- Without a secret nothing is checked: every request that carries no claims passes.
pub open_when_disabled :
    (parse : String → String → Option Claims) (a : Authenticator) (r : Request)
    → enabled a ≡ false
    → r.claims ≡ none
    → and_then (middleware parse a r) require_write ≡ pass r
unfolding middleware require_write
open_when_disabled parse a r off h = ground arith
