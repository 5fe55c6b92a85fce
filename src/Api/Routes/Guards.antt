-- ===== src/Api/Routes/Guards.antt =====
-- internal/api/server.go: what the checks in front of the routes leave to whom.
use text.Mathlib.Text.{starts_with}
use api_time_machine.Prelude.{
  Bool-cases, arith, String, ◌≡◌, refl, sym, ◌∙◌, ap, Bool, true, false, Option, none, some, All,
  All-map, not, ◌≢◌, ◌+◌, inl, inr, if◌then◌else◌, str_eq,
}
use api_time_machine.Json.{Json, Time}
use api_time_machine.Domain.{ReplayQuery}
use api_time_machine.Text.{trim_prefix}
use api_time_machine.Auth
use api_time_machine.Auth.{
  Claims, Signed, Authenticator, Outcome, unauthorized, invalid_token, forbidden, pass, enabled,
  is_open, bearer, writes, middleware, require_write, and_then, issue, with_claims,
}
use api_time_machine.Auth.Access.{writer_only}
use api_time_machine.World.{World}
use api_time_machine.World.Unchanged.{Keeps}
use api_time_machine.Result.{Result, ok, err}
use api_time_machine.Api.{Server, Request, Response, Handler, write_error, decode_body, day}
use api_time_machine.Api.Routes.{
  TokenRequest, decode_token_request, token_answer, token_of, issue_token, Route, unguarded,
  token_route, routes, answer_outcome, admit, authenticate, serve,
}
use api_time_machine.Api.Routes.Table.{Guarded, routes-Guarded}

-- What an outcome of the checks leaves of a world.
pub outcome-unchanged :
    (o : Outcome) (h : Handler) (w : World)
    → ((r : Auth.Request) → o ≡ pass r → (h w).1.db ≡ w.db)
    → (answer_outcome o h w).1.db ≡ w.db
outcome-unchanged unauthorized h w k = refl
outcome-unchanged invalid_token h w k = refl
outcome-unchanged forbidden h w k = refl
outcome-unchanged (pass r) h w k = k r refl

-- When authentication is enabled, the path is not an open one and the caller's header holds no
-- token that verifies with the role admin or writer, no route changes a table, as long as the
-- replay of users changes none.
pub unchanged_without_writer :
    (parse : String → String → Option Claims) (sign : String → Signed → Option String)
    (a : Authenticator) (s : Server) (caller : Auth.Request) (r : Request) (w : World)
    → ((id : String) (q : ReplayQuery) → Keeps (s.replay_user id q))
    → enabled a ≡ true
    → is_open caller.path ≡ false
    → ((c : Claims)
        → parse a.secret (trim_prefix caller.authorization bearer) ≡ some c
        → writes c.role ≡ false)
    → All (λ route. (serve parse (some a) s route caller r w).1.db ≡ w.db) (routes sign (some a))
unfolding serve require_write admit authenticate middleware
unchanged_without_writer parse sign a s caller r w keeps on closed no_writer =
    All-map (Guarded s r) (λ route. (serve parse (some a) s route caller r w).1.db ≡ w.db)
      (routes sign (some a)) one (routes-Guarded s keeps r sign (some a))
  where
    refused :
        (passed : Auth.Request) → and_then (middleware parse a caller) require_write ≢ pass passed
    refused passed h =
        let (c, _, e, may, _) = writer_only parse a caller passed on closed h in
        let e' = no_writer c e in cc

    one :
        (route : Route) → Guarded s r route → (serve parse (some a) s route caller r w).1.db ≡ w.db
    one route (inl guarded) =
        outcome-unchanged (and_then (middleware parse a caller) (admit route.guard))
          (route.handler s r) w
          λ p e.
            absurd (
              refused p
                (ap (λ g. and_then (middleware parse a caller) (admit g)) (sym guarded) ∙ e))
    one route (inr reads) =
        outcome-unchanged (and_then (middleware parse a caller) (admit route.guard))
          (route.handler s r) w λ p e. reads w

gate-pass :
    (checks open_path starts : Bool) (caller : Auth.Request) (verified : Option Claims) (c : Claims)
    → starts ≡ true
    → verified ≡ some c
    → (p : Auth.Request) × (and_then
          (if not checks
            then pass caller
            else if open_path
            then pass caller
            else if not starts
            then unauthorized
            else with_claims caller verified)
          (admit unguarded)
        ≡ pass p)
unfolding admit
gate-pass false open_path starts caller verified c e h = (caller, refl)
gate-pass true true starts caller verified c e h = (caller, refl)
gate-pass true false true caller (some c') c e h = (record caller { claims = some c' }, refl)
gate-pass true false false caller verified c e h = cc
gate-pass true false true caller none c e h = cc

-- A caller whose token verifies passes the checks in front of an unguarded route.
verified-pass :
    (parse : String → String → Option Claims) (a : Authenticator) (caller : Auth.Request)
    (c : Claims)
    → starts_with caller.authorization bearer ≡ true
    → parse a.secret (trim_prefix caller.authorization bearer) ≡ some c
    → (p : Auth.Request) × (and_then (middleware parse a caller) (admit unguarded) ≡ pass p)
unfolding middleware
verified-pass parse a caller c =
    gate-pass (enabled a) (is_open caller.path) (starts_with caller.authorization bearer) caller
      (parse a.secret (trim_prefix caller.authorization bearer)) c

-- What the caller of /auth/token is answered, by what the body asks for.
abbrev pub answer_by_body :
    (String → Signed → Option String) → Authenticator → Result TokenRequest → Time → Response
answer_by_body sign a (err e) now = write_error 400 "invalid json"
answer_by_body sign a (ok req) now = token_answer (
    sign a.secret (record {
      claims = record {
        subject = req.subject;
        role = if str_eq req.role "" then "reader" else req.role;
      };
      issuer = a.issuer;
      issued_at = now;
      expires_at = now + day;
    }))

abbrev pub answer_to_all :
    (String → Signed → Option String) → Authenticator → Option Json → Time → Response
answer_to_all sign a body now =
    if enabled a
    then answer_by_body sign a (decode_body body decode_token_request) now
    else write_error 501 "auth disabled"

-- The end of the handler that issues a token.
abbrev token_made :
    (String → Signed → Option String)
    → Authenticator
    → World
    → Result TokenRequest
    → Response × World
token_made sign a w made = elim made [
  | err e ↦ (write_error 400 "invalid json", w)
  | ok req ↦ (token_of sign a req w.now, w)
]

issue_token-answer :
    (sign : String → Signed → Option String) (a : Authenticator) (r : Request) (w : World)
    → issue_token sign (some a) r w ≡ (answer_to_all sign a r.body w.now, w)
unfolding issue_token issue
issue_token-answer sign a r w = elim (Bool-cases (enabled a)) [
  | inr off ↦ rw off refl
  | inl on ↦ rw on (decoded (decode_body r.body decode_token_request))
]
  where
    decoded :
        (made : Result TokenRequest)
        → token_made sign a w made ≡ (answer_by_body sign a made w.now, w)
    decoded (err e) = refl
    decoded (ok req) = ground arith

-- A caller of /auth/token whose token verifies, whatever its role, gets the answer that the body
-- alone decides, and no table changes: 501 if authentication is off, 400 if the body does not
-- decode, and otherwise what the signing gives, a token for the subject and the role of the body,
-- reader if that is empty, that is valid for a day, or 500 if it fails.
pub any_role :
    (parse : String → String → Option Claims) (sign : String → Signed → Option String)
    (a : Authenticator) (s : Server) (caller : Auth.Request) (r : Request) (w : World) (c : Claims)
    → starts_with caller.authorization bearer ≡ true
    → parse a.secret (trim_prefix caller.authorization bearer) ≡ some c
    → serve parse (some a) s (token_route sign (some a)) caller r w
      ≡ (answer_to_all sign a r.body w.now, w)
unfolding serve authenticate middleware
any_role parse sign a s caller r w c starts verified =
    let (p, passes) = verified-pass parse a caller c starts verified in
    ap (λ o. answer_outcome o (issue_token sign (some a) r) w) passes
    ∙ issue_token-answer sign a r w
