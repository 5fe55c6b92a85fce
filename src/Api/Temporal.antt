-- ===== src/Api/Temporal.antt =====
-- Versions in the requests that read.
use api_time_machine.Prelude.{String, ◌≡◌, refl, ap, ◌∙◌, false, some, str_eq, if◌then◌else◌}
use api_time_machine.Prelude.Int.{ℤ, Int64}
use api_time_machine.Domain.{ReplayQuery}
use api_time_machine.Aggregate.User.{User, marshal_snapshot}
use api_time_machine.Projection.{current_user}
use api_time_machine.Text.{codes, parse_int, show}
use api_time_machine.Text.Decimal.{parse_int-show, show-filled}
use api_time_machine.Query.{at_version, parse_replay_query}
use api_time_machine.World.{World, M}
use api_time_machine.Result.{Result, ok, err}
use api_time_machine.Api.{write_error, Server, Request, Handler, answer}
use api_time_machine.Api.Reads.{replay_query, has_bounds, get_entity}
use api_time_machine.Api.Users.{get_user}

only_version :
    (v : String) (n : ℤ)
    → str_eq v "" ≡ false
    → parse_int v ≡ some n
    → parse_replay_query "" v ≡ ok (at_version n)
unfolding parse_replay_query
only_version v n filled e = rw (filled, e) refl

-- A read whose bounds are parsed already.
abbrev get_read : (ReplayQuery → M User) → M User → Result ReplayQuery → Handler
unfolding has_bounds answer
get_read replay current q w = elim q [
  | err e ↦ (write_error 400 "", w)
  | ok q ↦
      if has_bounds q
      then answer marshal_snapshot (replay q) w
      else answer marshal_snapshot current w
]

-- A user that is asked for at an int64 version, written as its number, and at no instant, is what
-- the replay at that version answers.
pub get_user-version :
    (s : Server) (r : Request) (n : ℤ) (w : World)
    → Int64 n
    → r.param "at" ≡ ""
    → codes (r.param "version") ≡ show n
    → get_user s r w ≡ answer marshal_snapshot (s.replay_user r.id (at_version n)) w
unfolding get_user get_entity replay_query has_bounds
get_user-version s r n w h at_empty e =
    ap (λ q. get_read (s.replay_user r.id) (current_user r.id) q w)
      (ap (λ at. parse_replay_query at (r.param "version")) at_empty
        ∙ only_version (r.param "version") n (show-filled n (r.param "version") e)
            (parse_int-show n (r.param "version") h e))
