-- ===== src/Api/Routes/Reading.antt =====
-- internal/api/helpers.go: handlers that change no table.

use api_time_machine.Prelude.{
  String, ◌≡◌, refl, arith, Bool, true, false, Option, none, some, not, if◌then◌else◌,
}
use api_time_machine.Json.{Json}
use api_time_machine.Domain.{ReplayQuery}
use api_time_machine.Diff.{Value, Locations, compare}
use api_time_machine.Prelude.Assoc.{Assoc}
use api_time_machine.Auth.{Signed, Authenticator, enabled}
use api_time_machine.Query.{optional}
use api_time_machine.Text.Instant.{parse_time}
use api_time_machine.World.{World, M, ◌>>=◌, pure}
use api_time_machine.World.Unchanged.{
  Keeps, Keeps-bind, history-Keeps, timeline-Keeps, search_events-Keeps,
}
use api_time_machine.Result.{Result, ok, err}
use api_time_machine.Api.{
  Server, Request, Response, Handler, write_error, answer, with_body, decode_body,
}
use api_time_machine.Api.Reads.{
  get_entity, replay_query, has_bounds, entity_history, entity_timeline, entity_diff,
  bounds_or_error, time_or_version, search_events, search_filter, search_results, search_bound,
}
use api_time_machine.Api.Routes.{decode_token_request, token_of, issue_token}

-- A handler that changes no table.
abbrev pub Reads : Handler → Type 0
Reads h = (w : World) → (h w).1.db ≡ w.db

-- A handler that goes on with what was parsed.
parsed-Reads :
    {A : Type 0} (made : Result A) (refused : Response) (next : A → Handler)
    → ((a : A) → Reads (next a))
    → Reads (λ w. elim made [ err e ↦ (refused, w) | ok a ↦ next a w ])
parsed-Reads (err e) refused next h w = refl
parsed-Reads (ok a) refused next h w = h a w

if-Reads : (b : Bool) (h k : Handler) → Reads h → Reads k → Reads (λ w. if b then h w else k w)
if-Reads true h k p q w = p w
if-Reads false h k p q w = q w

pub answer-Reads : {A : Type 0} (encode : A → Json) (m : M A) → Keeps m → Reads (answer encode m)
unfolding answer
answer-Reads encode m h w = ground (arith, h w)

pub get_entity-Reads :
    {A : Type 0} (encode : A → Json) (replay : ReplayQuery → M A) (current : M A) (r : Request)
    → ((q : ReplayQuery) → Keeps (replay q))
    → Keeps current
    → Reads (get_entity encode replay current r)
unfolding get_entity
get_entity-Reads encode replay current r h k w =
    parsed-Reads (replay_query r) (write_error 400 "")
      (λ q w. if has_bounds q then answer encode (replay q) w else answer encode current w)
      (λ q.
        if-Reads (has_bounds q) (answer encode (replay q)) (answer encode current)
          (answer-Reads encode (replay q) (h q)) (answer-Reads encode current k))
      w

pub history-Reads : (t : String) (r : Request) → Reads (entity_history t r)
unfolding entity_history
history-Reads t r w = history-Keeps t r.id w

pub timeline-Reads : (t : String) (r : Request) → Reads (entity_timeline t r)
unfolding entity_timeline
timeline-Reads t r w = timeline-Keeps t r.id w

pub diff-Reads :
    {A : Type 0} (to_map : Locations → A → Assoc Value) (s : Server) (r : Request)
    (replay : ReplayQuery → M A) (from to : ReplayQuery)
    → ((q : ReplayQuery) → Keeps (replay q))
    → Reads (entity_diff to_map s r (replay from) (replay to))
unfolding entity_diff
diff-Reads to_map s r replay from to h =
    let left = to_map (s.from_locations r) in
    let right = to_map (s.to_locations r) in
    answer-Reads _ (replay from >>= λ a. replay to >>= λ b. pure (compare (left a) (right b))) (
      Keeps-bind (replay from) (λ a. replay to >>= λ b. pure (compare (left a) (right b))) (h from)
        λ a. Keeps-bind (replay to) (λ b. pure (compare (left a) (right b))) (h to) (λ b w. refl))

pub bounds-Reads :
    (r : Request) (next : ReplayQuery → ReplayQuery → Handler)
    → ((from to : ReplayQuery) → Reads (next from to))
    → Reads (bounds_or_error r next)
unfolding bounds_or_error
bounds-Reads r next h w =
    parsed-Reads (time_or_version r "from") (write_error 400 "invalid from parameter")
      (λ from w. elim (time_or_version r "to") [
        | err e ↦ (write_error 400 "invalid to parameter", w)
        | ok to ↦ next from to w
      ])
      (λ from.
        parsed-Reads (time_or_version r "to") (write_error 400 "invalid to parameter") (next from)
          (h from))
      w

pub search-Reads : (r : Request) → Reads (search_events r)
unfolding search_events
search-Reads r =
    parsed-Reads (optional parse_time (r.param "from")) (write_error 400 "invalid from")
      (λ from. search_bound "to" "invalid to" r λ to. search_results (search_filter r from to))
      λ from.
        parsed-Reads (optional parse_time (r.param "to")) (write_error 400 "invalid to")
          (λ to. search_results (search_filter r from to))
          λ to w. search_events-Keeps (search_filter r from to) w

pub token-Reads :
    (sign : String → Signed → Option String) (auth : Option Authenticator) (r : Request)
    → Reads (issue_token sign auth r)
unfolding issue_token
token-Reads sign none r w = refl
token-Reads sign (some a) r w =
    if-Reads (not (enabled a)) (λ w. (write_error 501 "auth disabled", w))
      (with_body r decode_token_request λ req w. (token_of sign a req w.now, w)) (λ w. refl)
      (parsed-Reads (decode_body r.body decode_token_request) (write_error 400 "invalid json")
        (λ req w. (token_of sign a req w.now, w)) (λ req w. refl))
      w
