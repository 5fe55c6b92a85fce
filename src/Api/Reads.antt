-- ===== src/Api/Reads.antt =====
-- internal/api/helpers.go: the handlers that read, as far as users, products and orders share them.
use api_time_machine.Prelude.{
  String, Bool, true, false, ◌||◌, Option, none, some, List, [], ◌∷◌, if◌then◌else◌,
}
use api_time_machine.Prelude.Assoc.{Assoc}
use api_time_machine.Prelude.Int.{pos, ltb_ℤ}
use api_time_machine.Json.{Json, Time, Fields, end, field, null, num, str, time, obj, names_field}
use api_time_machine.Domain.{StoredEvent, ReplayQuery, is_some}
use api_time_machine.EventStore
use api_time_machine.EventStore.{SearchFilter}
use api_time_machine.Diff.{Value, Locations, compare}
use api_time_machine.Text.Instant.{parse_time}
use api_time_machine.Query.{no_bounds, parse_replay_query, parse_bound, optional}
use api_time_machine.World.{M, ◌>>=◌, pure}
use api_time_machine.Result.{Result, ok, err}
use api_time_machine.Api.{Server, Request, Response, Handler, write_error, answer}
use api_time_machine.Api.Encode.{encode_event, encode_entry, encode_diff, encode_slice}

-- `parseReplayQuery`, with the statements of `temporal.ParseReplayQuery`, and `toDomain`
unfoldable pub replay_query : Request → Result ReplayQuery
unfolding parse_replay_query
replay_query r = parse_replay_query (r.param "at") (r.param "version")

-- `replayQueryParams.isTemporal`
unfoldable pub has_bounds : ReplayQuery → Bool
has_bounds q = is_some q.at || is_some q.version

-- `parseTimeOrVersionParam`, with the statements of `temporal.ParseBound`
unfoldable pub time_or_version : Request → String → Result ReplayQuery
unfolding parse_bound
time_or_version r key = parse_bound (r.param key)

-- The handlers that get one aggregate. The text of a parser's error is left out.
unfoldable pub get_entity :
    {A : Type 0} → (A → Json) → (ReplayQuery → M A) → M A → Request → Handler
unfolding replay_query has_bounds answer
get_entity encode replay current r w = elim (replay_query r) [
  | err e ↦ (write_error 400 "", w)
  | ok q ↦ if has_bounds q then answer encode (replay q) w else answer encode current w
]

-- The end of `entityHistory` and `entityTimeline`.
unfoldable pub listed : {A : Type 0} → (A → Json) → String → Result (List A) → Response
listed encode failed (err e) = write_error 500 failed
listed encode failed (ok []) = write_error 404 "not found"
listed encode failed (ok (x ∷ xs)) = record { status = 200; body = encode_slice encode (x ∷ xs) }

-- `Server.entityHistory`
unfoldable pub entity_history : String → Request → Handler
unfolding listed
entity_history aggregate_type r w =
    let (got, w') = EventStore.history aggregate_type r.id w in
    (listed encode_event "failed to load history" got, w')

-- `Server.entityTimeline`
unfoldable pub entity_timeline : String → Request → Handler
unfolding listed
entity_timeline aggregate_type r w =
    let (got, w') = EventStore.timeline aggregate_type r.id w in
    (listed encode_entry "failed to load timeline" got, w')

-- The bounds of `userDiff`: a bound that does not parse ends the handler.
unfoldable pub bounds_or_error : Request → (ReplayQuery → ReplayQuery → Handler) → Handler
unfolding time_or_version
bounds_or_error r next w = elim (time_or_version r "from") [
  | err e ↦ (write_error 400 "invalid from parameter", w)
  | ok from ↦ elim (time_or_version r "to") [
    | err e ↦ (write_error 400 "invalid to parameter", w)
    | ok to ↦ next from to w
  ]
]

-- `fromQ, _ := parseTimeOrVersionParam(r, "from")`: a bound that does not parse is no bound.
abbrev pub or_no_bounds : Result ReplayQuery → ReplayQuery
or_no_bounds (ok q) = q
or_no_bounds (err e) = no_bounds

-- The end of the handlers that compare two states.
unfoldable pub entity_diff :
    {A : Type 0} → (Locations → A → Assoc Value) → Server → Request → M A → M A → Handler
unfolding answer
entity_diff to_map s r from to = answer encode_diff (
    from >>= λ a.
    to >>= λ b. pure (compare (to_map (s.from_locations r) a) (to_map (s.to_locations r) b)))

-- Decoding of `replayRequest`. A text that is no instant leaves the zero time and ends the decoding; a
-- version that is no number leaves 0; the error itself is dropped.
abbrev at_text : Option Time → ReplayQuery → ReplayQuery × Bool
at_text none q = (record q { at = some 0 }, false)
at_text (some t) q = (record q { at = some t }, true)

abbrev at_field : Json → ReplayQuery → ReplayQuery × Bool
at_field null q = (record q { at = none }, true)
at_field (time t) q = (record q { at = some t }, true)
at_field (str s) q = at_text (parse_time s) q
at_field _ q = (record q { at = some 0 }, false)

abbrev version_field : Json → ReplayQuery → ReplayQuery
version_field null q = record q { version = none }
version_field (num n) q = record q { version = some n }
version_field _ q = record q { version = some (pos 0) }

unfoldable pub replay_fields : Fields → ReplayQuery → ReplayQuery
replay_fields end q = q
replay_fields (field k v rest) q = elim (names_field "at" k) [
  | true ↦ let (q', more) = at_field v q in elim more [ true ↦ replay_fields rest q' | false ↦ q' ]
  | false ↦ replay_fields rest (if names_field "version" k then version_field v q else q)
]

abbrev replay_body : Option Json → ReplayQuery
replay_body (some (obj fs)) = replay_fields fs no_bounds
replay_body _ = no_bounds

-- The body of a replay request, which is read only when its length is known.
unfoldable pub replay_request : Request → ReplayQuery
unfolding replay_fields
replay_request r = if ltb_ℤ (pos 0) r.content_length then replay_body r.body else no_bounds

-- A time parameter of `searchEvents`.
abbrev pub search_bound : String → String → Request → (Option Time → Handler) → Handler
search_bound key failed r next w = elim (optional parse_time (r.param key)) [
  | err e ↦ (write_error 400 failed, w)
  | ok t ↦ next t w
]

abbrev searched : Result (List StoredEvent) → Response
searched (err e) = write_error 500 "search failed"
searched (ok es) = record { status = 200; body = encode_slice encode_event es }

abbrev pub search_filter : Request → Option Time → Option Time → SearchFilter
search_filter r from to = record {
  aggregate_type = r.param "aggregate_type";
  aggregate_id = r.param "aggregate_id";
  event_type = r.param "event_type";
  actor = r.param "actor";
  correlation_id = r.param "correlation_id";
  from = from;
  to = to;
}

abbrev pub search_results : SearchFilter → Handler
search_results f w = let (got, w') = EventStore.search_events f w in (searched got, w')

-- `Server.searchEvents`
unfoldable pub search_events : Request → Handler
search_events r =
    search_bound "from" "invalid from" r
      λ from. search_bound "to" "invalid to" r λ to. search_results (search_filter r from to)
