-- ===== src/Api.antt =====
-- internal/api/helpers.go: what the handlers share. A request is what a handler reads of it; a handler
-- answers a response and leaves a world.
pub mod Idempotence
pub mod Encode
pub mod Reads
pub mod Users
pub mod Products
pub mod Orders
pub mod Routes
pub mod Router
pub mod Temporal
use Prim.Native.Char.{code}
use Prim.Native.String
use api_time_machine.Prelude.{
  ℕ, ◌+◌, ◌*◌, ◌-◌, ◌^◌, String, Bool, true, false, not, ◌&&◌, ◌||◌, Option, none, some, List, [],
  ◌∷◌, ltb, leb, str_eq, is_empty, if◌then◌else◌, ◌==◌,
}
use api_time_machine.Prelude.Int.{ℤ, pos, negsuc}
use api_time_machine.Json.{Json, str, object, as_fields, as_string, as_string_ptr, get_field}
use api_time_machine.Domain.{EventMetadata, ReplayQuery}
use api_time_machine.Aggregate.User.{User, marshal_snapshot}
use api_time_machine.Commands.{store_key, get_key}
use api_time_machine.Service
use api_time_machine.Diff.{Locations}
use api_time_machine.Text.{parse_int, trim_prefix}
use api_time_machine.World.{World, M}
use api_time_machine.Result.{
  Error, conflict, version_mismatch, not_found, decode_failed, db_failed, bad_syntax, Result, ok,
  err, ◌>>=◌,
}

-- `body` is `none` when it is no JSON document; a header or a parameter that is missing is "".
-- `param` is the query of the URL.
pub record Request : Type 0 where
  pub id : String
  pub body : Option Json
  pub actor : String
  pub correlation_id : String
  pub trace_id : String
  pub idempotency_key : String
  pub if_match : String
  pub param : String → String
  pub content_length : ℤ

pub record Response : Type 0 where
  pub status : ℕ
  pub body : Json

-- `Deps`: whether `Idempotency` is there, the snapshot interval of `Users`, and `Replay.ReplayUser`,
-- which may answer from the cache. `from_locations` and `to_locations` are the time.Location of the
-- instants of the two states that a request compares: the driver's for an event's row, and what
-- encoding/json makes of the text for a snapshot or an entry of the cache.
pub record Server : Type 0 where
  pub replay_user : String → ReplayQuery → M User
  pub idempotency : Bool
  pub snapshot_n : ℤ
  pub from_locations : Request → Locations
  pub to_locations : Request → Locations

abbrev pub Handler : Type 0
Handler = World → Response × World

-- `writeError`
abbrev pub write_error : ℕ → String → Response
write_error status msg = record { status = status; body = object (("error", str msg) ∷ []) }

-- `parseExpectedVersion`: a text that is no number is no expectation.
unfoldable pub parse_expected_version : Request → Option ℤ
unfolding parse_int
parse_expected_version r =
    let v = if str_eq r.if_match "" then r.param "expected_version" else r.if_match in
    if str_eq v "" then none else parse_int (trim_prefix v "v")

-- `extractMetadata`
unfoldable pub extract_metadata : Request → EventMetadata
extract_metadata r = record {
  actor = r.actor;
  correlation_id = r.correlation_id;
  trace_id = r.trace_id;
  idempotency_key = r.idempotency_key;
}

abbrev or_nothing : Result (Option (Json × ℕ)) → Option (Json × ℕ)
or_nothing (ok found) = found
or_nothing (err e) = none

-- `Server.checkIdempotency`: an error of the lookup counts as no answer.
unfoldable pub check_idempotency : Server → Request → World → Option (Json × ℕ) × World
unfolding get_key
check_idempotency s r w =
    if str_eq r.idempotency_key "" || not s.idempotency
    then (none, w)
    else let (found, w') = get_key r.idempotency_key w in (or_nothing found, w')

abbrev pub day : ℕ
day = 86400000000000

-- `Server.storeIdempotency`: its error is dropped.
unfoldable pub store_idempotency : Server → Request → Json → ℕ → World → World
unfolding store_key
store_idempotency s r body status w =
    if str_eq r.idempotency_key "" || not s.idempotency
    then w
    else (store_key r.idempotency_key body status day w).1

-- `Server.handleCommandError`
unfoldable pub handle_command_error : Error → Response
handle_command_error conflict = write_error 409 "aggregate conflict: version already exists"
handle_command_error version_mismatch = write_error 412 "expected version mismatch"
handle_command_error not_found = write_error 404 "aggregate not found"
handle_command_error decode_failed = write_error 500 "internal error"
handle_command_error db_failed = write_error 500 "internal error"
handle_command_error bad_syntax = write_error 500 "internal error"

-- The part that the three handlers have in common: from the lookup of the key to the answer.
unfoldable pub run : Server → Request → ℕ → M User → Handler
unfolding check_idempotency store_idempotency handle_command_error
run s r status command w =
    let (found, w1) = check_idempotency s r w in
    elim found [
      | some answer ↦ (record { status = answer.1; body = answer.0 }, w1)
      | none ↦
          let (made, w2) = command w1 in
          elim made [
            | err e ↦ (handle_command_error e, w2)
            | ok u ↦ (
              record { status = status; body = marshal_snapshot u },
              store_idempotency s r (marshal_snapshot u) status w2,
            )
          ]
    ]

-- A command of products and orders: no idempotency key.
unfoldable pub run_plain : {A : Type 0} → (A → Json) → ℕ → M A → Handler
unfolding handle_command_error
run_plain encode status command w =
    let (made, w') = command w in
    elim made [
      | err e ↦ (handle_command_error e, w')
      | ok a ↦ (record { status = status; body = encode a }, w')
    ]

-- `json.NewDecoder(r.Body).Decode(&req)`
abbrev pub decode_body {ℓ} : {A : Type ℓ} → Option Json → (Json → Result A) → Result A
decode_body none f = err decode_failed
decode_body (some j) f = f j

-- A handler that needs a body.
abbrev pub with_body {ℓ} : {A : Type ℓ} → Request → (Json → Result A) → (A → Handler) → Handler
with_body r decode next w = elim (decode_body r.body decode) [
  | err e ↦ (write_error 400 "invalid json", w)
  | ok req ↦ next req w
]

-- `Server.handleQueryError`
unfoldable pub handle_query_error : Error → Response
handle_query_error not_found = write_error 404 "aggregate not found"
handle_query_error _ = write_error 500 "internal error"

-- The end of a handler that reads one aggregate.
unfoldable pub answer : {A : Type 0} → (A → Json) → M A → Handler
unfolding handle_query_error
answer encode query w =
    let (got, w') = query w in
    elim got [
      | err e ↦ (handle_query_error e, w')
      | ok a ↦ (record { status = 200; body = encode a }, w')
    ]
