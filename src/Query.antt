-- ===== src/Query.antt =====
-- internal/temporal/query.go: bounds of a replay from the parameters of a request. The same two
-- functions stand in internal/api/helpers.go.
pub mod Bounds
use text.Mathlib.Text.{starts_with}
use api_time_machine.Prelude.{String, Bool, true, false, Option, none, some, str_eq, if◌then◌else◌}
use api_time_machine.Prelude.Int.{ℤ}
use api_time_machine.Json.{Time}
use api_time_machine.Domain
use api_time_machine.Domain.{ReplayQuery}
use api_time_machine.Text.{parse_int, trim_prefix}
use api_time_machine.Text.Instant.{parse_time}
use api_time_machine.Result.{Result, ok, err, bad_syntax, ◌>>=◌}

abbrev pub no_bounds : ReplayQuery
no_bounds = record { at = none; version = none; until_id = none }

abbrev pub at_version : ℤ → ReplayQuery
at_version n = record no_bounds { version = some n }

abbrev pub at_instant : Time → ReplayQuery
at_instant t = record no_bounds { at = some t }

-- A parse that fails is an error.
abbrev pub or_bad {ℓ} : {A : Type ℓ} → Option A → Result A
or_bad none = err bad_syntax
or_bad (some a) = ok a

-- `if at != "" { … }`
abbrev pub optional {ℓ} : {A : Type ℓ} → (String → Option A) → String → Result (Option A)
optional parse v = if str_eq v "" then ok none else or_bad (parse v) >>= λ a. ok (some a)

-- `ParseReplayQuery`
unfoldable pub parse_replay_query : String → String → Result ReplayQuery
parse_replay_query at version = do
  t ← optional parse_time at
  n ← optional parse_int version
  ok (record { at = t; version = n; until_id = none })

abbrev pub numbered : Option ℤ → Result ReplayQuery
numbered n = or_bad n >>= λ n. ok (at_version n)

-- A text that is no number is an instant.
abbrev pub number_or_instant : Option ℤ → String → Result ReplayQuery
number_or_instant (some n) value = ok (at_version n)
number_or_instant none value = or_bad (parse_time value) >>= λ t. ok (at_instant t)

-- `ParseBound`
unfoldable pub parse_bound : String → Result ReplayQuery
parse_bound value =
    if str_eq value ""
    then ok no_bounds
    else if starts_with value "v"
    then numbered (parse_int (trim_prefix value "v"))
    else number_or_instant (parse_int value) value

-- `IsTemporal`
unfoldable pub is_temporal : ReplayQuery → Bool
is_temporal = Domain.is_temporal
