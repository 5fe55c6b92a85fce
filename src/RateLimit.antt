-- ===== src/RateLimit.antt =====
-- internal/api/ratelimit.go: a sliding window for each client. A duration is a number of ticks, and
-- `t.After(now.Add(-window))` is written without the difference, as now < t + window.
pub mod Times
pub mod Window
pub mod Client
use api_time_machine.Prelude.{
  ℕ, ◌+◌, String, Bool, true, false, Option, none, some, List, [], ◌∷◌, ◌++◌, ltb, leb, length,
  if◌then◌else◌,
}
use api_time_machine.Prelude.Assoc.{Assoc, lookup, insert}
use api_time_machine.Prelude.Compact.{compact}
use api_time_machine.Json.{Time}

pub record RateLimiter : Type 0 where
  pub clients : Assoc (List Time)
  pub limit : ℕ
  pub window : ℕ

-- `newRateLimiter`
abbrev pub fresh : ℕ → ℕ → RateLimiter
fresh limit window = record { clients = []; limit = limit; window = window }

-- `rl.clients[key]` of a missing key is a nil slice.
abbrev or_nil : Option (List Time) → List Time
or_nil none = []
or_nil (some ts) = ts

unfoldable pub times : RateLimiter → String → List Time
unfolding lookup
times rl key = or_nil (lookup key rl.clients)

abbrev pub recent : ℕ → Time → Time → Bool
recent window now t = ltb now (t + window)

-- The loop into `times[:0]`.
unfoldable pub filtered : RateLimiter → String → Time → List Time
unfolding times
filtered rl key now = compact (recent rl.window now) (times rl key)

-- `rateLimiter.allow`
unfoldable pub allow : String → Time → RateLimiter → Bool × RateLimiter
unfolding filtered insert
allow key now rl =
    let kept = filtered rl key now in
    if leb rl.limit (length kept)
    then (false, record rl { clients = insert key kept rl.clients })
    else (true, record rl { clients = insert key (kept ++ now ∷ []) rl.clients })

pub record Arrival : Type 0 where
  pub key : String
  pub at : Time

-- The requests of a server's life, one after the other under the lock: the limiter at the end, and
-- the requests that went through.
unfoldable pub serve : RateLimiter → List Arrival → RateLimiter × List Arrival
unfolding allow
serve rl [] = (rl, [])
serve rl (a ∷ rest) =
    let (passed, rl') = allow a.key a.at rl in
    let (end, others) = serve rl' rest in (end, if passed then a ∷ others else others)
