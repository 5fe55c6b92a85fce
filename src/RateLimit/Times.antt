-- ===== src/RateLimit/Times.antt =====
-- What `rateLimiter.allow` answers, and what it keeps of each client.

use api_time_machine.Prelude.{
  ℕ, ◌≤◌, ◌≡◌, ◌∙◌, arith, String, ◌&&◌, List, [], ◌∷◌, ◌++◌, ltb, length, filter, filter-filter,
  filter-cong, All, str_eq, if◌then◌else◌,
}
use api_time_machine.Prelude.Assoc.{lookup-insert}
use api_time_machine.Prelude.Compact.{compact-eq-filter}
use api_time_machine.Json.{Time}
use api_time_machine.RateLimit.{RateLimiter, times, recent, filtered, allow}

-- The times of a client that are still in the window.
abbrev pub in_window : RateLimiter → String → Time → List Time
in_window rl key now = filter (recent rl.window now) (times rl key)

filtered_lem :
    (rl : RateLimiter) (key : String) (now : Time) → filtered rl key now ≡ in_window rl key now
unfolding filtered
filtered_lem rl key now = compact-eq-filter (recent rl.window now) (times rl key)

-- A request goes through exactly when fewer than `limit` of its client's are in the window.
pub allow_iff :
    (rl : RateLimiter) (key : String) (now : Time)
    → (allow key now rl).0 ≡ ltb (length (in_window rl key now)) rl.limit
unfolding allow
allow_iff rl key now = rw (filtered_lem rl key now) (ground arith)

-- What the limiter keeps of a client after a request of a client.
pub times-allow :
    (rl : RateLimiter) (key j : String) (now : Time)
    → times (allow key now rl).1 j ≡ (
        if str_eq key j
        then (if (allow key now rl).0
            then in_window rl key now ++ now ∷ []
            else in_window rl key now)
        else times rl j)
unfolding allow times
times-allow rl key j now = rw (filtered_lem rl key now) (
    ground (
      arith,
      lookup-insert key j (in_window rl key now ++ now ∷ []) rl.clients,
      lookup-insert key j (in_window rl key now) rl.clients,
    ))

pub recent-later :
    (window : ℕ) (t now : Time) (ts : List Time)
    → t ≤ now
    → filter (recent window now) (filter (recent window t) ts) ≡ filter (recent window now) ts
recent-later window t now ts h =
    filter-filter (recent window now) (recent window t) ts ∙ filter-cong _ _ ts (go ts)
  where
    go :
        (ts : List Time)
        → All (λ x. (recent window t x && recent window now x) ≡ recent window now x) ts
    go [] = tt
    go (x ∷ ts) = (ground (arith, h), go ts)

pub allow_same :
    (key : String) (now : Time) (rl : RateLimiter)
    → ((allow key now rl).1.limit ≡ rl.limit) × ((allow key now rl).1.window ≡ rl.window)
unfolding allow
allow_same key now rl = ground arith
