-- ===== src/Cache.antt =====
-- internal/cache/redis.go: the cache in front of the replay of users. The client (go-redis) is a
-- parameter: what it keeps, `get` (none where it fails, the key is missing or the bytes are no JSON
-- document) and `set` (whose error is dropped).
pub mod Keys
pub mod Coherent
use api_time_machine.Prelude.{
  ℕ, String, Bool, true, false, Option, none, some, List, ◌++◌, if◌then◌else◌, not,
}
use api_time_machine.Prelude.Int.{ℤ, pos, negsuc, ◌+ℤ◌, wrap64}
use api_time_machine.Json.{Json, Time}
use api_time_machine.Domain.{ReplayQuery, aggregate_user}
use api_time_machine.Aggregate.User.{User, fresh, marshal_snapshot, unmarshal_snapshot}
use api_time_machine.Text.{codes, show}
use api_time_machine.Replay
use api_time_machine.World.{World}
use api_time_machine.Result.{Result, ok, err}

-- `Time.UnixNano`: 1970-01-01 is 62135596800 seconds after the zero time, and the difference is an
-- int64.
unfoldable pub unix_nano : Time → ℤ
unfolding wrap64 ◌+ℤ◌
unix_nano t = wrap64 (pos t +ℤ negsuc 62135596799999999999)

-- What the key says of a query.
abbrev pub bound_text : Option ℤ → Option Time → List ℕ
unfolding unix_nano show
bound_text (some version) at = codes "v:" ++ show version
bound_text none (some at) = codes "at:" ++ show (unix_nano at)
bound_text none none = codes "current"

-- `cacheKey`, as code points
unfoldable pub cache_key : String → String → ReplayQuery → List ℕ
cache_key aggregate_type id q =
    codes "replay:"
    ++ codes aggregate_type
    ++ codes ":"
    ++ codes id
    ++ codes ":"
    ++ bound_text q.version q.at

-- `json.Unmarshal` into a zero User: what is no user is no hit.
abbrev pub decoded : Result User → Option User
decoded (ok u) = some u
decoded (err e) = none

unfoldable pub hit : Option Json → Option User
unfolding unmarshal_snapshot fresh
hit none = none
hit (some raw) = decoded (unmarshal_snapshot (fresh "") raw)

module _ {R : Type 0} (get : List ℕ → R → Option Json × R) (set : List ℕ → Json → ℕ → R → R) where
  abbrev pub store : List ℕ → ℕ → Result User → R → R
  store key ttl (ok u) c = set key (marshal_snapshot u) ttl c
  store key ttl (err e) c = c

  -- After a miss: the engine's answer is stored.
  abbrev pub missed : List ℕ → ℕ → String → ReplayQuery → World → R → Result User × (World × R)
  missed key ttl id q w c = let (u, w') = Replay.replay_user id q w in (u, (w', store key ttl u c))

  abbrev pub or_missed :
      Option User → List ℕ → ℕ → String → ReplayQuery → World → R → Result User × (World × R)
  or_missed (some u) key ttl id q w c = (ok u, (w, c))
  or_missed none key ttl id q w c = missed key ttl id q w c

  -- `ReplayCache.ReplayUser`, with a client or without
  unfoldable pub replay_user :
      Bool → ℕ → String → ReplayQuery → World → R → Result User × (World × R)
  unfolding cache_key hit
  replay_user false ttl id q w c = let (u, w') = Replay.replay_user id q w in (u, (w', c))
  replay_user true ttl id q w c =
      let key = cache_key aggregate_user id q in
      let (raw, c') = get key c in or_missed (hit raw) key ttl id q w c'
