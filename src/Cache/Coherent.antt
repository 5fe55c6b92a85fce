-- ===== src/Cache/Coherent.antt =====
-- internal/cache/redis.go: when the cache answers what the engine would answer.
use package.text.Mathlib.TextEquality.{Char-path}
use api_time_machine.Prelude.{
  ℕ, String, ◌≡◌, refl, sym, ap, ap₂, ◌∙◌, Bool, true, false, Option, none, some, List, ◌⊎◌, inl,
  inr,
}
use api_time_machine.Prelude.Int.{ℤ}
use api_time_machine.Json.{Json, Time}
use api_time_machine.Domain.{ReplayQuery, aggregate_user}
use api_time_machine.Aggregate.User.{User, marshal_snapshot}
use api_time_machine.Aggregate.User.Snapshots.{unmarshal-marshal_user}
use api_time_machine.Text.{codes}
use api_time_machine.Replay
use api_time_machine.World.{World, quiet}
use api_time_machine.Result.{Result, ok, err}
use api_time_machine.Cache.{cache_key, hit, decoded, store, or_missed, replay_user}
use api_time_machine.Cache.Keys.{IsInt64, InEra, asked_of, asked, cache_key-eq}

codes_eq : (s t : String) → codes s ≡ codes t → s ≡ t
codes_eq String.[] String.[] e = refl
codes_eq String.[] (String.◌∷◌ d t) e = absurd (cc (e))
codes_eq (String.◌∷◌ c s) String.[] e = absurd (cc (e))
codes_eq (String.◌∷◌ c s) (String.◌∷◌ d t) e =
    ap₂ (λ a b. String.◌∷◌ a b) (Char-path c d cc) (codes_eq s t cc)

same_bounds :
    (v v' : Option ℤ) (at at' : Option Time)
    → (v ≡ none) ⊎ (at ≡ none)
    → (v' ≡ none) ⊎ (at' ≡ none)
    → asked_of v at ≡ asked_of v' at'
    → (v ≡ v') × (at ≡ at')
unfolding asked_of
same_bounds (some n) (some n') at at' (inl x) one' e = absurd (cc (x))
same_bounds (some n) (some n') at at' (inr p) (inl x) e = absurd (cc (x))
same_bounds (some n) (some n') at at' (inr p) (inr p') e = (cc (e), p ∙ sym p')
same_bounds (some n) none at (some t') one one' e = absurd (cc (e))
same_bounds (some n) none at none one one' e = absurd (cc (e))
same_bounds none (some n') (some t) at' one one' e = absurd (cc (e))
same_bounds none (some n') none at' one one' e = absurd (cc (e))
same_bounds none none (some t) (some t') one one' e = (refl, ap some cc)
same_bounds none none (some t) none one one' e = absurd (cc (e))
same_bounds none none none (some t') one one' e = absurd (cc (e))
same_bounds none none none none one one' e = (refl, refl)

-- A query that bounds at most one of version and instant, and no event id.
pub record IsSimple (q : ReplayQuery) : Type 0 where
  pub int64 : IsInt64 q.version
  pub in_era : InEra q.at
  pub one_bound : (q.version ≡ none) ⊎ (q.at ≡ none)
  pub no_event : q.until_id ≡ none

same_query : (q q' : ReplayQuery) → IsSimple q → IsSimple q' → asked q ≡ asked q' → q ≡ q'
same_query q q' h h' e =
    let (v, at) = same_bounds q.version q'.version q.at q'.at h.one_bound h'.one_bound e in
    λ i. record { at = at i; version = v i; until_id = (h.no_event ∙ sym h'.no_event) i }

hit-marshal : (u : User) → hit (some (marshal_snapshot u)) ≡ some u
unfolding hit
hit-marshal u = ap decoded (unmarshal-marshal_user "" u)

module _ {R : Type 0} (get : List ℕ → R → Option Json × R) (set : List ℕ → Json → ℕ → R → R) where
  -- Redis: a key that can be read after a read could be read before.
  abbrev pub ReadKeeps : Type 0
  ReadKeeps =
      (k k' : List ℕ) (c : R) (raw : Json)
      → (get k' (get k c).1).0 ≡ some raw
      → (get k' c).0 ≡ some raw

  -- Redis: what can be read after a write is what was written, or could be read before.
  abbrev pub WriteSets : Type 0
  WriteSets =
      (k k' : List ℕ) (v : Json) (ttl : ℕ) (c : R) (raw : Json)
      → (get k' (set k v ttl c)).0 ≡ some raw
      → ((k' ≡ k) × (raw ≡ v)) ⊎ ((get k' c).0 ≡ some raw)

  -- Every entry of a simple query is what the engine answers to it.
  abbrev pub Coherent : World → R → Type 0
  Coherent w c =
      (id : String) (q : ReplayQuery) (raw : Json) (u : User)
      → IsSimple q
      → (get (cache_key aggregate_user id q) c).0 ≡ some raw
      → hit (some raw) ≡ some u
      → (Replay.replay_user id q (quiet w)).0 ≡ ok u

  module _ (reads : ReadKeeps) (writes : WriteSets) (w : World) where
    store-Coherent :
        (ttl : ℕ) (id : String) (q : ReplayQuery) (u : Result User) (c : R)
        → IsSimple q
        → (Replay.replay_user id q (quiet w)).0 ≡ u
        → Coherent w c
        → Coherent w (store get set (cache_key aggregate_user id q) ttl u c)
    store-Coherent ttl id q (err x) c simple e h id' q' raw u' simple' found is_user =
        h id' q' raw u' simple' found is_user
    store-Coherent ttl id q (ok u) c simple e h id' q' raw u' simple' found is_user =
        elim (writes (cache_key aggregate_user id q) (cache_key aggregate_user id' q')
          (marshal_snapshot u) ttl c raw found) [
            | inr before ↦ h id' q' raw u' simple' before is_user
            | inl (same_key, same_raw) ↦
                let (i, a) =
                  cache_key-eq aggregate_user id' id q' q simple'.int64 simple.int64 simple'.in_era
                    simple.in_era same_key in
                let same_user : some u ≡ some u' =
                  sym (hit-marshal u) ∙ ap (λ r. hit (some r)) (sym same_raw) ∙ is_user in
                ap₂ (λ x y. (Replay.replay_user x y (quiet w)).0) (codes_eq id' id i)
                  (same_query q' q simple' simple a)
                ∙ e
                ∙ cc (same_user)
          ]

    or_missed-Coherent :
        (found : Option User) (ttl : ℕ) (id : String) (q : ReplayQuery) (c : R)
        → IsSimple q
        → ((u : User) → found ≡ some u → (Replay.replay_user id q (quiet w)).0 ≡ ok u)
        → Coherent w c
        → let out = or_missed get set found (cache_key aggregate_user id q) ttl id q (quiet w) c in
          (out.0 ≡ (Replay.replay_user id q (quiet w)).0) × Coherent w out.1.1
    or_missed-Coherent (some u) ttl id q c simple e h = (sym (e u refl), h)
    or_missed-Coherent none ttl id q c simple e h =
        (refl, store-Coherent ttl id q (Replay.replay_user id q (quiet w)).0 c simple refl h)

    read-engine :
        (raw : Option Json) (id : String) (q : ReplayQuery) (c : R) (u : User)
        → IsSimple q
        → Coherent w c
        → (get (cache_key aggregate_user id q) c).0 ≡ raw
        → hit raw ≡ some u
        → (Replay.replay_user id q (quiet w)).0 ≡ ok u
    unfolding hit
    read-engine none id q c u simple h e is_user = absurd (cc (is_user))
    read-engine (some raw) id q c u simple h e is_user = h id q raw u simple e is_user

    -- Call a query simple if it bounds at most one of version and instant and no event id, its
    -- version is an int64 and its instant lies between the years 1677 and 2262, where the
    -- nanoseconds of the Unix time are an int64. Where Redis gives back only what was written, no
    -- call of the driver fails, the entries of the simple queries are what the engine answers, and
    -- the query is simple, the cache answers what the engine answers, and its entries stay so.
    pub replay_user-Coherent :
        (has_client : Bool) (ttl : ℕ) (id : String) (q : ReplayQuery) (c : R)
        → IsSimple q
        → Coherent w c
        → let out = replay_user get set has_client ttl id q (quiet w) c in
          (out.0 ≡ (Replay.replay_user id q (quiet w)).0) × Coherent w out.1.1
    unfolding replay_user
    replay_user-Coherent false ttl id q c simple h = (refl, h)
    replay_user-Coherent true ttl id q c simple h =
        let key = cache_key aggregate_user id q in
        or_missed-Coherent (hit (get key c).0) ttl id q (get key c).1 simple
          (λ u. read-engine (get key c).0 id q c u simple h refl)
          (λ id' q' raw u' simple' found.
            h id' q' raw u' simple' (reads key (cache_key aggregate_user id' q') c raw found))
