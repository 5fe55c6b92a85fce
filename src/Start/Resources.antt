-- ===== src/Start/Resources.antt =====
-- What a process that ends by a signal has closed.
use api_time_machine.Prelude.{
  ℕ, ◌+◌, Bool, true, false, not, ◌&&◌, ◌≡◌, sym, ap, subst, arith, Option, none, some, List, [],
  filter, length, if◌then◌else◌, ◌==◌,
}
use api_time_machine.Config.{Config}
use api_time_machine.Migrate.{State}
use api_time_machine.Start.Services.{
  can_start, found_parts, start-can_start, start-actions, served, prepared,
}
use api_time_machine.Start.{
  Resource, tracing, pool, redis, grpc, http, nats, Action, opened, closed, Process, Parts, Outside,
  signalled, start, stop, main, wind_up,
}

abbrev index : Resource → ℕ
index tracing = 0
index pool = 1
index redis = 2
index grpc = 3
index http = 4
index nats = 5

abbrev pub opens : Resource → Action → Bool
opens r (opened s) = index r == index s
opens r _ = false

abbrev pub closes : Resource → Action → Bool
closes r (closed s) = index r == index s
closes r _ = false

abbrev pub count : (Action → Bool) → List Action → ℕ
count p actions = length (filter p actions)

abbrev one : Bool → ℕ
one true = 1
one false = 0

-- The client that `main` drops because it does not answer.
abbrev pub dropped : Bool → Bool → Resource → ℕ
dropped parsed ping redis = one (parsed && not ping)
dropped parsed ping _ = 0

abbrev pub held : Parts → Resource → ℕ
held s tracing = one s.has_tracing
held s redis = one s.has_redis
held s nats = one s.has_nats
held s _ = 1

module _ {S : Type 0} where
  stop-closes :
      (r : Resource) (s : Parts) (p : Process S)
      → (count (closes r) (stop s p).1.actions ≡ count (closes r) p.actions + held s r)
        × (count (opens r) (stop s p).1.actions ≡ count (opens r) p.actions)
  unfolding stop
  stop-closes tracing s p = ground arith
  stop-closes pool s p = ground arith
  stop-closes redis s p = ground arith
  stop-closes grpc s p = ground arith
  stop-closes http s p = ground arith
  stop-closes nats s p = ground arith

  module _ (o : Outside S) (cfg : Config) where
    started-opens :
        (r : Resource)
        → (count (opens r) (served o cfg (prepared o cfg []))
            ≡ held (found_parts o cfg) r + dropped (o.parse_url cfg.redis_url) o.ping r)
          × (count (closes r) (served o cfg (prepared o cfg [])) ≡ 0)
    started-opens tracing = ground arith
    started-opens pool = ground arith
    started-opens redis = ground arith
    started-opens grpc = ground arith
    started-opens http = ground arith
    started-opens nats = ground arith

    main-stop :
        (p : Process S)
        → can_start o cfg p ≡ true
        → (main o cfg signalled p).1 ≡ (stop (found_parts o cfg) (start o cfg p).1).1
    unfolding main wind_up stop
    main-stop p h = go (start o cfg p) (start-can_start o cfg p)
      where
        go :
            (q : Option Parts × Process S)
            → q.0 ≡ (if can_start o cfg p then some (found_parts o cfg) else none)
            → (elim q.0 as (λ _. Option (Unit {0}) × Process S) [
              | some s ↦ stop s q.1
              | none ↦ (none, q.1)
            ]).1
              ≡ (stop (found_parts o cfg) q.1).1
        go (some s, q) e = ground (arith, e, h)
        go (none, q) e = ground (arith, e, h)

    -- A process that can start and ends by a signal has closed everything as often as it opened it,
    -- but for a Redis client whose URL parses and which does not answer, which it opens and never
    -- closes.
    pub main-closes :
        (r : Resource) (d : State S)
        → can_start o cfg (record { actions = []; database = d }) ≡ true
        → let end = (main o cfg signalled (record { actions = []; database = d })).1.actions in
          count (opens r) end ≡ count (closes r) end + dropped (o.parse_url cfg.redis_url) o.ping r
    main-closes r d h =
        let p : Process S = record { actions = []; database = d } in
        let begun = start-actions o cfg p h in
        subst
          (λ (q : Process S).
            count (opens r) q.actions
            ≡ count (closes r) q.actions + dropped (o.parse_url cfg.redis_url) o.ping r)
          (sym (main-stop p h))
          (omega (
            arith,
            stop-closes r (found_parts o cfg) (start o cfg p).1,
            ap (count (opens r)) begun,
            ap (count (closes r)) begun,
            started-opens r,
          ))
