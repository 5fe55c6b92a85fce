-- ===== src/Start/Services.antt =====
-- When the process starts, and with which services.
use api_time_machine.Prelude.{
  Bool, true, false, not, ◌&&◌, ◌||◌, ◌≡◌, refl, sym, ap, subst, ◌∙◌, arith, inl, inr, Option, none,
  some, List, [], ◌∷◌, ◌++◌, All, str_eq, if◌then◌else◌,
}
use api_time_machine.Result.{Result, ok, err, Result-cases}
use api_time_machine.Config.{Config}
use api_time_machine.Migrate.{Entry, State, up, scripts, is_applied}
use api_time_machine.Migrate.Again.{up-All}
use api_time_machine.Start.{
  Process, Parts, start, migrations_dir, Outside, migrate, init_tracing, prepare, serve, Action,
  opened, spawned, pool, tracing, http_server, http, cache_warmer, snapshot_builder,
  outbox_publisher, nats, grpc_server, grpc, redis, find_redis, new_redis_client, listen_grpc,
  connect_nats,
}

abbrev pub is_ok : Result (Unit {0}) → Bool
is_ok (ok _) = true
is_ok (err e) = false

is_ok→eq : (r : Result (Unit {0})) → is_ok r ≡ true → r ≡ ok tt
is_ok→eq (ok _) h = refl
is_ok→eq (err e) h = cc (h)

module _ {S : Type 0} (o : Outside S) (cfg : Config) where
  -- What the process can do without.
  abbrev pub found_parts : Parts
  found_parts = record {
    has_tracing = not (str_eq cfg.otlp_endpoint "");
    has_redis = o.parse_url cfg.redis_url && o.ping;
    has_nats = not (str_eq cfg.nats_url "") && o.connect cfg.nats_url;
  }

  abbrev prepend : Bool → List Action → List Action → List Action
  prepend true xs ys = xs ++ ys
  prepend false xs ys = ys

  abbrev pub prepared : List Action → List Action
  prepared before =
      opened pool ∷ prepend (not (str_eq cfg.otlp_endpoint "")) (opened tracing ∷ []) before

  abbrev pub served : List Action → List Action
  served before =
      spawned http_server
      ∷ opened http
      ∷ prepend cfg.workers_enabled
          (spawned cache_warmer ∷ spawned snapshot_builder ∷ spawned outbox_publisher ∷ [])
          (prepend (not (str_eq cfg.nats_url "") && o.connect cfg.nats_url) (opened nats ∷ []) (
            spawned grpc_server
            ∷ opened grpc
            ∷ prepend (o.parse_url cfg.redis_url) (opened redis ∷ []) before))

  serve_lem :
      (t : Bool) (q : Process S)
      → ((serve o cfg t q).0 ≡ (
          if o.listen cfg.grpc_addr then some (record found_parts { has_tracing = t }) else none))
        × ((serve o cfg t q).1.database ≡ q.database)
  unfolding serve find_redis new_redis_client listen_grpc connect_nats
  serve_lem t q = ground arith

  serve-actions :
      (t : Bool) (q : Process S)
      → o.listen cfg.grpc_addr ≡ true
      → (serve o cfg t q).1.actions ≡ served q.actions
  unfolding serve find_redis new_redis_client listen_grpc connect_nats
  serve-actions t q h = ground (arith, h)

  module _ (p : Process S) where
    abbrev pub migrations : Result (Unit {0}) × State S
    migrations = up o.exec o.read_file (o.read_dir (migrations_dir o)) p.database

    -- What the process cannot do without.
    abbrev pub can_prepare : Bool
    can_prepare =
        (str_eq cfg.otlp_endpoint "" || o.new_exporter cfg.otlp_endpoint)
        && o.new_pool cfg.database_url
        && (not cfg.migrate_on_start || is_ok migrations.0)

    abbrev pub can_start : Bool
    can_start = can_prepare && o.listen cfg.grpc_addr

    prepare_lem :
        (prepare o cfg p).0
        ≡ (if can_prepare then some (not (str_eq cfg.otlp_endpoint "")) else none)
    unfolding prepare init_tracing migrate
    prepare_lem = elim (Result-cases migrations.0) [
      | inl (_, e) ↦ ground (arith, e)
      | inr (x, e) ↦ ground (arith, e)
    ]

    prepare-actions : can_prepare ≡ true → (prepare o cfg p).1.actions ≡ prepared p.actions
    unfolding prepare init_tracing migrate
    prepare-actions h = elim (Result-cases migrations.0) [
      | inl (_, e) ↦ ground (arith, e, h)
      | inr (x, e) ↦ ground (arith, e, h)
    ]

    prepare-database :
        can_prepare ≡ true
        → cfg.migrate_on_start ≡ true
        → ((prepare o cfg p).1.database ≡ migrations.1) × (is_ok migrations.0 ≡ true)
    unfolding prepare init_tracing migrate
    prepare-database h on = elim (Result-cases migrations.0) [
      | inl (_, e) ↦ ground (arith, e, h, on)
      | inr (x, e) ↦ ground (arith, e, h, on)
    ]

    abbrev and_serve : Option Bool × Process S → Option Parts × Process S
    and_serve (some t, q) = serve o cfg t q
    and_serve (none, q) = (none, q)

    start-serve : start o cfg p ≡ and_serve (prepare o cfg p)
    unfolding start
    start-serve = go (prepare o cfg p)
      where
        go :
            (r : Option Bool × Process S)
            → (elim r.0 as (λ _. Option Parts × Process S) [
              | some t ↦ serve o cfg t r.1
              | none ↦ (none, r.1)
            ])
              ≡ and_serve r
        go (some t, q) = refl
        go (none, q) = refl

    -- The process starts exactly if tracing is off or its exporter is made, the pool is made, the
    -- migrations succeed or are switched off, and the gRPC address can be listened on; it then has
    -- tracing unless it is off, Redis exactly if its URL parses and it answers, and NATS exactly if
    -- a URL is set and can be connected to.
    pub start-can_start : (start o cfg p).0 ≡ (if can_start then some found_parts else none)
    start-can_start = ap (λ r. r.0) start-serve ∙ go (prepare o cfg p) prepare_lem
      where
        go :
            (r : Option Bool × Process S)
            → r.0 ≡ (if can_prepare then some (not (str_eq cfg.otlp_endpoint "")) else none)
            → (and_serve r).0 ≡ (if can_start then some found_parts else none)
        go (some t, q) e = ground (arith, e, (serve_lem t q).0)
        go (none, q) e = ground (arith, e)

    pub start-actions : can_start ≡ true → (start o cfg p).1.actions ≡ served (prepared p.actions)
    start-actions h =
        ap (λ r. r.1.actions) start-serve
        ∙ go (prepare o cfg p) prepare_lem
        ∙ ap served (prepare-actions (ground (arith, h)))
      where
        go :
            (r : Option Bool × Process S)
            → r.0 ≡ (if can_prepare then some (not (str_eq cfg.otlp_endpoint "")) else none)
            → (and_serve r).1.actions ≡ served r.1.actions
        go (some t, q) e = serve-actions t q (ground (arith, h))
        go (none, q) e = ground (arith, e, h)

    start-database :
        can_start ≡ true → cfg.migrate_on_start ≡ true → (start o cfg p).1.database ≡ migrations.1
    start-database h on =
        ap (λ r. r.1.database) start-serve
        ∙ go (prepare o cfg p) prepare_lem
        ∙ (prepare-database (ground (arith, h)) on).0
      where
        go :
            (r : Option Bool × Process S)
            → r.0 ≡ (if can_prepare then some (not (str_eq cfg.otlp_endpoint "")) else none)
            → (and_serve r).1.database ≡ r.1.database
        go (some t, q) e = (serve_lem t q).1
        go (none, q) e = refl

    -- If the process starts with the migrations switched on, the directory of the migrations could
    -- be read, and every script in it is recorded as applied.
    pub start-migrations :
        (parts : Parts)
        → (start o cfg p).0 ≡ some parts
        → cfg.migrate_on_start ≡ true
        → (entries : List Entry) × (o.read_dir (migrations_dir o) ≡ some entries)
          × All (λ name. is_applied name (start o cfg p).1.database ≡ true) (scripts entries)
    start-migrations parts h on =
        let started : can_start ≡ true = ground (arith, start-can_start, h) in
        let applied = (prepare-database (ground (arith, started)) on).1 in
        let (entries, found, all) =
          up-All o.exec o.read_file (o.read_dir (migrations_dir o)) p.database
            (is_ok→eq migrations.0 applied) in
        (
          entries,
          found,
          subst (λ s. All (λ name. is_applied name s ≡ true) (scripts entries))
              (sym (start-database started on)) all,
        )
