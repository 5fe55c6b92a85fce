-- ===== src/Start.antt =====
-- cmd/api/main.go: how the process starts and stops, with `InitTracing` of
-- internal/observability/metrics.go, `NewRedisClient` and `Ping` of internal/cache/redis.go and `Listen` of
-- internal/grpc/server.go. The libraries are parameters, which tell whether a call succeeds.
pub mod Services
pub mod Resources
use api_time_machine.Prelude.{
  ℕ, String, Bool, true, false, not, ◌&&◌, Option, none, some, List, [], ◌∷◌, ◌++◌, str_eq,
  if◌then◌else◌,
}
use api_time_machine.Result.{Result, ok, err}
use api_time_machine.Config.{Config}
use api_time_machine.Migrate.{Entry, State, up}

-- What the process opens and closes.
pub data Resource : Type 0 where
  tracing pool redis grpc http nats : Resource

pub data Task : Type 0 where
  grpc_server http_server outbox_publisher snapshot_builder cache_warmer : Task

pub data Action : Type 0 where
  opened closed : Resource → Action
  spawned : Task → Action

-- What the process has done, the latest first, and the database of the migrations.
pub record Process (S : Type 0) : Type 0 where
  pub actions : List Action
  pub database : State S

-- What the process goes on with: which of the optional parts it has.
pub record Parts : Type 0 where
  pub has_tracing : Bool
  pub has_redis : Bool
  pub has_nats : Bool

-- How it ends: by a signal, or because the HTTP server fails.
pub data Ending : Type 0 where
  signalled http_failed : Ending

-- `none` is `os.Exit(1)`, which runs no deferred function.
abbrev pub Boot : Type 0 → Type 0 → Type 0
Boot S A = Process S → Option A × Process S

-- `projectRoot`
abbrev pub project_root : Option String → String
project_root (some wd) = wd
project_root none = "."

module _ {S : Type 0} where
  infixl 5 ◌>>=◌ ◌>>◌
  abbrev pub ◌>>=◌ : {A B : Type 0} → Boot S A → (A → Boot S B) → Boot S B
  ◌>>=◌ m f p = let (r, p') = m p in elim r [ some a ↦ f a p' | none ↦ (none, p') ]

  abbrev pub ◌>>◌ : {A B : Type 0} → Boot S A → Boot S B → Boot S B
  m >> k = m >>= λ _. k

  abbrev pub done : {A : Type 0} → A → Boot S A
  done a p = (some a, p)

  abbrev pub exit : {A : Type 0} → Boot S A
  exit p = (none, p)

  abbrev pub act : Action → Boot S (Unit {0})
  act a p = (some tt, record p { actions = a ∷ p.actions })

  abbrev pub either : {A : Type 0} → Bool → Boot S A → Boot S A → Boot S A
  either true m k p = m p
  either false m k p = k p

  abbrev pub when : Bool → Boot S (Unit {0}) → Boot S (Unit {0})
  when true m p = m p
  when false m p = done tt p

  abbrev pub or_exit : Bool → Boot S (Unit {0})
  or_exit true p = done tt p
  or_exit false p = exit p

  abbrev migrated : Result (Unit {0}) × State S → Boot S (Unit {0})
  migrated (ok _, s) p = (some tt, record p { database = s })
  migrated (err e, s) p = (none, record p { database = s })

  -- `InitTracing`: the result tells whether there is a provider to shut down.
  unfoldable pub init_tracing : (String → Bool) → String → Boot S Bool
  init_tracing new_exporter endpoint =
      either (str_eq endpoint "") (done false)
        do or_exit (new_exporter endpoint); act (opened tracing); done true

  -- `NewRedisClient`: a client connects when it is used.
  unfoldable pub new_redis_client : (String → Bool) → String → Boot S Bool
  new_redis_client parse_url url =
      either (parse_url url) (act (opened redis) >> done true) (done false)

  -- `Server.Listen`
  unfoldable pub listen_grpc : (String → Bool) → String → Boot S (Unit {0})
  listen_grpc listen addr = do or_exit (listen addr); act (opened grpc); act (spawned grpc_server)

  unfoldable pub connect_nats : (String → Bool) → String → Boot S Bool
  connect_nats connect url =
      either (str_eq url "") (done false)
        (either (connect url) (act (opened nats) >> done true) (done false))

  abbrev pub start_workers : Boot S (Unit {0})
  start_workers = do
    act (spawned outbox_publisher)
    act (spawned snapshot_builder)
    act (spawned cache_warmer)

  -- The rest of `main` after a signal, and its deferred functions.
  unfoldable pub stop : Parts → Boot S (Unit {0})
  stop s = do
    act (closed grpc)
    act (closed http)
    when s.has_nats (act (closed nats))
    when s.has_redis (act (closed redis))
    act (closed pool)
    when s.has_tracing (act (closed tracing))

  abbrev pub wind_up : Ending → Parts → Boot S (Unit {0})
  unfolding stop
  wind_up signalled s = stop s
  wind_up http_failed s = exit

-- Whether a call of a library succeeds: otlptracehttp.New, pgxpool.New, redis.ParseURL,
-- `client.Ping`, net.Listen and nats.Connect; os.Getwd, filepath.Join; and what the migrations use.
pub record Outside (S : Type 0) : Type 0 where
  pub new_exporter : String → Bool
  pub new_pool : String → Bool
  pub parse_url : String → Bool
  pub ping : Bool
  pub listen : String → Bool
  pub connect : String → Bool
  pub getwd : Option String
  pub join : String → String → String
  pub read_dir : String → Option (List Entry)
  pub read_file : String → Option String
  pub exec : String → S → Option S

module _ {S : Type 0} (o : Outside S) where
  abbrev pub migrations_dir : String
  migrations_dir = o.join (project_root o.getwd) "migrations"

  unfoldable pub migrate : Boot S (Unit {0})
  unfolding up
  migrate p = migrated (up o.exec o.read_file (o.read_dir migrations_dir) p.database) p

  -- `main` as far as the migrations.
  unfoldable pub prepare : Config → Boot S Bool
  unfolding init_tracing migrate
  prepare cfg = do
    has_tracing ← init_tracing o.new_exporter cfg.otlp_endpoint
    or_exit (o.new_pool cfg.database_url)
    act (opened pool)
    when cfg.migrate_on_start migrate
    done has_tracing

  -- A client that does not answer is dropped.
  unfoldable pub find_redis : Config → Boot S Bool
  unfolding new_redis_client
  find_redis cfg = do client ← new_redis_client o.parse_url cfg.redis_url; done (client && o.ping)

  -- From there to the wait for a signal.
  unfoldable pub serve : Config → Bool → Boot S Parts
  unfolding find_redis listen_grpc connect_nats
  serve cfg has_tracing = do
    has_redis ← find_redis cfg
    listen_grpc o.listen cfg.grpc_addr
    has_nats ← connect_nats o.connect cfg.nats_url
    when cfg.workers_enabled start_workers
    act (opened http)
    act (spawned http_server)
    done (record { has_tracing = has_tracing; has_redis = has_redis; has_nats = has_nats })

  unfoldable pub start : Config → Boot S Parts
  unfolding prepare serve
  start cfg = do has_tracing ← prepare cfg; serve cfg has_tracing

  unfoldable pub main : Config → Ending → Boot S (Unit {0})
  unfolding start
  main cfg ending = do parts ← start cfg; wind_up ending parts
