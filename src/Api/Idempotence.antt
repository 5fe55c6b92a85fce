-- ===== src/Api/Idempotence.antt =====
-- The idempotency keys of the handlers that write users.
use api_time_machine.Prelude.{ℕ, ◌+◌, ◌<◌, true, false, ◌≡◌, arith, eq_iff, none, some, str_eq}
use api_time_machine.Prelude.Assoc.{lookup, lookup-insert}
use api_time_machine.Json.{Json, Time}
use api_time_machine.Aggregate.User.{User, marshal_snapshot}
use api_time_machine.Commands.{insert_new, store_key, get_key}
use api_time_machine.World.{World, M, quiet, call}
use api_time_machine.Result.{ok}
use api_time_machine.Api.{Server, Request, check_idempotency, store_idempotency, run, day}

-- A stored key answers until it expires.
stored_answers :
    (s : Server) (r : Request) (body : Json) (status : ℕ) (w : World) (later : Time)
    → s.idempotency ≡ true
    → str_eq r.idempotency_key "" ≡ false
    → lookup r.idempotency_key w.db.idempotency_keys ≡ none
    → later < w.now + day
    → let w' = store_idempotency s r body status (quiet w) in
      check_idempotency s r (record (quiet w') { now = later })
      ≡ (some (body, status), record (quiet w') { now = later })
unfolding store_idempotency check_idempotency store_key get_key insert_new call
stored_answers s r body status w later on key free soon = ground (
  arith,
  lookup-insert r.idempotency_key r.idempotency_key
      (record { response_body = body; status_code = status; expires_at = w.now + day })
      w.db.idempotency_keys,
  eq_iff r.idempotency_key r.idempotency_key,
)

-- The first request of a key runs its command.
run_first :
    (s : Server) (r : Request) (status : ℕ) (command : M User) (u : User) (w w' : World)
    → lookup r.idempotency_key w.db.idempotency_keys ≡ none
    → command (quiet w) ≡ (ok u, quiet w')
    → run s r status command (quiet w) ≡ (
      record { status = status; body = marshal_snapshot u },
      store_idempotency s r (marshal_snapshot u) status (quiet w'),
    )
unfolding run check_idempotency get_key call
run_first s r status command u w w' free made = ground (arith, free, made)

-- When no call of the driver fails, a request to `run`, the end of the handlers that create, update
-- and delete users, whose idempotency key was unused before it and still after its command, and
-- whose command succeeded, is answered in the same way when it is sent again before the key
-- expires, whatever its command would do, and the world stays as it is.
pub run_again :
    (s : Server) (r : Request) (status : ℕ) (command again : M User) (u : User) (w w' : World)
    (later : Time)
    → s.idempotency ≡ true
    → str_eq r.idempotency_key "" ≡ false
    → lookup r.idempotency_key w.db.idempotency_keys ≡ none
    → command (quiet w) ≡ (ok u, quiet w')
    → lookup r.idempotency_key w'.db.idempotency_keys ≡ none
    → later < w'.now + day
    → let (first, end) = run s r status command (quiet w) in
      run s r status again (record (quiet end) { now = later })
      ≡ (first, record (quiet end) { now = later })
unfolding run
run_again s r status command again u w w' later on key free made still soon =
    rw (run_first s r status command u w w' free made) (
      let answers = stored_answers s r (marshal_snapshot u) status w' later on key still soon in
      ground (arith, answers))
