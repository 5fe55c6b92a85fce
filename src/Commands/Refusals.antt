-- ===== src/Commands/Refusals.antt =====
-- Which commands are refused, and how.
use api_time_machine.Prelude.{◌≡◌, arith, Option, none, some, filter, if◌then◌else◌}
use api_time_machine.Prelude.Int.{ℤ, pos, ltb_ℤ, eqb_ℤ}
use api_time_machine.EventStore.{of_aggregate, max_version, latest_version}
use api_time_machine.World.{World, quiet, call, transaction}
use api_time_machine.Commands.{AppendRequest, CommandService, mismatch, check, read, append}
use api_time_machine.Result.{Error, conflict, not_found, version_mismatch, err}

-- What is wrong with a command on an aggregate of this version: a version that is not the expected
-- one before all, then a create of an aggregate that exists, or another command on one that does not.
unfoldable pub verdict : AppendRequest → ℤ → Option Error
verdict req current =
    if mismatch req.expected_version current
    then some version_mismatch
    else if req.is_create
    then (if ltb_ℤ (pos 0) current then some conflict else none)
    else if eqb_ℤ current (pos 0)
    then some not_found
    else none

-- Where no call of the driver fails, a command whose expected version is not the latest one is
-- refused with a version mismatch, otherwise a create of an aggregate with events with a conflict,
-- and another command on an aggregate whose latest version is 0 with not found, and nothing
-- changes.
pub append_refused :
    (s : CommandService) (req : AppendRequest) (w : World) (e : Error)
    → verdict req (max_version (filter (of_aggregate s.aggregate_type req.id) w.db.events)) ≡ some e
    → append s req (quiet w) ≡ (err e, quiet w)
unfolding append read check verdict latest_version call transaction
append_refused s req w e h = ground arith
