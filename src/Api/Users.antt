-- ===== src/Api/Users.antt =====
-- internal/api/users.go
use api_time_machine.Prelude.{String, ◌||◌, Option, none, str_eq, if◌then◌else◌}
use api_time_machine.Json.{Json, as_fields, read_string, read_string_ptr}
use api_time_machine.Domain.{aggregate_user}
use api_time_machine.Aggregate.User.{marshal_snapshot}
use api_time_machine.Service
use api_time_machine.Diff.{user_map}
use api_time_machine.Projection.{current_user}
use api_time_machine.Result.{Result, ok, ◌>>=◌}
use api_time_machine.Api.{
  Server, Request, Handler, write_error, run, extract_metadata, parse_expected_version, with_body,
  answer,
}
use api_time_machine.Api.Reads.{
  get_entity, entity_history, entity_timeline, entity_diff, replay_request, bounds_or_error,
}

pub record CreateUserRequest : Type 0 where
  pub id : String
  pub name : String
  pub email : String

unfoldable pub decode_create : Json → Result CreateUserRequest
decode_create j = do
  fs ← as_fields j
  id ← read_string "id" fs
  name ← read_string "name" fs
  email ← read_string "email" fs
  ok (record { id = id; name = name; email = email })

pub record UpdateUserRequest : Type 0 where
  pub name : Option String
  pub email : Option String
  pub address : Option String
  pub avatar : Option String

unfoldable pub decode_update : Json → Result UpdateUserRequest
decode_update j = do
  fs ← as_fields j
  name ← read_string_ptr "name" fs
  email ← read_string_ptr "email" fs
  address ← read_string_ptr "address" fs
  avatar ← read_string_ptr "avatar" fs
  ok (record { name = name; email = email; address = address; avatar = avatar })

-- `Server.createUser`
unfoldable pub create_user : Server → Request → Handler
unfolding run decode_create extract_metadata
create_user s r = with_body r decode_create λ req w.
    if str_eq req.id "" || str_eq req.name "" || str_eq req.email ""
    then (write_error 400 "id, name, and email are required", w)
    else run s r 201
        (Service.User.create s.snapshot_n (record {
          id = req.id;
          name = req.name;
          email = req.email;
          expected_version = none;
          metadata = extract_metadata r;
        }))
        w

-- `Server.updateUser`
unfoldable pub update_user : Server → Request → Handler
unfolding run decode_update extract_metadata parse_expected_version
update_user s r = with_body r decode_update λ req. run s r 200 (
    Service.User.update s.snapshot_n (record {
      id = r.id;
      name = req.name;
      email = req.email;
      address = req.address;
      avatar = req.avatar;
      expected_version = parse_expected_version r;
      metadata = extract_metadata r;
    }))

-- `Server.deleteUser`
unfoldable pub delete_user : Server → Request → Handler
unfolding run extract_metadata parse_expected_version
delete_user s r = run s r 200 (
    Service.User.delete s.snapshot_n (record {
      id = r.id;
      expected_version = parse_expected_version r;
      metadata = extract_metadata r;
    }))

-- `Server.getUser`
unfoldable pub get_user : Server → Request → Handler
unfolding get_entity
get_user s r = get_entity marshal_snapshot (s.replay_user r.id) (current_user r.id) r

-- `Server.userHistory`
unfoldable pub user_history : Request → Handler
unfolding entity_history
user_history = entity_history aggregate_user

-- `Server.userTimeline`
unfoldable pub user_timeline : Request → Handler
unfolding entity_timeline
user_timeline = entity_timeline aggregate_user

-- `Server.userDiff`
unfoldable pub user_diff : Server → Request → Handler
unfolding bounds_or_error entity_diff
user_diff s r =
    bounds_or_error r
      λ from to. entity_diff user_map s r (s.replay_user r.id from) (s.replay_user r.id to)

-- `Server.userReplay`, and `Server.userPreview`, which is the same
unfoldable pub user_replay : Server → Request → Handler
unfolding answer replay_request
user_replay s r = answer marshal_snapshot (s.replay_user r.id (replay_request r))
