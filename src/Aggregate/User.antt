-- ===== src/Aggregate/User.antt =====
pub mod Snapshots
pub mod Apply
-- internal/user/aggregate.go
use api_time_machine.Prelude.{
  String, Bool, true, false, not, Option, none, some, List, [], ◌∷◌, str_eq, if◌then◌else◌,
}
use api_time_machine.Prelude.Int.{ℤ, pos}
use api_time_machine.Json.{
  Json, Time, bool, num, str, time, object, omit_if, omit_nil, get_field, as_fields, as_string,
  as_int, as_bool, as_time, as_string_ptr, or_keep,
}
use api_time_machine.Aggregate.{Aggregate}
use api_time_machine.Domain.{StoredEvent}
use api_time_machine.Result.{Result, ok, err, ◌>>=◌}

abbrev pub event_created : String
event_created = "UserCreated"

abbrev pub event_updated : String
event_updated = "UserUpdated"

abbrev pub event_deleted : String
event_deleted = "UserDeleted"

abbrev pub event_password_changed : String
event_password_changed = "PasswordChanged"

abbrev pub event_email_changed : String
event_email_changed = "EmailChanged"

abbrev pub event_address_changed : String
event_address_changed = "AddressChanged"

abbrev pub event_avatar_changed : String
event_avatar_changed = "AvatarChanged"

pub record User : Type 0 where
  pub id : String
  pub name : String
  pub email : String
  pub address : String
  pub avatar : String
  pub deleted : Bool
  pub version : ℤ
  pub created_at : Time
  pub updated_at : Time

pub record CreatedPayload : Type 0 where
  pub name : String
  pub email : String

pub record UpdatedPayload : Type 0 where
  pub name : Option String
  pub email : Option String
  pub address : Option String
  pub avatar : Option String

unfoldable pub encode_created : CreatedPayload → Json
encode_created p = object (("name", str p.name) ∷ ("email", str p.email) ∷ [])

unfoldable pub decode_created : Json → Result CreatedPayload
decode_created payload = do
  fs ← as_fields payload
  name ← as_string (get_field "name" fs) ""
  email ← as_string (get_field "email" fs) ""
  ok (record { name = name; email = email })

unfoldable pub encode_updated : UpdatedPayload → Json
encode_updated p = object (
    omit_nil p.name str "name" (
      omit_nil p.email str "email"
        (omit_nil p.address str "address" (omit_nil p.avatar str "avatar" []))))

unfoldable pub decode_updated : Json → Result UpdatedPayload
decode_updated payload = do
  fs ← as_fields payload
  name ← as_string_ptr (get_field "name" fs)
  email ← as_string_ptr (get_field "email" fs)
  address ← as_string_ptr (get_field "address" fs)
  avatar ← as_string_ptr (get_field "avatar" fs)
  ok (record { name = name; email = email; address = address; avatar = avatar })

-- The one field of EmailChangedPayload, AddressChangedPayload and AvatarChangedPayload.
unfoldable pub decode_field : String → Json → Result String
decode_field key payload = do fs ← as_fields payload; as_string (get_field key fs) ""

-- `user.New`
unfoldable pub fresh : String → User
fresh id = record {
  id = id;
  name = "";
  email = "";
  address = "";
  avatar = "";
  deleted = false;
  version = pos 0;
  created_at = 0;
  updated_at = 0;
}

unfoldable pub set_created : User → StoredEvent → CreatedPayload → User
set_created u event p = record u {
  name = p.name;
  email = p.email;
  created_at = event.created_at;
  deleted = false;
}

unfoldable pub set_updated : User → UpdatedPayload → User
set_updated u p = record u {
  name = or_keep p.name u.name;
  email = or_keep p.email u.email;
  address = or_keep p.address u.address;
  avatar = or_keep p.avatar u.avatar;
}

-- The version and the time of the last event are set before the event's type is looked at.
unfoldable pub touch : User → StoredEvent → User
touch u event = record u { version = event.version; updated_at = event.created_at }

-- The cases of the switch on `event.EventType`.
pub data Kind : Type 0 where
  created updated email_changed address_changed avatar_changed deleted password_changed other : Kind

unfoldable pub kind : String → Kind
kind t =
    if str_eq t event_created
    then created
    else if str_eq t event_updated
    then updated
    else if str_eq t event_email_changed
    then email_changed
    else if str_eq t event_address_changed
    then address_changed
    else if str_eq t event_avatar_changed
    then avatar_changed
    else if str_eq t event_deleted
    then deleted
    else if str_eq t event_password_changed
    then password_changed
    else other

unfoldable pub apply_case : Kind → User → StoredEvent → Result User
unfolding set_created set_updated
apply_case created u event = do p ← decode_created event.payload; ok (set_created u event p)
apply_case updated u event = do p ← decode_updated event.payload; ok (set_updated u p)
apply_case email_changed u event = do
  email ← decode_field "email" event.payload
  ok (record u { email = email })
apply_case address_changed u event = do
  address ← decode_field "address" event.payload
  ok (record u { address = address })
apply_case avatar_changed u event = do
  avatar ← decode_field "avatar" event.payload
  ok (record u { avatar = avatar })
apply_case deleted u event = ok (record u { deleted = true })
apply_case password_changed u event = ok u
apply_case other u event = ok u

-- `User.Apply`. On an error every caller drops the user.
unfoldable pub apply : User → StoredEvent → Result User
unfolding kind apply_case touch
apply u event = apply_case (kind event.event_type) (touch u event) event

unfoldable pub marshal_snapshot : User → Json
marshal_snapshot u = object (
    ("id", str u.id)
    ∷ ("name", str u.name)
    ∷ ("email", str u.email)
    ∷ omit_if (str_eq u.address "") "address" (str u.address) (
        omit_if (str_eq u.avatar "") "avatar" (str u.avatar) (
          omit_if (not u.deleted) "deleted" (bool u.deleted) (
            ("version", num u.version)
            ∷ ("created_at", time u.created_at)
            ∷ ("updated_at", time u.updated_at)
            ∷ []))))

unfoldable pub unmarshal_snapshot : User → Json → Result User
unmarshal_snapshot u state = do
  fs ← as_fields state
  id ← as_string (get_field "id" fs) u.id
  name ← as_string (get_field "name" fs) u.name
  email ← as_string (get_field "email" fs) u.email
  address ← as_string (get_field "address" fs) u.address
  avatar ← as_string (get_field "avatar" fs) u.avatar
  is_deleted ← as_bool (get_field "deleted" fs) u.deleted
  version ← as_int (get_field "version" fs) u.version
  created_at ← as_time (get_field "created_at" fs) u.created_at
  updated_at ← as_time (get_field "updated_at" fs) u.updated_at
  ok (record {
    id = id;
    name = name;
    email = email;
    address = address;
    avatar = avatar;
    deleted = is_deleted;
    version = version;
    created_at = created_at;
    updated_at = updated_at;
  })

-- `userAgg` of internal/replay/engine.go.
unfoldable pub user_aggregate : Aggregate User
unfolding fresh apply unmarshal_snapshot marshal_snapshot
user_aggregate = record {
  fresh = fresh;
  apply = apply;
  unmarshal_snapshot = unmarshal_snapshot;
  marshal_snapshot = marshal_snapshot;
  current_version = λ a. a.version;
}
