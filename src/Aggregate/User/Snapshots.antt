-- ===== src/Aggregate/User/Snapshots.antt =====
-- The documents of internal/user/aggregate.go: snapshots and payloads survive their encoding.
use api_time_machine.Prelude.{String, ◌≡◌, arith, eq_iff}
use api_time_machine.Result.{ok}
use api_time_machine.Aggregate.User.{
  User, CreatedPayload, UpdatedPayload, fresh, marshal_snapshot, unmarshal_snapshot, encode_created,
  decode_created, encode_updated, decode_updated,
}

-- A user's snapshot, read into a new user of any id, is the user.
pub unmarshal-marshal_user :
    (id : String) (u : User) → unmarshal_snapshot (fresh id) (marshal_snapshot u) ≡ ok u
unfolding unmarshal_snapshot fresh marshal_snapshot
unmarshal-marshal_user id u = ground (arith, eq_iff u.address "", eq_iff u.avatar "")

pub decode-encode_created : (p : CreatedPayload) → decode_created (encode_created p) ≡ ok p
unfolding decode_created encode_created
decode-encode_created p = ground arith

-- An update's payload is decoded to what was encoded, with the same fields nil.
pub decode-encode_updated : (p : UpdatedPayload) → decode_updated (encode_updated p) ≡ ok p
unfolding decode_updated encode_updated
decode-encode_updated p = ground arith
