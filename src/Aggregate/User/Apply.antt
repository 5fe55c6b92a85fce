-- ===== src/Aggregate/User/Apply.antt =====
-- `User.Apply` on every branch.
use api_time_machine.Prelude.{String, ◌≡◌, arith, Bool, true, false}
use api_time_machine.Domain.{StoredEvent}
use api_time_machine.Result.{ok}
use api_time_machine.Aggregate.User.{
  User, UpdatedPayload, Kind, created, updated, deleted, set_updated, fresh, decode_updated, kind,
  touch, apply_case, apply,
}

apply_case_touches :
    (k : Kind) (u v : User) (e : StoredEvent)
    → apply_case k u e ≡ ok v
    → (v.id ≡ u.id) × (v.version ≡ u.version) × (v.updated_at ≡ u.updated_at)
unfolding apply_case
apply_case_touches created u v e h = ground arith
apply_case_touches _ u v e h = ground arith

-- Whatever the type of an event that is applied without an error, the user takes its version and
-- its time, and keeps its id.
pub apply_touches :
    (u v : User) (e : StoredEvent)
    → apply u e ≡ ok v
    → (v.id ≡ u.id) × (v.version ≡ e.version) × (v.updated_at ≡ e.created_at)
unfolding apply touch
apply_touches u v e h = apply_case_touches (kind e.event_type) (touch u e) v e h

-- Whether a user is deleted after an event of this kind.
abbrev pub deleted_after : Kind → Bool → Bool
deleted_after created was = false
deleted_after deleted was = true
deleted_after _ was = was

-- After an event that is applied without an error, a user is not deleted if the event is a
-- creation, deleted if it is a deletion, and otherwise deleted as before.
pub apply_deleted :
    (u v : User) (e : StoredEvent)
    → apply u e ≡ ok v
    → v.deleted ≡ deleted_after (kind e.event_type) u.deleted
unfolding apply touch
apply_deleted u v e h = by_case (kind e.event_type) h
  where
    by_case : (k : Kind) → apply_case k (touch u e) e ≡ ok v → v.deleted ≡ deleted_after k u.deleted
    by_case created h = ground arith
    by_case _ h = ground arith

-- What an update makes of a new user: the fields that its payload names, and no others.
pub apply-fresh_updated :
    (id : String) (u : User) (e : StoredEvent) (p : UpdatedPayload)
    → kind e.event_type ≡ updated
    → decode_updated e.payload ≡ ok p
    → apply (fresh id) e ≡ ok u
    → u ≡ set_updated (touch (fresh id) e) p
unfolding apply
apply-fresh_updated id u e p k d h = by_case (kind e.event_type) k h
  where
    by_case :
        (c : Kind)
        → c ≡ updated
        → apply_case c (touch (fresh id) e) e ≡ ok u
        → u ≡ set_updated (touch (fresh id) e) p
    by_case updated k h = cc
    by_case _ k h = cc
