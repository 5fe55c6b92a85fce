-- ===== src/Projection/Current.antt =====
-- What the read models hold after an event: a row made from that event alone.

use api_time_machine.Prelude.{
  String, false, ◌≡◌, ◌≢◌, refl, sym, ap, ap₂, ◌∙◌, arith, Option, none, some,
}
use api_time_machine.Prelude.Assoc.{lookup}
use api_time_machine.Json.{or_keep}
use api_time_machine.Domain.{StoredEvent}
use api_time_machine.Aggregate.User
use api_time_machine.Aggregate.User.{
  User, updated, kind, touch, set_updated, UpdatedPayload, decode_updated,
}
use api_time_machine.Aggregate.User.Apply.{apply_touches, apply-fresh_updated}
use api_time_machine.World.{World, UserRow, quiet, lift, >>=-eq-ok, call_keeps}
use api_time_machine.Projection.{
  upsert, user_row, user_of_row, keep_user_created, store_user, apply_user, current_user,
}
use api_time_machine.Projection.Upsert.{lookup-upsert_self, lookup-upsert_ne}
use api_time_machine.Result.{Result, ok, err, not_found}

-- The user that a row gives: no address, no avatar, and the creation time of the row before.
abbrev pub projected : Option UserRow → User → User
projected none u = record u { address = ""; avatar = "" }
projected (some old) u = record u { address = ""; avatar = ""; created_at = old.created_at }

-- A missing row is ErrNotFound.
abbrev pub or_missing : Option User → Result User
or_missing none = err not_found
or_missing (some u) = ok u

abbrev pub read_row : Option UserRow → Option User
read_row none = none
read_row (some r) = some (user_of_row r)

pub current_user_lem :
    (id : String) (w : World)
    → (current_user id (quiet w)).0 ≡ or_missing (read_row (lookup id w.db.users))
unfolding current_user
current_user_lem id w = ground arith

store_user_lem :
    (u : User) (w w' : World)
    → store_user u w ≡ (ok tt, w')
    → w'.db.users ≡ upsert keep_user_created u.id (user_row u) w.db.users
unfolding store_user
store_user_lem u w w' h = ground (arith, call_keeps w)

apply_user_lem :
    (e : StoredEvent) (w w' : World)
    → apply_user e w ≡ (ok tt, w')
    → (u : User) × (User.apply (User.fresh e.aggregate_id) e ≡ ok u)
      × (u.id ≡ e.aggregate_id)
      × (w'.db.users ≡ upsert keep_user_created e.aggregate_id (user_row u) w.db.users)
unfolding apply_user User.fresh
apply_user_lem e w w' h =
    let (u, v, applied, rest) =
      >>=-eq-ok (lift (User.apply (User.fresh e.aggregate_id) e)) store_user h in
    let id = (apply_touches (User.fresh e.aggregate_id) u e (cc)).0 in
    (
      u,
      cc,
      id,
      store_user_lem u v w' rest
          ∙ ap₂ (λ i (x : World). upsert keep_user_created i (user_row u) x.db.users) id
              (sym (ap (λ (p : Result User × World). p.1) applied)),
    )

read-upserted :
    (old : Option UserRow) (u : User)
    → or_missing (
        read_row
          (some (elim old [ none ↦ user_row u | some r ↦ keep_user_created r (user_row u) ])))
      ≡ ok (projected old u)
unfolding user_row user_of_row
read-upserted none u = refl
read-upserted (some old) u = refl

module _ (id : String) (u : User) (w w' : World)
    (table : w'.db.users ≡ upsert keep_user_created id (user_row u) w.db.users) where
  current_self : (current_user id (quiet w')).0 ≡ ok (projected (lookup id w.db.users) u)
  current_self =
      current_user_lem id w'
      ∙ ap (λ t. or_missing (read_row (lookup id t))) table
      ∙ ap (λ o. or_missing (read_row o))
          (lookup-upsert_self keep_user_created id (user_row u) w.db.users)
      ∙ read-upserted (lookup id w.db.users) u

  current_other :
      (j : String) → id ≢ j → (current_user j (quiet w')).0 ≡ (current_user j (quiet w)).0
  current_other j other =
      current_user_lem j w'
      ∙ ap (λ t. or_missing (read_row (lookup j t))) table
      ∙ ap (λ o. or_missing (read_row o))
          (lookup-upsert_ne keep_user_created id j (user_row u) w.db.users other)
      ∙ sym (current_user_lem j w)

-- If the projection of an event succeeds, the read model of its user is then what that event alone
-- gives, applied to a new user, without address and avatar and with the creation time of the row
-- that was there, and the read models of all other users stay as they were, when no call of the
-- driver fails in the reads.
pub current-apply_user :
    (e : StoredEvent) (w w' : World)
    → apply_user e w ≡ (ok tt, w')
    → (u : User) × (User.apply (User.fresh e.aggregate_id) e ≡ ok u)
      × ((current_user e.aggregate_id (quiet w')).0
          ≡ ok (projected (lookup e.aggregate_id w.db.users) u))
      × ((j : String)
          → e.aggregate_id ≢ j
          → (current_user j (quiet w')).0 ≡ (current_user j (quiet w)).0)
current-apply_user e w w' h =
    let (u, applied, id, table) = apply_user_lem e w w' h in
    (
      u,
      applied,
      current_self e.aggregate_id u w w' table,
      current_other e.aggregate_id u w w' table,
    )

-- The fields of a user that an update leaves in the read model.
pub record Partial (e : StoredEvent) (p : UpdatedPayload) (v : User) : Type 0 where
  pub name : v.name ≡ or_keep p.name ""
  pub email : v.email ≡ or_keep p.email ""
  pub address : v.address ≡ ""
  pub avatar : v.avatar ≡ ""
  pub deleted : v.deleted ≡ false
  pub version : v.version ≡ e.version

projected-Partial :
    (id : String) (e : StoredEvent) (p : UpdatedPayload) (old : Option UserRow)
    → Partial e p (projected old (set_updated (touch (User.fresh id) e) p))
unfolding set_updated touch User.fresh
projected-Partial id e p none = record {
  name = refl;
  email = refl;
  address = refl;
  avatar = refl;
  deleted = refl;
  version = refl;
}
projected-Partial id e p (some old) = record {
  name = refl;
  email = refl;
  address = refl;
  avatar = refl;
  deleted = refl;
  version = refl;
}

-- If the projection of an update succeeds, the read model of its user then has the fields that the
-- update names and an empty name and email where it names none, no address, no avatar, no mark of
-- deletion, and the version of the event.
pub current-apply_user_updated :
    (e : StoredEvent) (w w' : World) (p : UpdatedPayload)
    → kind e.event_type ≡ updated
    → decode_updated e.payload ≡ ok p
    → apply_user e w ≡ (ok tt, w')
    → (v : User) × ((current_user e.aggregate_id (quiet w')).0 ≡ ok v) × Partial e p v
current-apply_user_updated e w w' p k d h =
    let old = lookup e.aggregate_id w.db.users in
    let (u, applied, id, table) = apply_user_lem e w w' h in
    let made = apply-fresh_updated e.aggregate_id u e p k d applied in
    (
      projected old (set_updated (touch (User.fresh e.aggregate_id) e) p),
      current_self e.aggregate_id u w w' table ∙ ap (λ u. ok (projected old u)) made,
      projected-Partial e.aggregate_id e p old,
    )
