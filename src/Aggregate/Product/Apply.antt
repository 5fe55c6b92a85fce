-- ===== src/Aggregate/Product/Apply.antt =====
-- `Product.Apply` on every branch.
use api_time_machine.Prelude.{◌≡◌, arith, Bool, true, false}
use api_time_machine.Domain.{StoredEvent}
use api_time_machine.Result.{ok}
use api_time_machine.Aggregate.Product.{
  Product, Kind, created, deleted, kind, touch, apply_case, apply,
}

apply_case_touches :
    (k : Kind) (p q : Product) (e : StoredEvent)
    → apply_case k p e ≡ ok q
    → (q.id ≡ p.id) × (q.version ≡ p.version) × (q.updated_at ≡ p.updated_at)
unfolding apply_case
apply_case_touches created p q e h = ground arith
apply_case_touches _ p q e h = ground arith

-- Whatever the type of an event that is applied, the product takes its version and its time, and
-- keeps its id.
pub apply_touches :
    (p q : Product) (e : StoredEvent)
    → apply p e ≡ ok q
    → (q.id ≡ p.id) × (q.version ≡ e.version) × (q.updated_at ≡ e.created_at)
unfolding apply touch
apply_touches p q e h = apply_case_touches (kind e.event_type) (touch p e) q e h

-- Whether a product is deleted after an event of this kind.
abbrev pub deleted_after : Kind → Bool → Bool
deleted_after created was = false
deleted_after deleted was = true
deleted_after _ was = was

-- The type of the event alone says what becomes of the mark `deleted`.
pub apply_deleted :
    (p q : Product) (e : StoredEvent)
    → apply p e ≡ ok q
    → q.deleted ≡ deleted_after (kind e.event_type) p.deleted
unfolding apply touch
apply_deleted p q e h = by_case (kind e.event_type) h
  where
    by_case : (k : Kind) → apply_case k (touch p e) e ≡ ok q → q.deleted ≡ deleted_after k p.deleted
    by_case created h = ground arith
    by_case _ h = ground arith
