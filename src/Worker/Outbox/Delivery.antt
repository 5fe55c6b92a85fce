-- ===== src/Worker/Outbox/Delivery.antt =====
-- At least once: a row is marked as published only after the broker has accepted it.
use api_time_machine.Prelude.{
  Bool, true, false, not, ◌≡◌, refl, sym, ap, ◌∙◌, arith, List, [], ◌∷◌, ◌++◌, map, filter,
  filter-cong, filter-filter, ◌&&◌, ◌⊎◌, any, All, if◌then◌else◌, Bool-cases, inl, inr,
}
use api_time_machine.Prelude.Int.{ℤ, eqb_ℤ}
use api_time_machine.Json.{Json}
use api_time_machine.Result.{Result-cases}
use api_time_machine.World.{World, Db, OutboxRow, call, call_keeps}
use api_time_machine.Worker.Outbox.{Batch, mark_row, mark, publish_rows, publish_batch, unpublished}

-- The rows of which the broker has not accepted the id.
abbrev pub others : List ℤ → List OutboxRow → List OutboxRow
others ids rows = filter (λ r. not (any (λ id. eqb_ℤ r.id id) ids)) rows

any-snoc :
    (p : ℤ → Bool) (xs : List ℤ) (x : ℤ) → any p (xs ++ x ∷ []) ≡ (if any p xs then true else p x)
any-snoc p [] x = ground arith
any-snoc p (y ∷ xs) x = ground (arith, any-snoc p xs x)

others-mark_row :
    (ids : List ℤ) (id : ℤ) (rows : List OutboxRow)
    → others (ids ++ id ∷ []) (map (mark_row id) rows) ≡ others (ids ++ id ∷ []) rows
others-mark_row ids id [] = refl
others-mark_row ids id (r ∷ rows) =
    ground (arith, any-snoc (λ i. eqb_ℤ r.id i) ids id, others-mark_row ids id rows)

others-snoc :
    (ids : List ℤ) (id : ℤ) (rows : List OutboxRow)
    → others (ids ++ id ∷ []) rows ≡ filter (λ r. not (eqb_ℤ r.id id)) (others ids rows)
others-snoc ids id rows =
    filter-cong _ _ rows (go rows)
    ∙ sym (filter-filter (λ r. not (eqb_ℤ r.id id)) (λ r. not (any (λ i. eqb_ℤ r.id i) ids)) rows)
  where
    go :
        (rows : List OutboxRow)
        → All
            (λ r.
              not (any (λ i. eqb_ℤ r.id i) (ids ++ id ∷ []))
              ≡ (not (any (λ i. eqb_ℤ r.id i) ids) && not (eqb_ℤ r.id id)))
            rows
    go [] = tt
    go (r ∷ rows) = (ground (arith, any-snoc (λ i. eqb_ℤ r.id i) ids id), go rows)

-- `before` is the table when the pass begins.
abbrev IsKept : {B : Type 0} → List OutboxRow → Batch B → Type 0
IsKept before s = others s.accepted s.world.db.outbox ≡ others s.accepted before

mark_outbox :
    (id : ℤ) (w : World)
    → ((mark id w).1.db.outbox ≡ w.db.outbox)
      ⊎ ((mark id w).1.db.outbox ≡ map (mark_row id) w.db.outbox)
unfolding mark
mark_outbox id w = elim (Result-cases (call w).0) [
  | inl (u, e) ↦ inr (ground (arith, call_keeps w))
  | inr (x, e) ↦ inl (ground (arith, call_keeps w))
]

mark-kept :
    (before : List OutboxRow) (ids : List ℤ) (id : ℤ) (w : World)
    → others ids w.db.outbox ≡ others ids before
    → others (ids ++ id ∷ []) (mark id w).1.db.outbox ≡ others (ids ++ id ∷ []) before
mark-kept before ids id w h =
    let same : others (ids ++ id ∷ []) w.db.outbox ≡ others (ids ++ id ∷ []) before =
      others-snoc ids id w.db.outbox
      ∙ ap (filter (λ r. not (eqb_ℤ r.id id))) h
      ∙ sym (others-snoc ids id before) in
    elim (mark_outbox id w) [
      | inl e ↦ ap (others (ids ++ id ∷ [])) e ∙ same
      | inr e ↦ ap (others (ids ++ id ∷ [])) e ∙ others-mark_row ids id w.db.outbox ∙ same
    ]

module _ {B : Type 0} (publish : Json → B → Bool × B) (before : List OutboxRow) where
  publish_rows-IsKept :
      (rows : List OutboxRow) (s : Batch B)
      → IsKept before s
      → IsKept before (publish_rows publish rows s)
  unfolding publish_rows
  publish_rows-IsKept [] s h = h
  publish_rows-IsKept (r ∷ rows) s h = elim (Bool-cases (publish r.payload s.broker).0) [
    | inl taken ↦
        rw (taken, publish_rows)
          (publish_rows-IsKept rows _ (mark-kept before s.accepted r.id s.world h))
    | inr refused ↦ rw (refused, publish_rows) h
  ]

-- Whatever calls fail, a pass of the publisher leaves every outbox row as it was, apart from rows
-- with the id of a row whose payload the broker accepted in that pass.
pub publish_batch-kept :
    {B : Type 0} (publish : Json → B → Bool × B) (connected : Bool) (w : World) (b : B)
    → let end = publish_batch publish connected w b in
      others end.accepted end.world.db.outbox ≡ others end.accepted w.db.outbox
unfolding publish_batch
publish_batch-kept publish false w b = refl
publish_batch-kept publish true w b = elim (Result-cases (call w).0) [
  | inl (u, e) ↦
      rw (e, publish_batch)
        (publish_rows-IsKept publish w.db.outbox (unpublished (call w).1.db.outbox) _
          (ap (λ (db : Db). others [] db.outbox) (call_keeps w).0))
  | inr (x, e) ↦ rw (e, publish_batch) (ap (λ (db : Db). others [] db.outbox) (call_keeps w).0)
]
