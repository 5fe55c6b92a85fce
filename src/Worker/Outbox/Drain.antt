-- ===== src/Worker/Outbox/Drain.antt =====
-- A pass of the publisher in which nothing fails.
use api_time_machine.Prelude.{
  Bool, true, ◌≡◌, refl, sym, ap, ◌∙◌, arith, List, [], ◌∷◌, ◌++◌, map, any, if◌then◌else◌,
}
use mathlib.Core.List.{append-nil, append_assoc}
use api_time_machine.Prelude.Int.{ℤ, eqb_ℤ}
use api_time_machine.Json.{Json}
use api_time_machine.World.{World, OutboxRow, call, quiet}
use api_time_machine.Worker.Outbox.{Batch, mark_row, mark, publish_rows, publish_batch, unpublished}

abbrev pub mark_any : List ℤ → OutboxRow → OutboxRow
mark_any ids r = if any (λ id. eqb_ℤ r.id id) ids then record r { published = true } else r

mark_any-cons :
    (id : ℤ) (ids : List ℤ) (rows : List OutboxRow)
    → map (mark_any ids) (map (mark_row id) rows) ≡ map (mark_any (id ∷ ids)) rows
mark_any-cons id ids [] = refl
mark_any-cons id ids (r ∷ rows) = ground (arith, mark_any-cons id ids rows)

mark_any-nil : (rows : List OutboxRow) → map (mark_any []) rows ≡ rows
mark_any-nil [] = refl
mark_any-nil (r ∷ rows) = ground (arith, mark_any-nil rows)

mark-quiet :
    (id : ℤ) (w : World)
    → w.faults ≡ []
    → ((mark id w).1.db.outbox ≡ map (mark_row id) w.db.outbox) × ((mark id w).1.faults ≡ [])
unfolding mark call
mark-quiet id w e = ground (arith, e)

abbrev pub ids : List OutboxRow → List ℤ
ids rows = map (λ r. r.id) rows

module _ {B : Type 0} (publish : Json → B → Bool × B) where
  -- What is left of a batch once its rows are published.
  abbrev IsDone : List OutboxRow → Batch B → Batch B → Type 0
  IsDone rows s end =
      (end.accepted ≡ s.accepted ++ ids rows)
      × (end.world.db.outbox ≡ map (mark_any (ids rows)) s.world.db.outbox)

  publish_rows-IsDone :
      ((j : Json) (b : B) → (publish j b).0 ≡ true)
      → (rows : List OutboxRow) (s : Batch B) → s.world.faults ≡ []
      → IsDone rows s (publish_rows publish rows s)
  unfolding publish_rows
  publish_rows-IsDone accepts [] s e =
      (sym (append-nil s.accepted), sym (mark_any-nil s.world.db.outbox))
  publish_rows-IsDone accepts (r ∷ rows) s e =
      let m = mark-quiet r.id s.world e in
      let next : Batch B = record {
        world = (mark r.id s.world).1;
        broker = (publish r.payload s.broker).1;
        accepted = s.accepted ++ r.id ∷ [];
      } in
      let rest = publish_rows-IsDone accepts rows next m.1 in
      rw (accepts r.payload s.broker, publish_rows)
        (
          rest.0 ∙ append_assoc s.accepted (r.id ∷ []) (ids rows),
          rest.1
              ∙ ap (map (mark_any (ids rows))) m.0
              ∙ mark_any-cons r.id (ids rows) s.world.db.outbox,
        )

  -- Where the broker accepts every payload and no call of the driver fails, a pass of a connected
  -- publisher hands over the rows that it selects, in their order, and marks as published the rows
  -- with their ids and no others.
  pub publish_batch-marked :
      (w : World) (b : B)
      → ((j : Json) (b : B) → (publish j b).0 ≡ true)
      → let end = publish_batch publish true (quiet w) b in
        (end.accepted ≡ ids (unpublished w.db.outbox))
        × (end.world.db.outbox ≡ map (mark_any (ids (unpublished w.db.outbox))) w.db.outbox)
  unfolding publish_batch call
  publish_batch-marked w b accepts =
      publish_rows-IsDone accepts (unpublished w.db.outbox)
        (record { world = quiet w; broker = b; accepted = [] }) refl
