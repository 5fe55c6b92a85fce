-- ===== src/Worker/Outbox/Finish.antt =====
-- Passes of the publisher one after the other, with nothing in between.
use api_time_machine.Prelude.{
  ℕ, zero, suc, ◌<◌, ◌≤◌, Bool, true, not, ◌&&◌, ◌||◌, ◌≡◌, refl, sym, ap, ◌∙◌, subst, arith, List,
  [], ◌∷◌, map, filter, length, any, take, ◌⊎◌, inl, inr,
}
use api_time_machine.Prelude.Int.{ℤ, eqb_ℤ}
use api_time_machine.Prelude.Sort.{order_by, insert_row}
use api_time_machine.Json.{Json}
use api_time_machine.World.{World, OutboxRow, quiet}
use api_time_machine.Worker.Outbox.{id_le, publish_batch, unpublished}
use api_time_machine.Worker.Outbox.Drain.{mark_any, ids, publish_batch-marked}

abbrev pub count : List OutboxRow → ℕ
count rows = length (filter (λ r. not r.published) rows)

not-more : (is : List ℤ) (rows : List OutboxRow) → count (map (mark_any is) rows) ≤ count rows
not-more is [] = omega arith
not-more is (r ∷ rows) = ground (arith, not-more is rows)

-- A mark on an unpublished row leaves fewer of them.
fewer :
    (is : List ℤ) (rows : List OutboxRow)
    → any (λ r. not r.published && any (λ id. eqb_ℤ r.id id) is) rows ≡ true
    → count (map (mark_any is) rows) < count rows
fewer is [] h = cc (h)
fewer is (r ∷ rows) h = ground (arith, h, not-more is rows, fewer is rows)

any-insert_row :
    (p : OutboxRow → Bool) (le : OutboxRow → OutboxRow → Bool) (a : OutboxRow) (xs : List OutboxRow)
    → any p (insert_row le a xs) ≡ (p a || any p xs)
unfolding insert_row
any-insert_row p le a [] = ground arith
any-insert_row p le a (x ∷ xs) = ground (arith, any-insert_row p le a xs)

any-order_by :
    (p : OutboxRow → Bool) (le : OutboxRow → OutboxRow → Bool) (xs : List OutboxRow)
    → any p (order_by le xs) ≡ any p xs
unfolding order_by
any-order_by p le [] = refl
any-order_by p le (x ∷ xs) =
    any-insert_row p le x (order_by le xs) ∙ ground (arith, any-order_by p le xs)

any-filter :
    (p q : OutboxRow → Bool) (xs : List OutboxRow) → any q (filter p xs) ≡ any (λ x. p x && q x) xs
any-filter p q [] = refl
any-filter p q (x ∷ xs) = ground (arith, any-filter p q xs)

any-wider :
    (p q : OutboxRow → Bool) (xs : List OutboxRow)
    → ((x : OutboxRow) → p x ≡ true → q x ≡ true)
    → any p xs ≡ true
    → any q xs ≡ true
any-wider p q [] h e = cc (e)
any-wider p q (x ∷ xs) h e = ground (arith, h x, e, any-wider p q xs h)

length-insert_row :
    (le : OutboxRow → OutboxRow → Bool) (a : OutboxRow) (xs : List OutboxRow)
    → length (insert_row le a xs) ≡ suc (length xs)
unfolding insert_row
length-insert_row le a [] = omega arith
length-insert_row le a (x ∷ xs) = ground (arith, length-insert_row le a xs)

length-order_by :
    (le : OutboxRow → OutboxRow → Bool) (xs : List OutboxRow) → length (order_by le xs) ≡ length xs
unfolding order_by
length-order_by le [] = refl
length-order_by le (x ∷ xs) =
    length-insert_row le x (order_by le xs) ∙ ap suc (length-order_by le xs)

abbrev sorted : List OutboxRow → List OutboxRow
sorted rows = order_by id_le (filter (λ r. not r.published) rows)

length-sorted : (rows : List OutboxRow) → length (sorted rows) ≡ count rows
length-sorted rows = length-order_by id_le (filter (λ r. not r.published) rows)

-- The first row that is selected is one of the table's unpublished rows.
selected :
    (rows : List OutboxRow) (first : OutboxRow) (more : List OutboxRow) (is : List ℤ)
    → sorted rows ≡ first ∷ more
    → any (λ r. not r.published && any (λ id. eqb_ℤ r.id id) (first.id ∷ is)) rows ≡ true
selected rows first more is e =
    any-wider (λ r. not r.published && eqb_ℤ r.id first.id)
      (λ r. not r.published && any (λ id. eqb_ℤ r.id id) (first.id ∷ is)) rows
      (λ r h. ground (arith, h))
      (sym (any-filter (λ r. not r.published) (λ r. eqb_ℤ r.id first.id) rows)
        ∙ sym (any-order_by (λ r. eqb_ℤ r.id first.id) id_le (filter (λ r. not r.published) rows))
        ∙ ap (any (λ r. eqb_ℤ r.id first.id)) e
        ∙ ground arith)

one_pass :
    (rows : List OutboxRow)
    → suc (count (map (mark_any (ids (unpublished rows))) rows)) ≤ count rows ⊎ (count rows ≡ 0)
unfolding unpublished
one_pass rows = go (sorted rows) refl
  where
    go :
        (s : List OutboxRow)
        → sorted rows ≡ s
        → suc (count (map (mark_any (ids (take 100 (sorted rows)))) rows)) ≤ count rows
          ⊎ (count rows ≡ 0)
    go [] e = inr (sym (length-sorted rows) ∙ ap length e)
    go (first ∷ more) e = inl (
        subst (λ s. suc (count (map (mark_any (ids (take 100 s))) rows)) ≤ count rows) (sym e)
          (omega (
            arith,
            fewer (first.id ∷ ids (take 99 more)) rows
                (selected rows first more (ids (take 99 more)) e),
          )))

module _ {B : Type 0} (publish : Json → B → Bool × B) where
  abbrev pub passes : ℕ → World → B → World
  passes zero w b = w
  passes (suc n) w b =
      let end = publish_batch publish true (quiet w) b in passes n end.world end.broker

  -- Where the broker accepts every payload, no call of the driver fails and nothing else works on
  -- the tables, as many passes of the publisher as there are unpublished outbox rows, or more,
  -- leave none unpublished.
  pub passes-count :
      (n : ℕ) (w : World) (b : B)
      → ((j : Json) (b : B) → (publish j b).0 ≡ true)
      → count w.db.outbox ≤ n
      → count (passes n w b).db.outbox ≡ 0
  passes-count zero w b accepts h = omega (arith, h)
  passes-count (suc n) w b accepts h =
      let end = publish_batch publish true (quiet w) b in
      let marked = (publish_batch-marked publish w b accepts).1 in
      passes-count n end.world end.broker accepts (after_pass (one_pass w.db.outbox) marked)
    where
      after_pass :
          suc (count (map (mark_any (ids (unpublished w.db.outbox))) w.db.outbox))
              ≤ count w.db.outbox
            ⊎ (count w.db.outbox ≡ 0)
          → (publish_batch publish true (quiet w) b).world.db.outbox
            ≡ map (mark_any (ids (unpublished w.db.outbox))) w.db.outbox
          → count (publish_batch publish true (quiet w) b).world.db.outbox ≤ n
      after_pass (inl less) e = subst (λ rows. count rows ≤ n) (sym e) (omega (arith, less, h))
      after_pass (inr none_left) e =
          subst (λ rows. count rows ≤ n) (sym e)
            (omega (arith, none_left, not-more (ids (unpublished w.db.outbox)) w.db.outbox))
