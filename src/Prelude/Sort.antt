-- ===== src/Prelude/Sort.antt =====
-- ORDER BY: insertion sort by a Boolean order. Rows that compare equal keep their order in the table.
use mathlib.Core.Bool.{Bool, true, false}
use mathlib.Core.Path.{◌≡◌, refl, ap, ◌∙◌}
use mathlib.Core.List.{List, [], ◌∷◌}
use mathlib.Core.Logic.{inl, inr}
use native.Mathlib.Omega.{arith}
use api_time_machine.Prelude.Tests.{if◌then◌else◌, Bool-cases}
use api_time_machine.Prelude.Lists.{All, filter, All-filter}

module _ {ℓ} {A : Type ℓ} (le : A → A → Bool) where
  unfoldable pub insert_row : A → List A → List A
  insert_row a [] = a ∷ []
  insert_row a (x ∷ xs) = if le a x then a ∷ x ∷ xs else x ∷ insert_row a xs

  unfoldable pub order_by : List A → List A
  unfolding insert_row
  order_by [] = []
  order_by (x ∷ xs) = insert_row x (order_by xs)

  abbrev pub IsSorted : List A → Type ℓ
  IsSorted [] = Unit
  IsSorted (x ∷ xs) = All (λ y. le x y ≡ true) xs × IsSorted xs

module _ {ℓ} {A : Type ℓ} (le : A → A → Bool)
    (le_trans : (a b c : A) → le a b ≡ true → le b c ≡ true → le a c ≡ true)
    (le_total : (a b : A) → le a b ≡ false → le b a ≡ true) where
  All-le_trans :
      (a x : A) (xs : List A)
      → le a x ≡ true
      → All (λ y. le x y ≡ true) xs
      → All (λ y. le a y ≡ true) xs
  All-le_trans a x [] h all = all
  All-le_trans a x (y ∷ xs) h all = (le_trans a x y h all.0, All-le_trans a x xs h all.1)

  All-insert_row :
      (P : A → Type 0) (a : A) (xs : List A) → P a → All P xs → All P (insert_row le a xs)
  unfolding insert_row
  All-insert_row P a [] pa all = (pa, all)
  All-insert_row P a (x ∷ xs) pa all = elim (Bool-cases (le a x)) [
    | inl first ↦ rw first (pa, all)
    | inr later ↦ rw later (all.0, All-insert_row P a xs pa all.1)
  ]

  insert_row-IsSorted : (a : A) (xs : List A) → IsSorted le xs → IsSorted le (insert_row le a xs)
  unfolding insert_row
  insert_row-IsSorted a [] h = (tt, tt)
  insert_row-IsSorted a (x ∷ xs) h = elim (Bool-cases (le a x)) [
    | inl first ↦ rw first ((first, All-le_trans a x xs first h.0), h)
    | inr later ↦ rw later (
      All-insert_row (λ y. le x y ≡ true) a xs (le_total a x later) h.0,
      insert_row-IsSorted a xs h.1,
    )
  ]

  pub order_by-IsSorted : (xs : List A) → IsSorted le (order_by le xs)
  unfolding order_by
  order_by-IsSorted [] = tt
  order_by-IsSorted (x ∷ xs) = insert_row-IsSorted x (order_by le xs) (order_by-IsSorted xs)

  insert_row_first :
      (a : A) (xs : List A) → All (λ y. le a y ≡ true) xs → insert_row le a xs ≡ a ∷ xs
  unfolding insert_row
  insert_row_first a [] h = refl
  insert_row_first a (x ∷ xs) h = rw h.0

  insert_row_later :
      (a x : A) (xs : List A) → le a x ≡ false → insert_row le a (x ∷ xs) ≡ x ∷ insert_row le a xs
  unfolding insert_row
  insert_row_later a x xs h = rw h

  filter-insert_row :
      (p : A → Bool) (a : A) (xs : List A)
      → IsSorted le xs
      → filter p (insert_row le a xs) ≡ (if p a then insert_row le a (filter p xs) else filter p xs)
  filter-insert_row p a [] h = unfold insert_row in refl
  filter-insert_row p a (x ∷ xs) h = elim (Bool-cases (le a x)) [
    | inl first ↦
        let all : All (λ y. le a y ≡ true) (x ∷ xs) = (first, All-le_trans a x xs first h.0) in
        let moved = insert_row_first a (filter p (x ∷ xs)) (All-filter _ p (x ∷ xs) all) in
        rw (insert_row_first a (x ∷ xs) all, moved)
    | inr later ↦
        rw (insert_row_later a x xs later)
          (ground (arith, filter-insert_row p a xs h.1, insert_row_later a x (filter p xs) later))
  ]

  -- A WHERE clause may be applied before or after the sort.
  pub filter-order_by :
      (p : A → Bool) (xs : List A) → filter p (order_by le xs) ≡ order_by le (filter p xs)
  unfolding order_by
  filter-order_by p [] = refl
  filter-order_by p (x ∷ xs) =
      filter-insert_row p x (order_by le xs) (order_by-IsSorted xs) ∙ elim (Bool-cases (p x)) [
        | inl kept ↦ rw kept (ap (insert_row le x) (filter-order_by p xs))
        | inr dropped ↦ rw dropped (filter-order_by p xs)
      ]
