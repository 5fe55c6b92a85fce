-- ===== src/Replay/Reference.antt =====
-- What a replay should return: the events that the query selects, in the order of their versions,
-- applied one after the other to a new aggregate, with no snapshot.
use mathlib.Core.Path.{ap₂}
use api_time_machine.Prelude.{
  String, Bool, true, false, not, ◌&&◌, ◌≡◌, refl, ap, ◌∙◌, inl, inr, List, [], ◌∷◌, ◌++◌, arith,
  filter, All, filter-filter, Bool-cases, if◌then◌else◌,
}
use api_time_machine.Prelude.Int.{ℤ, pos, leb_ℤ, eqb_ℤ}
use api_time_machine.Prelude.Sort.{order_by, IsSorted, order_by-IsSorted, filter-order_by}
use api_time_machine.Domain.{StoredEvent, ReplayQuery}
use api_time_machine.Aggregate.{Aggregate}
use api_time_machine.EventStore.{version_le, of_aggregate, within, rows_until}
use api_time_machine.Result.{Result, ok, err, not_found, ◌>>=◌, Result-cases}
use api_time_machine.Replay.{apply_events}

module _ {A : Type 0} (agg : Aggregate A) where
  open agg use {fresh, apply, current_version}

  unfoldable pub apply_all : A → List StoredEvent → Result A
  apply_all a [] = ok a
  apply_all a (e ∷ es) = apply a e >>= λ a'. apply_all a' es

  -- The test at the end of `replay`.
  abbrev pub or_not_found : A → Result A
  or_not_found a = if eqb_ℤ (current_version a) (pos 0) then err not_found else ok a

  unfoldable pub reference : String → String → ReplayQuery → List StoredEvent → Result A
  unfolding apply_all
  reference aggregate_type id query events =
      apply_all (fresh id) (rows_until aggregate_type id query events) >>= or_not_found

  pub apply_all-append :
      (a : A) (xs ys : List StoredEvent)
      → apply_all a (xs ++ ys) ≡ (apply_all a xs >>= λ b. apply_all b ys)
  unfolding apply_all
  apply_all-append a [] ys = refl
  apply_all-append a (x ∷ xs) ys = elim (Result-cases (apply a x)) [
    | inl (b, e) ↦ rw e (apply_all-append b xs ys)
    | inr (e, h) ↦ rw h
  ]

  -- The loop of `replay` applies the events above the version that it starts from.
  pub apply_events_lem :
      (v : ℤ) (a : A) (es : List StoredEvent)
      → apply_events agg v a es ≡ apply_all a (filter (λ e. not (leb_ℤ e.version v)) es)
  unfolding apply_events apply_all
  apply_events_lem v a [] = refl
  apply_events_lem v a (e ∷ es) = elim (Bool-cases (leb_ℤ e.version v)) [
    | inl skipped ↦ rw (skipped, apply_events) (apply_events_lem v a es)
    | inr applied ↦ elim (Result-cases (apply a e)) [
      | inl (b, h) ↦ rw (applied, apply_events) (rw h (apply_events_lem v b es))
      | inr (x, h) ↦ rw (applied, apply_events) (rw h)
    ]
  ]

pub version_le_trans :
    (a b c : StoredEvent) → version_le a b ≡ true → version_le b c ≡ true → version_le a c ≡ true
version_le_trans a b c h k = ground arith

pub version_le_total : (a b : StoredEvent) → version_le a b ≡ false → version_le b a ≡ true
version_le_total a b h = ground arith

none_below :
    (v : ℤ) (x : StoredEvent) (xs : List StoredEvent)
    → leb_ℤ x.version v ≡ false
    → All (λ y. version_le x y ≡ true) xs
    → filter (λ e. leb_ℤ e.version v) xs ≡ []
none_below v x [] h all = refl
none_below v x (y ∷ ys) h all = ground (arith, all.0, none_below v x ys h all.1)

keep_above :
    (v : ℤ) (x : StoredEvent) (xs : List StoredEvent)
    → leb_ℤ x.version v ≡ false
    → All (λ y. version_le x y ≡ true) xs
    → filter (λ e. not (leb_ℤ e.version v)) xs ≡ xs
keep_above v x [] h all = refl
keep_above v x (y ∷ ys) h all = ground (arith, all.0, keep_above v x ys h all.1)

-- In the order of versions, the events up to `v` stand before the others.
pub split_at_version :
    (v : ℤ) (xs : List StoredEvent)
    → IsSorted version_le xs
    → filter (λ e. leb_ℤ e.version v) xs ++ filter (λ e. not (leb_ℤ e.version v)) xs ≡ xs
split_at_version v [] h = refl
split_at_version v (x ∷ xs) h = elim (Bool-cases (leb_ℤ x.version v)) [
  | inl below ↦ rw below (ap (λ l. x ∷ l) (split_at_version v xs h.1))
  | inr above ↦
      rw above (ap₂ (λ k l. k ++ x ∷ l) (none_below v x xs above h.0) (keep_above v x xs above h.0))
]

module _ (aggregate_type id : String) (query : ReplayQuery) (events : List StoredEvent) where
  pub rows_until-IsSorted : IsSorted version_le (rows_until aggregate_type id query events)
  unfolding rows_until
  rows_until-IsSorted =
      order_by-IsSorted version_le version_le_trans version_le_total
        (filter (λ e. of_aggregate aggregate_type id e && within query e) events)

  pub filter-rows_until :
      (p : StoredEvent → Bool)
      → filter p (rows_until aggregate_type id query events)
        ≡ order_by version_le
            (filter (λ e. (of_aggregate aggregate_type id e && within query e) && p e) events)
  unfolding rows_until
  filter-rows_until p =
      filter-order_by version_le version_le_trans version_le_total p _
      ∙ ap (order_by version_le) (filter-filter p _ events)
