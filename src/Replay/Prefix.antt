-- ===== src/Replay/Prefix.antt =====
-- The rows of a log up to a version.
use mathlib.Core.List.{append-nil}
use api_time_machine.Prelude.{
  ℕ, zero, suc, ◌+◌, ◌≤◌, String, true, false, ◌&&◌, ◌≡◌, refl, sym, ap, subst, ◌∙◌, inl, inr,
  arith, List, [], ◌∷◌, ◌++◌, length, filter, filter-append, filter-filter, filter-cong, take, All,
  Bool-cases, if◌then◌else◌,
}
use package.text.Mathlib.TextPositions.{eq_refl}
use api_time_machine.Prelude.Int.{ℤ, pos, leb_ℤ, ◌<ℤ◌, ◌≤ℤ◌}
use api_time_machine.Prelude.Sort.{order_by, insert_row, IsSorted}
use api_time_machine.Domain.{StoredEvent}
use api_time_machine.EventStore.{of_aggregate, version_le, within, rows_until}
use api_time_machine.Replay.Correct.{up_to, IsNumbered}
use api_time_machine.EventStore.Log.{log, IsLog, IsContiguous}

-- From the version `n` on, the versions of a log are above `n`.
above :
    (k n : ℕ) (es : List StoredEvent)
    → k ≤ n
    → IsContiguous n es
    → All (λ e. leb_ℤ e.version (pos k) ≡ false) es
above k n [] h c = tt
above k n (e ∷ es) h c = (ground (arith, c.0), above k (suc n) es (omega arith) c.1)

none_above :
    (v : ℤ) (es : List StoredEvent)
    → All (λ e. leb_ℤ e.version v ≡ false) es
    → filter (λ e. leb_ℤ e.version v) es ≡ []
none_above v [] h = refl
none_above v (e ∷ es) h = rw h.0 (none_above v es h.1)

filter-take :
    (k n : ℕ) (es : List StoredEvent)
    → IsContiguous k es
    → filter (λ e. leb_ℤ e.version (pos (k + n))) es ≡ take n es
filter-take k zero es h = none_above (pos (k + 0)) es (above (k + 0) k es (omega arith) h)
filter-take k (suc n) [] h = refl
filter-take k (suc n) (e ∷ es) h =
    let ih : filter (λ e. leb_ℤ e.version (pos (k + suc n))) es ≡ take n es =
      ap (λ (m : ℕ). filter (λ e. leb_ℤ e.version (pos m)) es) (omega arith)
      ∙ filter-take (suc k) n es h.1 in
    ground (arith, h.0, ih)

-- A sorted table is not moved by a sort.
insert_row-below :
    (e : StoredEvent) (es : List StoredEvent)
    → All (λ f. version_le e f ≡ true) es
    → insert_row version_le e es ≡ e ∷ es
unfolding insert_row
insert_row-below e [] h = refl
insert_row-below e (f ∷ es) h = rw h.0

pub order_by-sorted : (es : List StoredEvent) → IsSorted version_le es → order_by version_le es ≡ es
unfolding order_by
order_by-sorted [] h = refl
order_by-sorted (e ∷ es) h =
    ap (insert_row version_le e) (order_by-sorted es h.1) ∙ insert_row-below e es h.0

later_versions :
    (e : StoredEvent) (k n : ℕ) (es : List StoredEvent)
    → e.version ≡ pos k
    → k ≤ n
    → IsContiguous n es
    → All (λ f. version_le e f ≡ true) es
later_versions e k n [] h le c = tt
later_versions e k n (f ∷ es) h le c =
    (ground (arith, h, c.0), later_versions e k (suc n) es h (omega arith) c.1)

pub IsContiguous-IsSorted :
    (n : ℕ) (es : List StoredEvent) → IsContiguous n es → IsSorted version_le es
IsContiguous-IsSorted n [] c = tt
IsContiguous-IsSorted n (e ∷ es) c = (
  later_versions e (suc n) (suc n) es c.0 (omega arith) c.1,
  IsContiguous-IsSorted (suc n) es c.1,
)

IsContiguous-take :
    (n k : ℕ) (es : List StoredEvent) → IsContiguous n es → IsContiguous n (take k es)
IsContiguous-take n zero es c = tt
IsContiguous-take n (suc k) [] c = tt
IsContiguous-take n (suc k) (e ∷ es) c = (c.0, IsContiguous-take (suc n) k es c.1)

IsContiguous-rest :
    (n : ℕ) (xs ys : List StoredEvent) → IsContiguous n (xs ++ ys) → IsContiguous (n + length xs) ys
IsContiguous-rest n [] ys c = subst (λ (m : ℕ). IsContiguous m ys) (omega arith) c
IsContiguous-rest n (x ∷ xs) ys c =
    subst (λ (m : ℕ). IsContiguous m ys) (omega arith) (IsContiguous-rest (suc n) xs ys c.1)

All-logs :
    (P : StoredEvent → Type 0) (es : List StoredEvent)
    → ((t i : String) → All P (log t i es))
    → All P es
unfolding of_aggregate
All-logs P [] h = tt
All-logs P (e ∷ es) h =
    (first (h e.aggregate_type e.aggregate_id), All-logs P es (λ t i. later t i (h t i)))
  where
    mine : of_aggregate e.aggregate_type e.aggregate_id e ≡ true
    mine = rw (eq_refl e.aggregate_type, eq_refl e.aggregate_id) refl

    first : All P (log e.aggregate_type e.aggregate_id (e ∷ es)) → P e
    first h =
        (subst
          (λ b. All P (
            if b
            then e ∷ log e.aggregate_type e.aggregate_id es
            else log e.aggregate_type e.aggregate_id es))
          mine h).0

    later : (t i : String) → All P (log t i (e ∷ es)) → All P (log t i es)
    later t i h = elim (Bool-cases (of_aggregate t i e)) [
      | inl kept ↦ (subst (λ b. All P (if b then e ∷ log t i es else log t i es)) kept h).1
      | inr dropped ↦ subst (λ b. All P (if b then e ∷ log t i es else log t i es)) dropped h
    ]

positive : (n : ℕ) (es : List StoredEvent) → IsContiguous n es → All (λ e. pos 0 <ℤ e.version) es
positive n [] c = tt
positive n (e ∷ es) c = (subst (λ v. pos 0 <ℤ v) (sym c.0) (omega arith), positive (suc n) es c.1)

-- Versions count from 1.
pub IsLog-IsNumbered : (events : List StoredEvent) → IsLog events → IsNumbered events
IsLog-IsNumbered events h =
    All-logs (λ e. pos 0 <ℤ e.version) events (λ t i. positive 0 (log t i events) (h t i))

module _ (t i : String) where
  rows_until-log :
      (v : ℤ) (events : List StoredEvent)
      → rows_until t i (up_to v) events
        ≡ order_by version_le (filter (λ e. leb_ℤ e.version v) (log t i events))
  unfolding rows_until
  rows_until-log v events = ap (order_by version_le) (
      filter-cong (λ e. of_aggregate t i e && within (up_to v) e)
        (λ e. of_aggregate t i e && leb_ℤ e.version v) events (only_version events)
      ∙ sym (filter-filter (λ e. leb_ℤ e.version v) (of_aggregate t i) events))
    where
      only_version :
          (es : List StoredEvent)
          → All
              (λ e.
                (of_aggregate t i e && within (up_to v) e)
                ≡ (of_aggregate t i e && leb_ℤ e.version v))
              es
      only_version [] = tt
      only_version (e ∷ es) = (unfold within in ground arith, only_version es)

  -- The rows up to the version `n` are the first `n` events.
  pub rows_until-take :
      (n : ℕ) (events : List StoredEvent)
      → IsLog events
      → rows_until t i (up_to (pos n)) events ≡ take n (log t i events)
  rows_until-take n events h =
      rows_until-log (pos n) events
      ∙ ap (λ (m : ℕ). order_by version_le (filter (λ e. leb_ℤ e.version (pos m)) (log t i events)))
          (omega arith)
      ∙ ap (order_by version_le) (filter-take 0 n (log t i events) (h t i))
      ∙ order_by-sorted (take n (log t i events)) (
          IsContiguous-IsSorted 0 (take n (log t i events))
            (IsContiguous-take 0 n (log t i events) (h t i)))

  -- Later events do not change the rows up to a version that the log has reached.
  pub rows_until-append :
      (v : ℤ) (events more : List StoredEvent)
      → IsLog (events ++ more)
      → v ≤ℤ pos (length (log t i events))
      → rows_until t i (up_to v) (events ++ more) ≡ rows_until t i (up_to v) events
  rows_until-append v events more h le =
      rows_until-log v (events ++ more)
      ∙ ap (order_by version_le) (
          ap (filter (λ e. leb_ℤ e.version v)) (filter-append (of_aggregate t i) events more)
          ∙ filter-append (λ e. leb_ℤ e.version v) (log t i events) (log t i more)
          ∙ ap (λ es. filter (λ e. leb_ℤ e.version v) (log t i events) ++ es)
              (none_above v (log t i more) (beyond (log t i more) rest))
          ∙ append-nil (filter (λ e. leb_ℤ e.version v) (log t i events)))
      ∙ sym (rows_until-log v events)
    where
      rest : IsContiguous (length (log t i events)) (log t i more)
      rest =
          subst (λ (m : ℕ). IsContiguous m (log t i more)) (omega arith)
            (IsContiguous-rest 0 (log t i events) (log t i more)
              (subst (IsContiguous 0) (filter-append (of_aggregate t i) events more) (h t i)))

      above_all :
          (n : ℕ) (es : List StoredEvent)
          → v ≤ℤ pos n
          → IsContiguous n es
          → All (λ e. leb_ℤ e.version v ≡ false) es
      above_all n [] le c = tt
      above_all n (e ∷ es) le c = (ground (arith, c.0), above_all (suc n) es (omega arith) c.1)

      beyond :
          (es : List StoredEvent)
          → IsContiguous (length (log t i events)) es
          → All (λ e. leb_ℤ e.version v ≡ false) es
      beyond es c = above_all (length (log t i events)) es le c
