-- ===== src/EventStore/Log.antt =====
-- The log of an aggregate: its versions are 1, 2, 3, … in the order of the inserts.
use mathlib.Core.List.{append-nil}
use mathlib.Core.Bool.{false≢true}
use native.Mathlib.Decide.{dec_lt}
use api_time_machine.Prelude.{
  ℕ, suc, ◌+◌, ◌≤◌, ◌<◌, String, Bool, true, false, ◌&&◌, ◌≡◌, refl, sym, ap, ap₂, ◌∙◌, inl, inr,
  arith, List, [], ◌∷◌, ◌++◌, length, filter, filter-append, any, Bool-cases, eq_iff,
}
use api_time_machine.Prelude.Int.{pos, eqb_ℤ}
use api_time_machine.Domain.{StoredEvent, AppendEvent}
use api_time_machine.EventStore.{of_aggregate, same_version, max_version}

-- The events of the aggregate, in the order of the table.
abbrev pub log : String → String → List StoredEvent → List StoredEvent
log aggregate_type id events = filter (of_aggregate aggregate_type id) events

abbrev pub IsContiguous : ℕ → List StoredEvent → Type 0
IsContiguous n [] = Unit
IsContiguous n (e ∷ es) = (e.version ≡ pos (suc n)) × IsContiguous (suc n) es

-- Every aggregate has the versions from 1 to the length of its log, once each and in order.
abbrev pub IsLog : List StoredEvent → Type 0
IsLog events = (aggregate_type id : String) → IsContiguous 0 (log aggregate_type id events)

pub max_version-IsContiguous :
    (n : ℕ) (e : StoredEvent) (es : List StoredEvent)
    → IsContiguous n (e ∷ es)
    → max_version (e ∷ es) ≡ pos (n + length (e ∷ es))
unfolding max_version
max_version-IsContiguous n e [] h = h.0 ∙ ap pos (omega arith)
max_version-IsContiguous n e (f ∷ es) h =
    ground (arith, h.0, max_version-IsContiguous (suc n) f es h.1)

-- The latest version is the length of the log.
pub max_version-log : (es : List StoredEvent) → IsContiguous 0 es → max_version es ≡ pos (length es)
max_version-log [] h = unfold max_version in refl
max_version-log (e ∷ es) h = max_version-IsContiguous 0 e es h ∙ ap pos (omega arith)

IsContiguous-snoc :
    (n : ℕ) (es : List StoredEvent) (e : StoredEvent)
    → IsContiguous n es
    → e.version ≡ pos (suc (n + length es))
    → IsContiguous n (es ++ e ∷ [])
IsContiguous-snoc n [] e h v = (v ∙ ap pos (omega arith), tt)
IsContiguous-snoc n (x ∷ es) e h v =
    (h.0, IsContiguous-snoc (suc n) es e h.1 (v ∙ ap pos (omega arith)))

of_aggregate→eq :
    (t i : String) (e : StoredEvent)
    → of_aggregate t i e ≡ true
    → (e.aggregate_type ≡ t) × (e.aggregate_id ≡ i)
unfolding of_aggregate
of_aggregate→eq t i e h = ground (arith, eq_iff e.aggregate_type t, eq_iff e.aggregate_id i)

-- One more event, with the next version of its aggregate.
pub IsLog-append :
    (events : List StoredEvent) (e : StoredEvent)
    → IsLog events
    → e.version ≡ pos (suc (length (log e.aggregate_type e.aggregate_id events)))
    → IsLog (events ++ e ∷ [])
IsLog-append events e h v t i =
    rw (filter-append (of_aggregate t i) events (e ∷ [])) (elim (Bool-cases (of_aggregate t i e)) [
      | inl mine ↦
          let (same_type, same_id) = of_aggregate→eq t i e mine in
          rw mine (
            IsContiguous-snoc 0 (log t i events) e (h t i) (
              v
              ∙ ap₂ (λ t i. pos (suc (length (log t i events)))) same_type same_id
              ∙ ap (λ (n : ℕ). pos (suc n)) (omega arith)))
      | inr other ↦ rw (other, append-nil) (h t i)
    ])

-- A version from 1 to the length of the log is taken.
taken :
    (k n : ℕ) (es : List StoredEvent)
    → IsContiguous n es
    → n ≤ k
    → k < n + length es
    → any (λ e. eqb_ℤ e.version (pos (suc k))) es ≡ true
taken k n [] h lo hi = absurd (omega arith)
taken k n (e ∷ es) h lo hi = ground (arith, h.0, taken k (suc n) es h.1)

pub any-filter :
    (p q : StoredEvent → Bool) (es : List StoredEvent)
    → any q (filter p es) ≡ any (λ e. p e && q e) es
any-filter p q [] = refl
any-filter p q (e ∷ es) = ground (arith, any-filter p q es)

-- An insert that the unique constraint lets through, with the version after one that was read
-- from this log or an earlier one, takes the next version of the log as it is now.
pub next_version :
    (a : AppendEvent) (events : List StoredEvent) (k : ℕ)
    → IsLog events
    → a.version ≡ pos (suc k)
    → k ≤ length (log a.aggregate_type a.aggregate_id events)
    → any (same_version a) events ≡ false
    → k ≡ length (log a.aggregate_type a.aggregate_id events)
unfolding same_version
next_version a events k h v le free =
    let mine = log a.aggregate_type a.aggregate_id events in
    elim (dec_lt k (length mine)) [
      | yes below ↦
          let found =
            taken k 0 mine (h a.aggregate_type a.aggregate_id) (omega arith) (omega arith) in
          absurd (
            false≢true (
              sym free
              ∙ sym (any-filter (of_aggregate a.aggregate_type a.aggregate_id) _ events)
              ∙ ap (λ v. any (λ e. eqb_ℤ e.version v) mine) v
              ∙ found))
      | no above ↦ omega arith
    ]
