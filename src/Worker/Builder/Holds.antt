-- ===== src/Worker/Builder/Holds.antt =====
-- Facts about every snapshot of an aggregate.
use mathlib.Core.Bool.{false≢true}
use api_time_machine.Prelude.{
  String, true, ◌&&◌, ◌≡◌, refl, sym, ap, subst, ◌∙◌, ◌⊎◌, inl, inr, arith, eq_iff, Option, none,
  some, List, [], ◌∷◌, filter, All, Bool-cases,
}
use api_time_machine.Prelude.Int.{ℤ, leb_ℤ, eqb_ℤ, eqb_ℤ→eq}
use api_time_machine.Json.{Json}
use api_time_machine.Domain.{Snapshot}
use api_time_machine.SnapshotStore.{of_aggregate, later, or_later, greatest, upsert}

later_either : (a b : Snapshot) → (later a b ≡ a) ⊎ (later a b ≡ b)
later_either a b = elim (Bool-cases (leb_ℤ b.version a.version)) [
  | inl le ↦ inl (rw le refl)
  | inr gt ↦ inr (rw gt refl)
]

module _ (Q : ℤ → Json → Type 0) where
  abbrev Fits : Option Snapshot → Type 0
  Fits none = Unit
  Fits (some s) = Q s.version s.state

  pub Holds-greatest :
      (snaps : List Snapshot) (s : Snapshot)
      → All (λ s. Q s.version s.state) snaps
      → greatest snaps ≡ some s
      → Q s.version s.state
  unfolding greatest
  Holds-greatest [] s h e = absurd (cc)
  Holds-greatest (x ∷ snaps) s h e =
      by_rest (greatest snaps) (λ best. Holds-greatest snaps best h.1) e
    where
      by_rest :
          (o : Option Snapshot)
          → ((best : Snapshot) → o ≡ some best → Q best.version best.state)
          → or_later x o ≡ some s
          → Q s.version s.state
      by_rest none rest e = subst Fits e h.0
      by_rest (some best) rest e = elim (later_either x best) [
        | inl l ↦ subst Fits (sym (ap some l) ∙ e) h.0
        | inr l ↦ subst Fits (sym (ap some l) ∙ e) (rest best refl)
      ]

  module _ (t id : String) where
    abbrev pub Holds : List Snapshot → Type 0
    Holds snaps = All (λ s. Q s.version s.state) (filter (of_aggregate t id) snaps)

    Holds-cons :
        (s : Snapshot) (snaps : List Snapshot)
        → (of_aggregate t id s ≡ true → Q s.version s.state)
        → Holds snaps
        → Holds (s ∷ snaps)
    Holds-cons s snaps q h = elim (Bool-cases (of_aggregate t id s)) [
      | inl mine ↦ rw mine (q mine, h)
      | inr other ↦ rw other h
    ]

    Holds-parts :
        (s : Snapshot) (snaps : List Snapshot)
        → Holds (s ∷ snaps)
        → (of_aggregate t id s ≡ true → Q s.version s.state) × Holds snaps
    Holds-parts s snaps h = elim (Bool-cases (of_aggregate t id s)) [
      | inl mine ↦ let (q, rest) = rw mine at h in (λ _. q, rest)
      | inr other ↦ (λ mine. absurd (false≢true (sym other ∙ mine)), rw other at h)
    ]

    same_aggregate :
        (new s : Snapshot)
        → (of_aggregate new.aggregate_type new.aggregate_id s && eqb_ℤ s.version new.version) ≡ true
        → of_aggregate t id (record s { state = new.state }) ≡ true
        → of_aggregate t id new ≡ true
    unfolding of_aggregate
    same_aggregate new s same mine = ground (
      arith,
      same,
      mine,
      eq_iff s.aggregate_type t,
      eq_iff s.aggregate_id id,
      eq_iff s.aggregate_type new.aggregate_type,
      eq_iff s.aggregate_id new.aggregate_id,
      eq_iff new.aggregate_type t,
      eq_iff new.aggregate_id id,
    )

    -- Writing a snapshot, for which the fact holds if it is one of them, keeps it for all.
    pub Holds-upsert :
        (new : Snapshot) (snaps : List Snapshot)
        → (of_aggregate t id new ≡ true → Q new.version new.state)
        → Holds snaps
        → Holds (upsert new snaps)
    unfolding upsert
    Holds-upsert new [] q h = Holds-cons new [] q tt
    Holds-upsert new (s ∷ snaps) q h =
        let (here, rest) = Holds-parts s snaps h in
        elim (Bool-cases
          (of_aggregate new.aggregate_type new.aggregate_id s && eqb_ℤ s.version new.version)) [
            | inl same ↦ rw same (
                Holds-cons (record s { state = new.state }) snaps
                  (λ mine.
                    subst (λ v. Q v new.state)
                      (sym (eqb_ℤ→eq s.version new.version (ground (arith, same))))
                      (q (same_aggregate new s same mine)))
                  rest)
            | inr other ↦
                rw other (Holds-cons s (upsert new snaps) here (Holds-upsert new snaps q rest))
          ]
