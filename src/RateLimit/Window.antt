-- ===== src/RateLimit/Window.antt =====
-- The promise of the limiter: no window holds more requests of a client than the limit.
use mathlib.Core.List.{append-nil, append_assoc}
use api_time_machine.Prelude.{
  ℕ, ◌+◌, ◌≤◌, ◌<◌, ◌≡◌, refl, sym, ap, ◌∙◌, subst, arith, String, Bool, true, false, ◌&&◌, List,
  [], ◌∷◌, ◌++◌, length, length-append, length-filter, filter, filter-append, str_eq, eq_iff,
  Bool-cases, inl, inr,
}
use api_time_machine.Prelude.Assoc.{lookup}
use api_time_machine.Json.{Time}
use api_time_machine.RateLimit.Times.{in_window, allow_iff, times-allow, recent-later, allow_same}
use api_time_machine.RateLimit.{fresh, RateLimiter, Arrival, times, recent, allow, serve}

-- The accepted requests of the client `j` that are in the window at `now`.
abbrev pub counts : ℕ → String → Time → Arrival → Bool
counts window j now a = str_eq a.key j && recent window now a.at

abbrev pub last_at : Time → List Arrival → Time
last_at t [] = t
last_at t (a ∷ rest) = last_at a.at rest

-- Arrivals in the order of the clock, from the time `t` on.
abbrev pub IsOrdered : Time → List Arrival → Type 0
IsOrdered t [] = Unit
IsOrdered t (a ∷ rest) = (t ≤ a.at) × IsOrdered a.at rest

-- From `t` on, the limiter's times are those of the accepted requests, at most `limit` in a window.
record IsCurrent (limit window : ℕ) (rl : RateLimiter) (past : List Arrival) (t : Time)
    : Type 0 where
  limit_lem : rl.limit ≡ limit
  window_lem : rl.window ≡ window
  counted :
      (j : String) (now : Time)
      → t ≤ now
      → length (filter (recent window now) (times rl j))
        ≡ length (filter (counts window j now) past)
  bounded : (j : String) (now : Time) → t ≤ now → length (filter (counts window j now) past) ≤ limit

module _ (limit window : ℕ) (rl : RateLimiter) (past : List Arrival) (t : Time) (a : Arrival)
    (inv : IsCurrent limit window rl past t) (order : t ≤ a.at) where
  abbrev rl' : RateLimiter
  rl' = (allow a.key a.at rl).1

  abbrev count : String → Time → List Arrival → ℕ
  count j now l = length (filter (counts window j now) l)

  abbrev held : Time → List Time → ℕ
  held now ts = length (filter (recent window now) ts)

  held-in_window :
      (now : Time) → a.at ≤ now → held now (in_window rl a.key a.at) ≡ held now (times rl a.key)
  held-in_window now later =
      ap (λ w. held now (filter (recent w a.at) (times rl a.key))) inv.window_lem
      ∙ ap length (recent-later window a.at now (times rl a.key) later)

  held-fewer :
      (now : Time) → a.at ≤ now → held now (times rl a.key) ≤ length (in_window rl a.key a.at)
  held-fewer now later =
      omega (
        arith,
        held-in_window now later,
        length-filter (recent window now) (in_window rl a.key a.at),
      )

  count-mine :
      (j : String) (now : Time)
      → str_eq a.key j ≡ true
      → count j now (a ∷ []) ≡ held now (a.at ∷ [])
  count-mine j now e = ground (arith, e)

  count-other : (j : String) (now : Time) → str_eq a.key j ≡ false → count j now (a ∷ []) ≡ 0
  count-other j now e = rw e refl

  count-snoc :
      (j : String) (now : Time)
      → count j now (past ++ a ∷ []) ≡ count j now past + count j now (a ∷ [])
  count-snoc j now =
      ap length (filter-append (counts window j now) past (a ∷ []))
      ∙ length-append (filter (counts window j now) past) (filter (counts window j now) (a ∷ []))

  held-snoc :
      (now : Time) (ts : List Time)
      → held now (ts ++ a.at ∷ []) ≡ held now ts + held now (a.at ∷ [])
  held-snoc now ts =
      ap length (filter-append (recent window now) ts (a.at ∷ []))
      ∙ length-append (filter (recent window now) ts) (filter (recent window now) (a.at ∷ []))

  refused-IsCurrent : (allow a.key a.at rl).0 ≡ false → IsCurrent limit window rl' past a.at
  refused-IsCurrent over = record {
    limit_lem = (allow_same a.key a.at rl).0 ∙ inv.limit_lem;
    window_lem = (allow_same a.key a.at rl).1 ∙ inv.window_lem;
    counted = λ j now later. elim (Bool-cases (str_eq a.key j)) [
      | inl e ↦
          ap (held now) (times-allow rl a.key j a.at)
          ∙ rw (e, over)
              (held-in_window now later
                ∙ ap (λ k. held now (times rl k)) ((eq_iff a.key j).0 e)
                ∙ inv.counted j now (omega arith))
      | inr e ↦ ap (held now) (times-allow rl a.key j a.at) ∙ rw e (inv.counted j now (omega arith))
    ];
    bounded = λ j now later. inv.bounded j now (omega arith);
  }

  room : (allow a.key a.at rl).0 ≡ true → length (in_window rl a.key a.at) < limit
  room under = ground (arith, allow_iff rl a.key a.at, inv.limit_lem)

  mine_counted :
      (j : String) (now : Time)
      → a.at ≤ now
      → str_eq a.key j ≡ true
      → held now (times rl a.key) ≡ count j now past
  mine_counted j now later e =
      ap (λ k. held now (times rl k)) ((eq_iff a.key j).0 e) ∙ inv.counted j now (omega arith)

  accepted-IsCurrent :
      (allow a.key a.at rl).0 ≡ true → IsCurrent limit window rl' (past ++ a ∷ []) a.at
  accepted-IsCurrent under = record {
    limit_lem = (allow_same a.key a.at rl).0 ∙ inv.limit_lem;
    window_lem = (allow_same a.key a.at rl).1 ∙ inv.window_lem;
    counted = λ j now later. elim (Bool-cases (str_eq a.key j)) [
      | inl e ↦
          ap (held now) (times-allow rl a.key j a.at)
          ∙ rw (e, under)
              (omega (
                arith,
                held-snoc now (in_window rl a.key a.at),
                held-in_window now later,
                mine_counted j now later e,
                count-snoc j now,
                count-mine j now e,
              ))
      | inr e ↦
          ap (held now) (times-allow rl a.key j a.at)
          ∙ rw e (
              omega (arith, inv.counted j now (omega arith), count-snoc j now, count-other j now e))
    ];
    bounded = λ j now later. elim (Bool-cases (str_eq a.key j)) [
      | inl e ↦ omega (
        arith,
        room under,
        held-fewer now later,
        mine_counted j now later e,
        count-snoc j now,
        count-mine j now e,
        length-filter (recent window now) (a.at ∷ []),
      )
      | inr e ↦
          omega (arith, inv.bounded j now (omega arith), count-snoc j now, count-other j now e)
    ];
  }

serve-IsCurrent :
    (limit window : ℕ) (arrivals : List Arrival) (rl : RateLimiter) (past : List Arrival) (t : Time)
    → IsCurrent limit window rl past t
    → IsOrdered t arrivals
    → IsCurrent limit window
        (serve rl arrivals).0
        (past ++ (serve rl arrivals).1)
        (last_at t arrivals)
unfolding serve
serve-IsCurrent limit window [] rl past t inv h =
    subst (λ l. IsCurrent limit window rl l t) (sym (append-nil past)) inv
serve-IsCurrent limit window (a ∷ arrivals) rl past t inv h =
    elim (Bool-cases (allow a.key a.at rl).0) [
      | inl under ↦
          let rest =
            serve-IsCurrent limit window arrivals (allow a.key a.at rl).1 (past ++ a ∷ []) a.at
              (accepted-IsCurrent limit window rl past t a inv h.0 under) h.1 in
          rw under (
            subst
              (λ l.
                IsCurrent limit window (serve (allow a.key a.at rl).1 arrivals).0 l
                  (last_at a.at arrivals))
              (append_assoc past (a ∷ []) (serve (allow a.key a.at rl).1 arrivals).1) rest)
      | inr over ↦ rw over (
          serve-IsCurrent limit window arrivals (allow a.key a.at rl).1 past a.at
            (refused-IsCurrent limit window rl past t a inv h.0 over) h.1)
    ]

nothing :
    (limit window : ℕ) (j : String) (now : Time)
    → length (filter (recent window now) (times (fresh limit window) j)) ≡ 0
unfolding times lookup
nothing limit window j now = refl

-- For requests that come in the order of the clock, at every instant from the last one on, the
-- requests of a client that went through a new limiter and are still in the window are at most its
-- limit.
pub serve-limit :
    (limit window : ℕ) (arrivals : List Arrival) (t now : Time) (key : String)
    → IsOrdered t arrivals
    → last_at t arrivals ≤ now
    → length (filter (counts window key now) (serve (fresh limit window) arrivals).1) ≤ limit
serve-limit limit window arrivals t now key h later =
    (serve-IsCurrent limit window arrivals (fresh limit window) [] t
        (record {
          limit_lem = refl;
          window_lem = refl;
          counted = λ j now _. nothing limit window j now;
          bounded = λ j now _. omega arith;
        })
        h).bounded
      key now later
