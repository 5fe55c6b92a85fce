-- ===== src/Query/Bounds.antt =====
-- How a bound may be written.
use Prim.Native.String
use text.Mathlib.Text.{starts_with}
use text.Mathlib.TextEquality.{starts_with_iff}
use text.Mathlib.TextPositions.{starts_with-append}
use text.Mathlib.TextLemmas.{cons-append, nil-append}
use api_time_machine.Prelude.{
  ℕ, String, ◌≡◌, ◌≢◌, refl, sym, ap, ◌∙◌, arith, false, List, [], ◌∷◌, str_eq, eq_iff, inl, inr,
  Bool-cases,
}
use api_time_machine.Prelude.Int.{ℤ, Int64}
use api_time_machine.Text.{drop, codes, signed, parse_int, show}
use api_time_machine.Text.Decimal.{signed-show, show-filled, show-ne-letter}
use api_time_machine.Query.{at_version, numbered, parse_bound}
use api_time_machine.Result.{ok}

drop_v : (s : String) → drop "v" (String.◌++◌ "v" s) ≡ s
drop_v s = ap (drop "v") (cons-append "v" "" s) ∙ nil-append s

not_empty : (s : String) (c : ℕ) (rest : List ℕ) → codes s ≡ c ∷ rest → str_eq s "" ≡ false
not_empty s c rest e = elim (Bool-cases (str_eq s "")) [
  | inl empty ↦ absurd (cons-ne-nil (sym e ∙ ap codes ((eq_iff s "").0 empty)))
  | inr other ↦ other
]
  where
    cons-ne-nil : c ∷ rest ≢ []
    cons-ne-nil h = cc

codes_v : (s : String) → codes (String.◌++◌ "v" s) ≡ b'v' ∷ codes s
codes_v s = ap codes (cons-append "v" "" s) ∙ ap (λ t. b'v' ∷ codes t) (nil-append s)

-- After a `v`, a version is written by its number.
with_v :
    (n : ℤ) (s : String)
    → Int64 n
    → codes s ≡ show n
    → parse_bound (String.◌++◌ "v" s) ≡ ok (at_version n)
unfolding parse_bound parse_int
with_v n s h e =
    rw (not_empty (String.◌++◌ "v" s) b'v' (codes s) (codes_v s), starts_with-append "v" s)
      (ap (λ t. numbered (signed (codes t))) (drop_v s)
        ∙ ap (λ cs. numbered (signed cs)) e
        ∙ ap numbered (signed-show n h))

-- Without the `v` too.
without_v : (n : ℤ) (s : String) → Int64 n → codes s ≡ show n → parse_bound s ≡ ok (at_version n)
unfolding parse_bound parse_int
without_v n s h e = rw (show-filled n s e, no_v, e, signed-show n h) refl
  where
    no_v : starts_with s "v" ≡ false
    no_v = elim (Bool-cases (starts_with s "v")) [
      | inl starts ↦
          let (t, p) = (starts_with_iff s "v").0 starts in
          absurd
            (show-ne-letter n b'v' (codes t) (omega arith) (sym e ∙ ap codes (sym p) ∙ codes_v t))
      | inr other ↦ other
    ]

-- A bound that is an int64 written in decimal is understood as that version, with a v before it and
-- without.
pub parse_bound-version :
    (n : ℤ) (s : String)
    → Int64 n
    → codes s ≡ show n
    → (parse_bound (String.◌++◌ "v" s) ≡ ok (at_version n)) × (parse_bound s ≡ ok (at_version n))
parse_bound-version n s h e = (with_v n s h e, without_v n s h e)
