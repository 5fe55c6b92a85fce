-- ===== src/Cache/Keys.antt =====
-- internal/cache/redis.go: which queries share a key.
use api_time_machine.Prelude.{
  ◌^◌, ◌≤◌, ◌<◌, ◌==◌, ◌+◌, ◌%◌, ◌/◌, zero, suc, subst, ap₂, ltb, Bool-cases, inl, inr, ℕ, String,
  ◌≡◌, refl, sym, ap, ◌∙◌, arith, false, Option, none, some, List, [], ◌∷◌, ◌++◌, All,
}
use api_time_machine.Prelude.Int.{◌+ℤ◌, wrap64, ℤ, pos, negsuc, Int64, wrap64-Int64}
use mathlib.Core.List.{append_assoc, append_cancel_left}
use api_time_machine.Json.{Time}
use api_time_machine.Domain.{ReplayQuery}
use api_time_machine.Text.{codes, show, show_nat, show_from, signed}
use api_time_machine.Text.Decimal.{signed-show, show-ne-letter}
use api_time_machine.Cache.{unix_nano, bound_text, cache_key}

abbrev Plain : List ℕ → Type 0
Plain = All (λ c. (c == b':') ≡ false)

-- A list is cut at its last colon in one way.
no_colon : (ys rest : List ℕ) → ¬ Plain (ys ++ b':' ∷ rest)
no_colon [] rest h = cc (h.0)
no_colon (y ∷ ys) rest h = no_colon ys rest h.1

last_colon :
    (xs ys : List ℕ) {xs' ys' : List ℕ}
    → Plain xs'
    → Plain ys'
    → xs ++ b':' ∷ xs' ≡ ys ++ b':' ∷ ys'
    → (xs ≡ ys) × (xs' ≡ ys')
last_colon [] [] p q h = (refl, cc)
last_colon [] (y ∷ ys) {xs'} {ys'} p q h =
    let e : xs' ≡ ys ++ b':' ∷ ys' = cc in absurd (no_colon ys ys' (subst Plain e p))
last_colon (x ∷ xs) [] {xs'} {ys'} p q h =
    let e : ys' ≡ xs ++ b':' ∷ xs' = cc in absurd (no_colon xs xs' (subst Plain e q))
last_colon (x ∷ xs) (y ∷ ys) {xs'} {ys'} p q h =
    let t : xs ++ b':' ∷ xs' ≡ ys ++ b':' ∷ ys' = cc in
    let s : x ≡ y = cc in let (e, e') = last_colon xs ys p q t in (ap₂ (λ a b. a ∷ b) s e, e')

show_from-Plain : (left n : ℕ) (rest : List ℕ) → Plain rest → Plain (show_from left n rest)
unfolding show_from
show_from-Plain zero n rest h = h
show_from-Plain (suc left) n rest h = elim (Bool-cases (ltb n 10)) [
  | inl small ↦ rw (small, show_from) (digit, h)
  | inr big ↦
      rw (big, show_from) (show_from-Plain left (n / 10) ((b'0' + n % 10) ∷ rest) (digit, h))
]
  where
    digit : (b'0' + n % 10 == b':') ≡ false
    digit = ground arith

show-Plain : (z : ℤ) → Plain (show z)
unfolding show show_nat
show-Plain (pos n) = show_from-Plain (suc n) n [] tt
show-Plain (negsuc n) = (refl, show_from-Plain (suc (suc n)) (suc n) [] tt)

-- Between the years 1677 and 2262, the nanoseconds of the Unix time are an int64.
abbrev pub InEra : Option Time → Type 0
InEra none = Unit
InEra (some t) = (62135596800000000000 ≤ t + 2 ^ 63) × (t < 62135596800000000000 + 2 ^ 63)

unix_nano_eq :
    (t t' : Time) → InEra (some t) → InEra (some t') → unix_nano t ≡ unix_nano t' → t ≡ t'
unfolding unix_nano wrap64 ◌+ℤ◌
unix_nano_eq t t' h h' e = ground arith

-- What a query asks for: the version before the instant.
pub data Asked : Type 0 where
  version : ℤ → Asked
  instant : Time → Asked
  current : Asked

unfoldable pub asked_of : Option ℤ → Option Time → Asked
asked_of (some n) at = version n
asked_of none (some t) = instant t
asked_of none none = current

abbrev pub asked : ReplayQuery → Asked
asked q = asked_of q.version q.at

-- `*query.Version` is an int64.
abbrev pub IsInt64 : Option ℤ → Type 0
IsInt64 none = Unit
IsInt64 (some n) = Int64 n

abbrev value : Asked → List ℕ
value (version n) = show n
value (instant t) = show (unix_nano t)
value current = codes "current"

abbrev InRange : Asked → Type 0
InRange (version n) = Int64 n
InRange (instant t) = InEra (some t)
InRange current = Unit

abbrev before_value : List ℕ → Asked → List ℕ
before_value p current = p
before_value p (version n) = p ++ b':' ∷ codes "v"
before_value p (instant n) = p ++ b':' ∷ codes "at"

value-Plain : (a : Asked) → Plain (value a)
value-Plain (version n) = show-Plain n
value-Plain (instant t) = show-Plain (unix_nano t)
value-Plain current = (refl, (refl, (refl, (refl, (refl, (refl, (refl, tt)))))))

show_eq : (m n : ℤ) → Int64 m → Int64 n → show m ≡ show n → m ≡ n
show_eq m n h k e =
    let found : some m ≡ some n = sym (signed-show m h) ∙ ap signed e ∙ signed-show n k in cc

unix_nano-Int64 : (t : Time) → Int64 (unix_nano t)
unfolding unix_nano
unix_nano-Int64 t = wrap64-Int64 _

-- Two keys with the same front differ if the queries do.
same_asked :
    (p p' : List ℕ) (a b : Asked)
    → InRange a
    → InRange b
    → before_value p a ≡ before_value p' b
    → value a ≡ value b
    → (p ≡ p') × (a ≡ b)
same_asked p p' (version m) (version n) h k e v =
    ((last_colon p p' (refl, tt) (refl, tt) e).0, ap version (show_eq m n h k v))
same_asked p p' (version m) (instant n) h k e v =
    absurd (cc ((last_colon p p' (refl, tt) (refl, (refl, tt)) e).1))
same_asked p p' (version m) current h k e v = absurd (show-ne-letter m _ _ (omega arith) v)
same_asked p p' (instant m) (version n) h k e v =
    absurd (cc ((last_colon p p' (refl, (refl, tt)) (refl, tt) e).1))
same_asked p p' (instant m) (instant n) h k e v = (
  (last_colon p p' (refl, (refl, tt)) (refl, (refl, tt)) e).0,
  ap instant (
      unix_nano_eq m n h k
        (show_eq (unix_nano m) (unix_nano n) (unix_nano-Int64 m) (unix_nano-Int64 n) v)),
)
same_asked p p' (instant m) current h k e v =
    absurd (show-ne-letter (unix_nano m) _ _ (omega arith) v)
same_asked p p' current (version n) h k e v = absurd (show-ne-letter n _ _ (omega arith) (sym v))
same_asked p p' current (instant n) h k e v =
    absurd (show-ne-letter (unix_nano n) _ _ (omega arith) (sym v))
same_asked p p' current current h k e v = (e, refl)

cut :
    (p : List ℕ) (v : Option ℤ) (at : Option Time)
    → p ++ codes ":" ++ bound_text v at
      ≡ before_value p (asked_of v at) ++ b':' ∷ value (asked_of v at)
unfolding bound_text asked_of
cut p (some n) at =
    append_assoc p (codes ":") (codes "v:" ++ show n)
    ∙ sym (append_assoc p (b':' ∷ codes "v") (b':' ∷ show n))
cut p none (some t) =
    append_assoc p (codes ":") (codes "at:" ++ show (unix_nano t))
    ∙ sym (append_assoc p (b':' ∷ codes "at") (b':' ∷ show (unix_nano t)))
cut p none none = append_assoc p (codes ":") (codes "current")

InRange-asked : (v : Option ℤ) (at : Option Time) → IsInt64 v → InEra at → InRange (asked_of v at)
unfolding asked_of
InRange-asked (some n) at h era = h
InRange-asked none (some t) h era = era
InRange-asked none none h era = tt

-- Two queries with int64 versions, and with instants between the years 1677 and 2262, where the
-- nanoseconds of the Unix time are an int64, that have the same key for one type of aggregate have
-- identifiers with the same code points, and ask for the same version, or both without a version
-- for the same instant, or both for the current state.
pub cache_key-eq :
    (t id id' : String) (q q' : ReplayQuery)
    → IsInt64 q.version
    → IsInt64 q'.version
    → InEra q.at
    → InEra q'.at
    → cache_key t id q ≡ cache_key t id' q'
    → (codes id ≡ codes id') × (asked q ≡ asked q')
unfolding cache_key asked_of
cache_key-eq t id id' q q' h h' era era' e =
    let front : List ℕ = codes "replay:" ++ codes t ++ codes ":" in
    let (e0, e1) =
      last_colon (before_value (front ++ codes id) (asked q))
        (before_value (front ++ codes id') (asked q')) (value-Plain (asked q))
        (value-Plain (asked q'))
        (sym (cut (front ++ codes id) q.version q.at)
          ∙ e
          ∙ cut (front ++ codes id') q'.version q'.at) in
    let (p, a) =
      same_asked (front ++ codes id) (front ++ codes id') (asked q) (asked q')
        (InRange-asked q.version q.at h era) (InRange-asked q'.version q'.at h' era') e0 e1 in
    (append_cancel_left front (codes id) (codes id') p, a)
