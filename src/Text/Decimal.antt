-- ===== src/Text/Decimal.antt =====
-- Numbers survive being written and read.

use api_time_machine.Prelude.{
  ℕ, zero, suc, ◌+◌, ◌*◌, ◌-◌, ◌/◌, ◌%◌, ◌<◌, ◌≤◌, ◌≡◌, ◌≢◌, refl, sym, ap, subst, ◌∙◌, arith,
  String, true, false, some, List, [], ◌∷◌, ltb, Bool-cases, inl, inr, str_eq, eq_iff,
}
use api_time_machine.Prelude.Int.{ℤ, pos, negsuc, Int64}
use api_time_machine.Text.{
  codes, parse_int, is_digit, digits, magnitude, positive, negative, signed, show_from, show_nat,
  show,
}

show_small :
    (left n : ℕ) (rest : List ℕ)
    → ltb n 10 ≡ true
    → show_from (suc left) n rest ≡ (b'0' + n % 10) ∷ rest
unfolding show_from
show_small left n rest h = ground (arith, h)

show_big :
    (left n : ℕ) (rest : List ℕ)
    → ltb n 10 ≡ false
    → show_from (suc left) n rest ≡ show_from left (n / 10) ((b'0' + n % 10) ∷ rest)
unfolding show_from
show_big left n rest h = rw (h, show_from) refl

digits-digit :
    (m d : ℕ) (rest : List ℕ) → d < 10 → digits m ((b'0' + d) ∷ rest) ≡ digits (m * 10 + d) rest
digits-digit m d rest h = rw (is_digit-digit, plus) refl
  where
    is_digit-digit : is_digit (b'0' + d) ≡ true
    is_digit-digit = ground arith

    plus : m * 10 + (b'0' + d - b'0') ≡ m * 10 + d
    plus = omega arith

digits-show_from :
    (left n : ℕ) (rest : List ℕ) → n < left → digits 0 (show_from left n rest) ≡ digits n rest
digits-show_from zero n rest h = absurd (omega arith)
digits-show_from (suc left) n rest h = elim (Bool-cases (ltb n 10)) [
  | inl small ↦
      ap (digits 0) (show_small left n rest small)
      ∙ digits-digit 0 (n % 10) rest (omega arith)
      ∙ ap (λ k. digits k rest) (ground (arith, small))
  | inr big ↦
      ap (digits 0) (show_big left n rest big)
      ∙ digits-show_from left (n / 10) ((b'0' + n % 10) ∷ rest) (ground (arith, big))
      ∙ digits-digit (n / 10) (n % 10) rest (omega arith)
      ∙ ap (λ k. digits k rest) (omega arith)
]

-- A list that begins with a digit.
record Digital (cs : List ℕ) : Type 0 where
  first : ℕ
  more : List ℕ
  parts : cs ≡ first ∷ more
  digit : is_digit first ≡ true

show_from-Digital : (left n : ℕ) (rest : List ℕ) → Digital rest → Digital (show_from left n rest)
unfolding show_from
show_from-Digital zero n rest h = h
show_from-Digital (suc left) n rest h = elim (Bool-cases (ltb n 10)) [
  | inl small ↦ subst Digital (sym (show_small left n rest small)) one
  | inr big ↦
      subst Digital (sym (show_big left n rest big))
        (show_from-Digital left (n / 10) ((b'0' + n % 10) ∷ rest) one)
]
  where
    one : Digital ((b'0' + n % 10) ∷ rest)
    one = record { first = b'0' + n % 10; more = rest; parts = refl; digit = ground arith }

show_nat-Digital : (n : ℕ) → Digital (show_nat n)
unfolding show_nat
show_nat-Digital n = elim (Bool-cases (ltb n 10)) [
  | inl small ↦ subst Digital (sym (show_small n n [] small)) one
  | inr big ↦
      subst Digital (sym (show_big n n [] big))
        (show_from-Digital n (n / 10) ((b'0' + n % 10) ∷ []) one)
]
  where
    one : Digital ((b'0' + n % 10) ∷ [])
    one = record { first = b'0' + n % 10; more = []; parts = refl; digit = ground arith }

magnitude-Digital : (cs : List ℕ) → Digital cs → magnitude cs ≡ digits 0 cs
magnitude-Digital [] h = absurd (cc (h.parts))
magnitude-Digital (c ∷ cs) h = refl

signed-Digital : (cs : List ℕ) → Digital cs → signed cs ≡ positive (digits 0 cs)
signed-Digital [] h = absurd (cc (h.parts))
signed-Digital (c ∷ cs) h = plain c (ground (arith, h.digit, head_eq))
  where
    head_eq : c ≡ h.first
    head_eq = cc (h.parts)

    plain : (c : ℕ) → b'0' ≤ c → signed (c ∷ cs) ≡ positive (magnitude (c ∷ cs))
    plain c le = ground arith

pub digits-show_nat : (n : ℕ) → digits 0 (show_nat n) ≡ some n
unfolding show_nat
digits-show_nat n = digits-show_from (suc n) n [] (omega arith)

pub signed-show : (z : ℤ) → Int64 z → signed (show z) ≡ some z
unfolding show
signed-show (pos n) h =
    signed-Digital (show_nat n) (show_nat-Digital n)
    ∙ ap positive (digits-show_nat n)
    ∙ ground (arith, h.0)
signed-show (negsuc n) h =
    ap negative
      (magnitude-Digital (show_nat (suc n)) (show_nat-Digital (suc n)) ∙ digits-show_nat (suc n))
    ∙ ground (arith, h.1)

-- A written number is not empty and begins with a digit or a minus sign.
pub show-ne-nil : (z : ℤ) → show z ≢ []
unfolding show
show-ne-nil (pos n) e = let d = show_nat-Digital n in cc (d.parts, e)
show-ne-nil (negsuc n) e = cc

pub show-ne-letter : (z : ℤ) (c : ℕ) (rest : List ℕ) → b'9' < c → show z ≢ c ∷ rest
unfolding show
show-ne-letter (pos n) c rest h e =
    let d = show_nat-Digital n in
    let same : d.first ≡ c = cc (d.parts, e) in ground (arith, d.digit)
show-ne-letter (negsuc n) c rest h e = let same : b'-' ≡ c = cc (e) in omega arith

pub parse_int-show : (z : ℤ) (s : String) → Int64 z → codes s ≡ show z → parse_int s ≡ some z
unfolding parse_int
parse_int-show z s h e = ap signed e ∙ signed-show z h

pub show-filled : (z : ℤ) (s : String) → codes s ≡ show z → str_eq s "" ≡ false
show-filled z s e = elim (Bool-cases (str_eq s "")) [
  | inl empty ↦ absurd (show-ne-nil z (sym e ∙ ap codes ((eq_iff s "").0 empty)))
  | inr other ↦ other
]
