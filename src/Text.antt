-- ===== src/Text.antt =====
-- What the program uses of Go's strings and strconv: prefixes, `ParseInt` with base 10 and 64 bits,
-- and the verb %d. A text is walked as the list of its code points.
pub mod Decimal
pub mod Instant
use Prim.Native.Char.{code}
use Prim.Native.String
use text.Mathlib.Text.{starts_with}
use api_time_machine.Prelude.{
  ℕ, zero, suc, ◌+◌, ◌*◌, ◌-◌, ◌/◌, ◌%◌, ◌^◌, String, Bool, true, false, ◌&&◌, Option, none, some,
  List, [], ◌∷◌, ltb, leb, if◌then◌else◌, ◌==◌,
}
use api_time_machine.Prelude.Int.{ℤ, pos, negsuc}

abbrev pub codes : String → List ℕ
codes String.[] = []
codes (String.◌∷◌ c s) = code c ∷ codes s

abbrev pub drop : String → String → String
drop String.[] s = s
drop (String.◌∷◌ c p) String.[] = String.[]
drop (String.◌∷◌ c p) (String.◌∷◌ d s) = drop p s

-- `strings.TrimPrefix`; `strings.HasPrefix` is `starts_with`.
abbrev pub trim_prefix : String → String → String
trim_prefix s p = if starts_with s p then drop p s else s

abbrev pub is_digit : ℕ → Bool
is_digit c = leb b'0' c && leb c b'9'

-- Decimal digits, one or more.
abbrev pub digits : ℕ → List ℕ → Option ℕ
digits n [] = some n
digits n (c ∷ cs) = if is_digit c then digits (n * 10 + (c - b'0')) cs else none

abbrev pub magnitude : List ℕ → Option ℕ
magnitude [] = none
magnitude (c ∷ cs) = digits 0 (c ∷ cs)

abbrev pub positive : Option ℕ → Option ℤ
positive none = none
positive (some n) = if ltb n (2 ^ 63) then some (pos n) else none

-- -0 is 0, and the least int64 is -2^63.
abbrev pub negative : Option ℕ → Option ℤ
negative none = none
negative (some n) =
    if n == 0 then some (pos 0) else if leb n (2 ^ 63) then some (negsuc (n - 1)) else none

abbrev pub signed : List ℕ → Option ℤ
signed [] = none
signed (c ∷ cs) =
    if c == b'-'
    then negative (magnitude cs)
    else if c == b'+'
    then positive (magnitude cs)
    else positive (magnitude (c ∷ cs))

-- `strconv.ParseInt(s, 10, 64)`, and `strconv.Atoi` where int has 64 bits
unfoldable pub parse_int : String → Option ℤ
parse_int s = signed (codes s)

-- The digits of `n` before `rest`; the first argument counts the rounds that are left.
unfoldable pub show_from : ℕ → ℕ → List ℕ → List ℕ
show_from zero n rest = rest
show_from (suc left) n rest =
    let shown = (b'0' + n % 10) ∷ rest in
    elim (ltb n 10) [ true ↦ shown | false ↦ show_from left (n / 10) shown ]

unfoldable pub show_nat : ℕ → List ℕ
unfolding show_from
show_nat n = show_from (suc n) n []

-- The verb %d
unfoldable pub show : ℤ → List ℕ
unfolding show_nat
show (pos n) = show_nat n
show (negsuc n) = b'-' ∷ show_nat (suc n)

abbrev pub same_codes : List ℕ → List ℕ → Bool
same_codes [] [] = true
same_codes (c ∷ cs) (d ∷ ds) = c == d && same_codes cs ds
same_codes [] (d ∷ ds) = false
same_codes (c ∷ cs) [] = false

abbrev pub ends_with : List ℕ → List ℕ → Bool
ends_with end [] = same_codes [] end
ends_with end (c ∷ cs) = if same_codes (c ∷ cs) end then true else ends_with end cs

-- `strings.HasSuffix`
abbrev pub has_suffix : String → String → Bool
has_suffix s end = ends_with (codes end) (codes s)
