-- ===== src/Text/Instant.antt =====
-- `time.Parse(time.RFC3339, s)` on code points. An instant is a number of nanoseconds since the zero
-- time of Go, the start of the year 1 in UTC; one before it is taken as the zero time, which no event
-- precedes. Go takes one digit for the hour, a fraction of a second that the layout does not name, and
-- offsets up to 24:60.
use api_time_machine.Prelude.{
  ℕ, zero, suc, ◌+◌, ◌*◌, ◌-◌, ◌/◌, ◌%◌, ◌^◌, String, Bool, not, ◌&&◌, ◌||◌, Option, none, some,
  List, [], ◌∷◌, ltb, if◌then◌else◌, ◌==◌, ◌≡◌, refl,
}
use api_time_machine.Json.{Time}
use api_time_machine.Text.{codes, is_digit}

infixl 5 ◌>>=◌ ◌>>◌
abbrev ◌>>=◌ {ℓ κ} : {A : Type ℓ} {B : Type κ} → Option A → (A → Option B) → Option B
none >>= f = none
some a >>= f = f a

abbrev ◌>>◌ {ℓ κ} : {A : Type ℓ} {B : Type κ} → Option A → Option B → Option B
m >> k = m >>= λ _. k

abbrev digit : ℕ → ℕ
digit c = c - b'0'

-- `getnum(value, true)`
abbrev two : List ℕ → Option (ℕ × List ℕ)
two (a ∷ b ∷ rest) = if is_digit a && is_digit b then some (digit a * 10 + digit b, rest) else none
two _ = none

-- `getnum(value, false)`
abbrev one_or_two : List ℕ → Option (ℕ × List ℕ)
one_or_two (a ∷ b ∷ rest) =
    if not (is_digit a)
    then none
    else if is_digit b
    then some (digit a * 10 + digit b, rest)
    else some (digit a, b ∷ rest)
one_or_two (a ∷ []) = if is_digit a then some (digit a, []) else none
one_or_two [] = none

abbrev four : List ℕ → Option (ℕ × List ℕ)
four cs = do high ← two cs; low ← two high.1; some (high.0 * 100 + low.0, low.1)

abbrev expect : ℕ → List ℕ → Option (List ℕ)
expect c [] = none
expect c (d ∷ rest) = if d == c then some rest else none

-- The digits of a fraction, with `left` of the nine digits of a nanosecond still to come.
fraction_digits : ℕ → ℕ → List ℕ → ℕ × List ℕ
fraction_digits left n [] = (n * 10 ^ left, [])
fraction_digits zero n (c ∷ cs) = if is_digit c then fraction_digits zero n cs else (n, c ∷ cs)
fraction_digits (suc left) n (c ∷ cs) =
    if is_digit c then fraction_digits left (n * 10 + digit c) cs else (n * 10 ^ suc left, c ∷ cs)

fraction : List ℕ → ℕ × List ℕ
unfolding fraction_digits
fraction (c ∷ d ∷ rest) =
    if (c == b'.' || c == b',') && is_digit d
    then fraction_digits 9 0 (d ∷ rest)
    else (0, c ∷ d ∷ rest)
fraction cs = (0, cs)

abbrev below : ℕ → ℕ → Option (Unit {0})
below n bound = if ltb n bound then some tt else none

-- Z07:00, as the seconds to add and the seconds to take away.
abbrev signed_zone : ℕ → ℕ → Option (ℕ × ℕ)
signed_zone sign offset =
    if sign == b'-' then some (offset, 0) else if sign == b'+' then some (0, offset) else none

abbrev numeric_zone : ℕ → List ℕ → Option ((ℕ × ℕ) × List ℕ)
numeric_zone sign cs = do
  hours ← two cs
  rest ← expect b':' hours.1
  minutes ← two rest
  below hours.0 25
  below minutes.0 61
  offset ← signed_zone sign ((hours.0 * 60 + minutes.0) * 60)
  some (offset, minutes.1)

abbrev zone : List ℕ → Option ((ℕ × ℕ) × List ℕ)
zone [] = none
zone (c ∷ cs) = if c == b'Z' then some ((0, 0), cs) else numeric_zone c cs

unfoldable pub is_leap : ℕ → Bool
is_leap y = y % 4 == 0 && (not (y % 100 == 0) || y % 400 == 0)

unfoldable pub days_in : ℕ → ℕ → ℕ
unfolding is_leap
days_in y m =
    if m == 2
    then (if is_leap y then 29 else 28)
    else if m == 4 || m == 6 || m == 9 || m == 11
    then 30
    else 31

-- The days of the years from 0 to y - 1, and those of the months before m.
abbrev days_before_year : ℕ → ℕ
days_before_year y = 365 * y + (y + 3) / 4 + (y + 399) / 400 - (y + 99) / 100

unfoldable days_before_month : ℕ → ℕ → ℕ
unfolding days_in
days_before_month y zero = 0
days_before_month y (suc zero) = 0
days_before_month y (suc (suc m)) = days_before_month y (suc m) + days_in y (suc m)

-- The whole seconds from the start of the year 0.
unfoldable pub seconds : ℕ → ℕ → ℕ → ℕ → ℕ → ℕ → ℕ
unfolding days_before_month
seconds year month day hour minute second =
    (((days_before_year year + days_before_month year month + (day - 1)) * 24 + hour) * 60 + minute)
      * 60
    + second

abbrev year_one : ℕ
year_one = 366 * 24 * 60 * 60

abbrev no_rest : List ℕ → Option (Unit {0})
no_rest [] = some tt
no_rest (c ∷ cs) = none

unfoldable pub instant : List ℕ → Option Time
unfolding fraction days_in seconds
instant cs = do
  year ← four cs
  r1 ← expect b'-' year.1
  month ← two r1
  below 0 month.0
  below month.0 13
  r2 ← expect b'-' month.1
  day ← two r2
  r3 ← expect b'T' day.1
  hour ← one_or_two r3
  below hour.0 24
  r4 ← expect b':' hour.1
  minute ← two r4
  below minute.0 60
  r5 ← expect b':' minute.1
  second ← two r5
  below second.0 60
  let nanos = fraction second.1
  offset ← zone nanos.1
  no_rest offset.1
  below 0 day.0
  below day.0 (suc (days_in year.0 month.0))
  some (
      (seconds year.0 month.0 day.0 hour.0 minute.0 second.0 + offset.0.0) * 1_000_000_000
      + nanos.0
      - (offset.0.1 + year_one) * 1_000_000_000)

-- `time.Parse` with the layout `time.RFC3339`
unfoldable pub parse_time : String → Option Time
unfolding instant
parse_time s = instant (codes s)

zero_time : parse_time "0001-01-01T00:00:00Z" ≡ some 0
unfolding parse_time
zero_time = refl

-- 1970-01-01 is 62135596800 seconds after the zero time.
unix_time : parse_time "1970-01-01T02:00:00.25+02:00" ≡ some 62135596800250000000
unfolding parse_time
unix_time = refl

leap_day : parse_time "2024-02-29T9:05:06Z" ≡ some 63844794306000000000
unfolding parse_time
leap_day = refl

no_leap_day : parse_time "2023-02-29T09:05:06Z" ≡ none
unfolding parse_time
no_leap_day = refl
