-- ===== src/Json.antt =====
-- JSON documents as the program writes them (encoding/json) and as the JSONB columns keep them:
-- parsed, so that text and white space are gone. A number is an int64, the only kind that the
-- program writes; an instant, which Go writes as an RFC 3339 text, is a constructor of its own.
use api_time_machine.Prelude.{
  ℕ, ◌+◌, String, Bool, true, false, ◌&&◌, ◌==◌, leb, map, Option, none, some, List, [], ◌∷◌,
  str_eq, if◌then◌else◌,
}
use api_time_machine.Prelude.Int.{ℤ}
use api_time_machine.Result.{Result, ok, err, decode_failed, ◌>>=◌}
use api_time_machine.Text.{codes, same_codes}

-- `time.Time`: ticks since the zero time of Go.
abbrev pub Time : Type 0
Time = ℕ

mutual
  pub data Json : Type 0 where
    null : Json
    bool : Bool → Json
    num : ℤ → Json
    str : String → Json
    time : Time → Json
    arr : Items → Json
    obj : Fields → Json

  pub data Items : Type 0 where
    nil : Items
    cons : Json → Items → Items

  pub data Fields : Type 0 where
    end : Fields
    field : String → Json → Fields → Fields

abbrev pub json_items : List Json → Items
json_items [] = nil
json_items (j ∷ js) = cons j (json_items js)

abbrev pub fields : List (String × Json) → Fields
fields [] = end
fields ((k, j) ∷ fs) = field k j (fields fs)

abbrev pub object : List (String × Json) → Json
object fs = obj (fields fs)

-- A field with `omitempty`: left out when its value is empty.
abbrev pub omit_if : Bool → String → Json → List (String × Json) → List (String × Json)
omit_if empty k j rest = if empty then rest else (k, j) ∷ rest

-- `*string` and `*int64`: a nil pointer is null.
abbrev pub omit_nil {ℓ} :
    {A : Type ℓ} → Option A → (A → Json) → String → List (String × Json) → List (String × Json)
omit_nil none f k rest = rest
omit_nil (some a) f k rest = (k, f a) ∷ rest

-- JSONB keeps one value for each key.
abbrev pub get_field : String → Fields → Option Json
get_field k end = none
get_field k (field j v fs) = if str_eq j k then some v else get_field k fs

abbrev folded : ℕ → ℕ
folded c =
    if leb b'A' c && leb c b'Z'
    then c + 32
    else if c == 383
    then b's'
    else if c == 8490
    then b'k'
    else c

-- Whether encoding/json takes a member of this name for the field `k`, a name in small letters: case
-- is ignored, and so are the long s and the sign of the kelvin.
abbrev pub names_field : String → String → Bool
names_field k name = same_codes (map folded (codes name)) (codes k)

abbrev read_member {ℓ} : {A : Type ℓ} → (Json → A → Result A) → Bool → Json → A → Result A
read_member decode true j old = decode j old
read_member decode false j old = ok old

-- The field `k` of a struct that a body is decoded into: each member of that name is decoded in its
-- turn, into what the ones before it left.
abbrev pub read_field {ℓ} : {A : Type ℓ} → (Json → A → Result A) → String → Fields → A → Result A
read_field decode k end old = ok old
read_field decode k (field j v fs) old =
    read_member decode (names_field k j) v old >>= λ new. read_field decode k fs new

-- json.Unmarshal into a struct: null changes nothing, any other document but an object is an error.
abbrev pub as_fields : Json → Result Fields
as_fields null = ok end
as_fields (obj fs) = ok fs
as_fields _ = err decode_failed

-- A field that is missing or null keeps the value `old` of the struct.
abbrev pub as_string : Option Json → String → Result String
as_string none old = ok old
as_string (some null) old = ok old
as_string (some (str s)) old = ok s
as_string (some _) old = err decode_failed

abbrev pub as_int : Option Json → ℤ → Result ℤ
as_int none old = ok old
as_int (some null) old = ok old
as_int (some (num n)) old = ok n
as_int (some _) old = err decode_failed

abbrev pub as_bool : Option Json → Bool → Result Bool
as_bool none old = ok old
as_bool (some null) old = ok old
as_bool (some (bool b)) old = ok b
as_bool (some _) old = err decode_failed

abbrev pub as_time : Option Json → Time → Result Time
as_time none old = ok old
as_time (some null) old = ok old
as_time (some (time t)) old = ok t
as_time (some _) old = err decode_failed

-- Pointer fields of a fresh struct start as nil.
abbrev pub as_string_ptr : Option Json → Result (Option String)
as_string_ptr none = ok none
as_string_ptr (some null) = ok none
as_string_ptr (some (str s)) = ok (some s)
as_string_ptr (some _) = err decode_failed

abbrev pub as_int_ptr : Option Json → Result (Option ℤ)
as_int_ptr none = ok none
as_int_ptr (some null) = ok none
as_int_ptr (some (num n)) = ok (some n)
as_int_ptr (some _) = err decode_failed

abbrev pub read_string : String → Fields → Result String
read_string k fs = read_field (λ j old. as_string (some j) old) k fs ""

abbrev pub read_int : String → Fields → ℤ → Result ℤ
read_int k fs old = read_field (λ j old. as_int (some j) old) k fs old

abbrev pub read_string_ptr : String → Fields → Result (Option String)
read_string_ptr k fs = read_field (λ j old. as_string_ptr (some j)) k fs none

abbrev pub read_int_ptr : String → Fields → Result (Option ℤ)
read_int_ptr k fs = read_field (λ j old. as_int_ptr (some j)) k fs none

-- `if p.X != nil { u.X = *p.X }`
abbrev pub or_keep {ℓ} : {A : Type ℓ} → Option A → A → A
or_keep none old = old
or_keep (some new) old = new
