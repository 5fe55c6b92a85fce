-- ===== src/Diff.antt =====
-- internal/diff/engine.go: the fields in which two states differ. A Go map has each key once and no
-- order: an association list gives it one of its orders. The three `ToMap` of internal/user,
-- internal/product and internal/order/aggregate.go make the states.
pub mod Fields
pub mod Same
use api_time_machine.Prelude.{
  ℕ, String, Bool, true, false, ◌&&◌, Option, none, some, List, [], ◌∷◌, ◌++◌, str_eq, ◌==◌,
  if◌then◌else◌,
}
use api_time_machine.Prelude.Assoc.{Assoc, lookup, insert}
use api_time_machine.Prelude.Int.{ℤ, eqb_ℤ}
use api_time_machine.Json.{Time}
use api_time_machine.Aggregate.User.{User}
use api_time_machine.Aggregate.Product.{Product}
use api_time_machine.Aggregate.Order.{Order, Item, Slice}

-- What reflect.DeepEqual tells apart of a *time.Location, as a number; nil is 0.
abbrev pub Location : Type 0
Location = ℕ

-- The locations of the two instants of a state.
pub record Locations : Type 0 where
  pub created_at : Location
  pub updated_at : Location

-- What the states hold in a `map[string]any`.
pub data Value : Type 0 where
  text : String → Value
  int64 : ℤ → Value
  flag : Bool → Value
  instant : Time → Location → Value
  items : Slice → Value

abbrev pub bool_eq : Bool → Bool → Bool
bool_eq true b = b
bool_eq false true = false
bool_eq false false = true

abbrev pub items_eq : List Item → List Item → Bool
items_eq [] [] = true
items_eq [] (j ∷ js) = false
items_eq (i ∷ is) [] = false
items_eq (i ∷ is) (j ∷ js) =
    str_eq i.product_id j.product_id
    && eqb_ℤ i.quantity j.quantity
    && eqb_ℤ i.price_cents j.price_cents
    && items_eq is js

-- `reflect.DeepEqual` of the values above: a nil slice is not an empty one, and an instant in one
-- location is not the same instant in another. No instant here has a monotonic clock reading.
unfoldable pub deep_equal : Value → Value → Bool
deep_equal (text a) (text b) = str_eq a b
deep_equal (int64 a) (int64 b) = eqb_ℤ a b
deep_equal (flag a) (flag b) = bool_eq a b
deep_equal (instant a at) (instant b bt) = a == b && at == bt
deep_equal (items none) (items none) = true
deep_equal (items (some xs)) (items (some ys)) = items_eq xs ys
deep_equal _ _ = false

-- A nil `any` is `none`.
pub record FieldChange : Type 0 where
  pub before : Option Value
  pub after : Option Value

pub record DiffResult : Type 0 where
  pub changed : List String
  pub from : Assoc Value
  pub to : Assoc Value
  pub fields : Assoc FieldChange

unfoldable pub change : String → Option Value → Option Value → DiffResult → DiffResult
unfolding insert
change k before after r = record r {
  changed = r.changed ++ k ∷ [];
  fields = insert k (record { before = before; after = after }) r.fields;
}

-- One key of `to`.
unfoldable pub visit : String → Value → Option Value → DiffResult → DiffResult
unfolding change deep_equal
visit k v none r = change k none (some v) r
visit k v (some old) r = if deep_equal old v then r else change k (some old) (some v) r

-- The loop over `to`, and the set `seen`.
unfoldable pub over_to :
    Assoc Value → Assoc Value → DiffResult × Assoc (Unit {0}) → DiffResult × Assoc (Unit {0})
unfolding visit lookup insert
over_to from [] s = s
over_to from ((k, v) ∷ to) s = over_to from to (visit k v (lookup k from) s.0, insert k tt s.1)

-- One key of `from`.
unfoldable pub leave : String → Value → Option (Unit {0}) → DiffResult → DiffResult
unfolding change
leave k v none r = change k (some v) none r
leave k v (some _) r = r

unfoldable pub over_from : Assoc (Unit {0}) → Assoc Value → DiffResult → DiffResult
unfolding leave lookup
over_from seen [] r = r
over_from seen ((k, v) ∷ from) r = over_from seen from (leave k v (lookup k seen) r)

-- `Engine.Compare`
unfoldable pub compare : Assoc Value → Assoc Value → DiffResult
unfolding over_to over_from
compare from to =
    let (r, seen) =
      over_to from to (record { changed = []; from = from; to = to; fields = [] }, []) in
    over_from seen from r

unfoldable pub user_map : Locations → User → Assoc Value
user_map l u =
    ("id", text u.id)
    ∷ ("name", text u.name)
    ∷ ("email", text u.email)
    ∷ ("address", text u.address)
    ∷ ("avatar", text u.avatar)
    ∷ ("deleted", flag u.deleted)
    ∷ ("version", int64 u.version)
    ∷ ("created_at", instant u.created_at l.created_at)
    ∷ ("updated_at", instant u.updated_at l.updated_at)
    ∷ []

unfoldable pub product_map : Locations → Product → Assoc Value
product_map l p =
    ("id", text p.id)
    ∷ ("name", text p.name)
    ∷ ("description", text p.description)
    ∷ ("price_cents", int64 p.price_cents)
    ∷ ("currency", text p.currency)
    ∷ ("deleted", flag p.deleted)
    ∷ ("version", int64 p.version)
    ∷ ("created_at", instant p.created_at l.created_at)
    ∷ ("updated_at", instant p.updated_at l.updated_at)
    ∷ []

unfoldable pub order_map : Locations → Order → Assoc Value
order_map l o =
    ("id", text o.id)
    ∷ ("user_id", text o.user_id)
    ∷ ("status", text o.status)
    ∷ ("total_cents", int64 o.total_cents)
    ∷ ("currency", text o.currency)
    ∷ ("items", items o.items)
    ∷ ("cancelled", flag o.cancelled)
    ∷ ("version", int64 o.version)
    ∷ ("created_at", instant o.created_at l.created_at)
    ∷ ("updated_at", instant o.updated_at l.updated_at)
    ∷ []
