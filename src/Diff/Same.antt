-- ===== src/Diff/Same.antt =====
-- internal/diff/engine.go: the comparison of a state with itself.
use api_time_machine.Prelude.{
  String, ◌≡◌, refl, ap, ◌∙◌, arith, true, false, Option, none, some, List, [], ◌∷◌, any, str_eq,
  eq_iff,
}
use package.text.Mathlib.TextPositions.{eq_refl}
use api_time_machine.Prelude.Assoc.{Assoc, lookup}
use api_time_machine.Domain.{is_some}
use api_time_machine.Aggregate.Order.{Item}
use api_time_machine.Diff.{Value, text, int64, flag, instant, items, items_eq, deep_equal, compare}
use api_time_machine.Diff.Fields.{IsMap, expected, lookup-compare, changed-compare}

items_eq_self : (is : List Item) → items_eq is is ≡ true
items_eq_self [] = refl
items_eq_self (i ∷ is) = ground (arith, eq_iff i.product_id i.product_id, items_eq_self is)

deep_equal_self : (v : Value) → deep_equal v v ≡ true
unfolding deep_equal
deep_equal_self (text s) = eq_refl s
deep_equal_self (int64 n) = ground arith
deep_equal_self (flag true) = refl
deep_equal_self (flag false) = refl
deep_equal_self (instant t l) = ground arith
deep_equal_self (items none) = refl
deep_equal_self (items (some is)) = items_eq_self is

expected_self : (v : Option Value) → expected v v ≡ none
unfolding expected
expected_self none = refl
expected_self (some v) = rw (deep_equal_self v) refl

no_member : (xs : List String) → ((k : String) → any (λ x. str_eq x k) xs ≡ false) → xs ≡ []
no_member [] h = refl
no_member (x ∷ xs) h = let e = h x in ground (arith, e, eq_refl x)

no_entry : {V : Type 0} (m : Assoc V) → ((k : String) → lookup k m ≡ none) → m ≡ []
unfolding lookup
no_entry [] h = refl
no_entry ((k, v) ∷ m) h = let e = h k in ground (arith, e, eq_refl k)

-- A state that has each key once does not differ from itself: Compare finds no changed key and no
-- field.
pub compare_self :
    (m : Assoc Value) → IsMap m → ((compare m m).changed ≡ []) × ((compare m m).fields ≡ [])
compare_self m h = (
  no_member (compare m m).changed (λ k.
      changed-compare m m k ∙ ap is_some (lookup-compare m m k h h ∙ expected_self (lookup k m))),
  no_entry (compare m m).fields (λ k. lookup-compare m m k h h ∙ expected_self (lookup k m)),
)
