-- ===== src/Diff/Fields.antt =====
-- What `Engine.Compare` reports of each key.
use api_time_machine.Prelude.{
  String, Bool, true, false, ◌≡◌, refl, arith, eq_iff, Option, none, some, List, [], ◌∷◌, ◌++◌,
  str_eq, any, if◌then◌else◌, Bool-cases, inl, inr,
}
use api_time_machine.Prelude.Assoc.{Assoc, lookup, insert, lookup-insert}
use api_time_machine.Domain.{is_some}
use api_time_machine.Aggregate.User.{User}
use api_time_machine.Aggregate.Product.{Product}
use api_time_machine.Aggregate.Order.{Order}
use api_time_machine.Diff.{
  Locations, Value, FieldChange, DiffResult, deep_equal, change, visit, over_to, leave, over_from,
  compare, user_map, product_map, order_map,
}

-- Each key once.
abbrev pub IsMap {ℓ} : {V : Type ℓ} → Assoc V → Type ℓ
IsMap [] = Unit
IsMap ((k, v) ∷ m) = (lookup k m ≡ none) × IsMap m

-- The states that the handlers compare are such maps.
pub user_map-IsMap : (l : Locations) (u : User) → IsMap (user_map l u)
unfolding user_map lookup
user_map-IsMap l u = (refl, (refl, (refl, (refl, (refl, (refl, (refl, (refl, (refl, tt)))))))))

pub product_map-IsMap : (l : Locations) (p : Product) → IsMap (product_map l p)
unfolding product_map lookup
product_map-IsMap l p = (refl, (refl, (refl, (refl, (refl, (refl, (refl, (refl, (refl, tt)))))))))

pub order_map-IsMap : (l : Locations) (o : Order) → IsMap (order_map l o)
unfolding order_map lookup
order_map-IsMap l o =
    (refl, (refl, (refl, (refl, (refl, (refl, (refl, (refl, (refl, (refl, tt))))))))))

-- The change of a key that has these values before and after.
unfoldable pub expected : Option Value → Option Value → Option FieldChange
expected none none = none
expected none (some v) = some (record { before = none; after = some v })
expected (some old) none = some (record { before = some old; after = none })
expected (some old) (some v) =
    if deep_equal old v then none else some (record { before = some old; after = some v })

abbrev or_else {ℓ} : {A : Type ℓ} → Option A → Option A → Option A
or_else none b = b
or_else (some a) b = some a

-- What the loop over `to` reports of a key.
abbrev arrived : Option Value → Option Value → Option FieldChange
arrived old none = none
arrived old (some v) = expected old (some v)

lookup-visit :
    (j k : String) (v : Value) (old : Option Value) (r : DiffResult)
    → lookup j (visit k v old r).fields ≡ (
        if str_eq k j
        then or_else (expected old (some v)) (lookup j r.fields)
        else lookup j r.fields)
unfolding visit change expected
lookup-visit j k v none r =
    ground (arith, lookup-insert k j (record { before = none; after = some v }) r.fields)
lookup-visit j k v (some old) r =
    ground (arith, lookup-insert k j (record { before = some old; after = some v }) r.fields)

fields-over_to :
    (j : String) (from to : Assoc Value) (s : DiffResult × Assoc (Unit {0}))
    → IsMap to
    → lookup j (over_to from to s).0.fields
      ≡ or_else (arrived (lookup j from) (lookup j to)) (lookup j s.0.fields)
unfolding over_to lookup
fields-over_to j from [] s h = refl
fields-over_to j from ((k, v) ∷ to) s h = ground (
  arith,
  fields-over_to j from to (visit k v (lookup k from) s.0, insert k tt s.1) h.1,
  lookup-visit j k v (lookup k from) s.0,
  eq_iff k j,
  h.0,
)

seen-over_to :
    (j : String) (from to : Assoc Value) (s : DiffResult × Assoc (Unit {0}))
    → is_some (lookup j (over_to from to s).1)
      ≡ (if is_some (lookup j to) then true else is_some (lookup j s.1))
unfolding over_to lookup
seen-over_to j from [] s = refl
seen-over_to j from ((k, v) ∷ to) s = ground (
  arith,
  seen-over_to j from to (visit k v (lookup k from) s.0, insert k tt s.1),
  lookup-insert k j tt s.1,
)

-- What the loop over `from` reports of a key.
abbrev left : Option Value → Option (Unit {0}) → Option FieldChange
left none seen = none
left (some old) none = some (record { before = some old; after = none })
left (some old) (some u) = none

fields-over_from :
    (j : String) (seen : Assoc (Unit {0})) (from : Assoc Value) (r : DiffResult)
    → IsMap from
    → lookup j (over_from seen from r).fields
      ≡ or_else (left (lookup j from) (lookup j seen)) (lookup j r.fields)
unfolding over_from lookup
fields-over_from j seen [] r h = refl
fields-over_from j seen ((k, v) ∷ from) r h = ground (
  arith,
  fields-over_from j seen from (leave k v (lookup k seen) r) h.1,
  lookup-leave j k v (lookup k seen) r,
  eq_iff k j,
  h.0,
)
  where
    lookup-leave :
        (j k : String) (v : Value) (seen : Option (Unit {0})) (r : DiffResult)
        → lookup j (leave k v seen r).fields ≡ (
            if str_eq k j
            then or_else (left (some v) seen) (lookup j r.fields)
            else lookup j r.fields)
    lookup-leave j k v none r =
        lookup-insert k j (record { before = some v; after = none }) r.fields
    lookup-leave j k v (some u) r = ground arith

-- For two states that have each key once, the difference of a key in Compare's result is none where
-- neither state has it or both have equal values, and otherwise the pair of the values before and
-- after, with a missing one as nil.
pub lookup-compare :
    (from to : Assoc Value) (k : String)
    → IsMap from
    → IsMap to
    → lookup k (compare from to).fields ≡ expected (lookup k from) (lookup k to)
unfolding compare expected
lookup-compare from to k hf ht =
    let r : DiffResult = record { changed = []; from = from; to = to; fields = [] } in
    let s = over_to from to (r, []) in
    combine (lookup k from) (lookup k to) (lookup k s.1) (lookup k s.0.fields) _
      (fields-over_to k from to (r, []) ht) (seen-over_to k from to (r, []))
      (fields-over_from k s.1 from s.0 hf)
  where
    combine :
        (old new : Option Value) (seen : Option (Unit {0})) (mid end : Option FieldChange)
        → mid ≡ or_else (arrived old new) none
        → is_some seen ≡ (if is_some new then true else false)
        → end ≡ or_else (left old seen) mid
        → end ≡ expected old new
    combine old new seen mid end m s e = ground arith

-- The list of changed keys names exactly the keys of `Fields`.
abbrev Listed : DiffResult → Type 0
Listed r = (k : String) → any (λ x. str_eq x k) r.changed ≡ is_some (lookup k r.fields)

any-snoc :
    (p : String → Bool) (xs : List String) (x : String)
    → any p (xs ++ x ∷ []) ≡ (if any p xs then true else p x)
any-snoc p [] x = ground arith
any-snoc p (y ∷ xs) x = ground (arith, any-snoc p xs x)

change-Listed :
    (k : String) (old new : Option Value) (r : DiffResult) → Listed r → Listed (change k old new r)
unfolding change
change-Listed k old new r h j = ground (
  arith,
  any-snoc (λ x. str_eq x j) r.changed k,
  h j,
  lookup-insert k j (record { before = old; after = new }) r.fields,
)

over_to-Listed :
    (from to : Assoc Value) (s : DiffResult × Assoc (Unit {0}))
    → Listed s.0
    → Listed (over_to from to s).0
unfolding over_to
over_to-Listed from [] s h = h
over_to-Listed from ((k, v) ∷ to) s h =
    over_to-Listed from to (visit k v (lookup k from) s.0, insert k tt s.1)
      (visit-Listed (lookup k from))
  where
    visit-Listed : (old : Option Value) → Listed (visit k v old s.0)
    visit-Listed none = change-Listed k none (some v) s.0 h
    visit-Listed (some old) = elim (Bool-cases (deep_equal old v)) [
      | inl same ↦ rw same h
      | inr other ↦ rw other (change-Listed k (some old) (some v) s.0 h)
    ]

over_from-Listed :
    (seen : Assoc (Unit {0})) (from : Assoc Value) (r : DiffResult)
    → Listed r
    → Listed (over_from seen from r)
unfolding over_from
over_from-Listed seen [] r h = h
over_from-Listed seen ((k, v) ∷ from) r h =
    over_from-Listed seen from (leave k v (lookup k seen) r) (leave-Listed (lookup k seen))
  where
    leave-Listed : (s : Option (Unit {0})) → Listed (leave k v s r)
    leave-Listed none = change-Listed k (some v) none r h
    leave-Listed (some u) = h

-- A key is in Compare's list of changed keys exactly when Compare has a difference for it.
pub changed-compare :
    (from to : Assoc Value) (k : String)
    → any (λ x. str_eq x k) (compare from to).changed ≡ is_some (lookup k (compare from to).fields)
unfolding compare
changed-compare from to k =
    let r : DiffResult = record { changed = []; from = from; to = to; fields = [] } in
    let s = over_to from to (r, []) in
    over_from-Listed s.1 from s.0 (over_to-Listed from to (r, []) (λ j. unfold lookup in refl)) k
