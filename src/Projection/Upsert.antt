-- ===== src/Projection/Upsert.antt =====
-- Reading a read model's table after an upsert.
use text.Mathlib.TextPositions.{eq_refl}
use api_time_machine.Prelude.{String, ◌≡◌, ◌≢◌, ◌∙◌, arith, eq_iff, none, some}
use api_time_machine.Prelude.Assoc.{Assoc, lookup, lookup-insert}
use api_time_machine.Projection.{upsert}

module _ {R : Type 0} (keep : R → R → R) (id : String) where
  pub lookup-upsert_self :
      (new : R) (table : Assoc R)
      → lookup id (upsert keep id new table)
        ≡ some (elim (lookup id table) [ none ↦ new | some old ↦ keep old new ])
  lookup-upsert_self new table = lookup-insert id id _ table ∙ rw (eq_refl id)

  pub lookup-upsert_ne :
      (j : String) (new : R) (table : Assoc R)
      → id ≢ j
      → lookup j (upsert keep id new table) ≡ lookup j table
  lookup-upsert_ne j new table other = lookup-insert id j _ table ∙ ground (arith, eq_iff id j)
