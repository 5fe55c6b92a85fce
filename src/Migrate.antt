-- ===== src/Migrate.antt =====
-- pkg/migrate/migrate.go. The directory, the files' texts and what Postgres does with a script are
-- parameters; `schema` is what the scripts work on, and a script leaves schema_migrations alone.
pub mod Applied
pub mod Again
pub mod Done
use api_time_machine.Prelude.{
  ℕ, String, Bool, true, false, not, ◌&&◌, ◌||◌, Option, none, some, List, [], ◌∷◌, ◌++◌, map,
  filter, any, str_eq, if◌then◌else◌,
}
use Prim.Native.String
use text.Mathlib.Text.{is_le}
use api_time_machine.Prelude.Sort.{order_by}
use api_time_machine.Text.{has_suffix}
use api_time_machine.Result.{Error, Result, ok, err, db_failed, decode_failed}

-- An entry of the directory.
pub record Entry : Type 0 where
  pub name : String
  pub is_dir : Bool

abbrev pub name_le : String → String → Bool
name_le a b = is_le (String.compare a b)

abbrev pub is_script : Entry → Bool
is_script e = not e.is_dir && has_suffix e.name ".sql"

-- The names of the scripts, sorted.
unfoldable pub scripts : List Entry → List String
unfolding order_by
scripts entries = order_by name_le (map (λ e. e.name) (filter is_script entries))

-- `applied` is the table schema_migrations; a `true` of `faults` is a call that fails.
pub record State (S : Type 0) : Type 0 where
  pub applied : List String
  pub schema : S
  pub faults : List Bool

abbrev pub Step : Type 0 → Type 0
Step S = State S → Result (Unit {0}) × State S

module _ {S : Type 0} where
  abbrev pub then_do : Result (Unit {0}) × State S → Step S → Result (Unit {0}) × State S
  then_do (ok _, s) f = f s
  then_do (err e, s) f = (err e, s)

  abbrev pub call_with : List Bool → State S → Result (Unit {0}) × State S
  call_with [] s = (ok tt, s)
  call_with (false ∷ fs) s = (ok tt, record s { faults = fs })
  call_with (true ∷ fs) s = (err db_failed, record s { faults = fs })

  -- A call of the driver.
  abbrev pub call : Step S
  call s = call_with s.faults s

  -- `tx.Rollback`
  abbrev pub or_rolled_back : State S → Result (Unit {0}) × State S → Result (Unit {0}) × State S
  or_rolled_back s (ok _, s') = (ok tt, s')
  or_rolled_back s (err e, s') = (err e, record s' { applied = s.applied; schema = s.schema })

  abbrev pub is_applied : String → State S → Bool
  is_applied name s = any (λ n. str_eq n name) s.applied

  module _ (exec : String → S → Option S) (read : String → Option String) where
    abbrev pub executed : Option S → Step S
    executed none s = (err db_failed, s)
    executed (some schema) s = (ok tt, record s { schema = schema })

    -- The INSERT into schema_migrations, where the name is the primary key.
    abbrev pub note : String → Step S
    note name s =
        if is_applied name s
        then (err db_failed, s)
        else (ok tt, record s { applied = s.applied ++ name ∷ [] })

    -- Begin, the script, the row of schema_migrations and Commit
    abbrev pub attempt : String → String → Step S
    attempt name sql s0 = then_do (call s0) λ s1. then_do (call s1) λ s2.
        then_do (executed (exec sql s2.schema) s2)
          λ s3. then_do (call s3) λ s4. then_do (note name s4) λ s5. call s5

    abbrev pub apply_text : String → Option String → Step S
    apply_text name none s = (err decode_failed, s)
    apply_text name (some sql) s = or_rolled_back s (attempt name sql s)

    -- The body of the loop over the files.
    unfoldable pub apply_file : String → Step S
    apply_file name s0 =
        then_do (call s0)
          λ s1. if is_applied name s1 then (ok tt, s1) else apply_text name (read name) s1

    unfoldable pub apply_files : List String → Step S
    unfolding apply_file
    apply_files [] s = (ok tt, s)
    apply_files (name ∷ names) s = then_do (apply_file name s) (apply_files names)

    -- `Up`: `dir` is none where the directory cannot be read.
    unfoldable pub up : Option (List Entry) → Step S
    unfolding scripts apply_files
    up dir s0 = then_do (call s0) λ s1. elim dir [
      | none ↦ (err decode_failed, s1)
      | some entries ↦ apply_files (scripts entries) s1
    ]
