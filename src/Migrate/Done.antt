-- ===== src/Migrate/Done.antt =====
-- pkg/migrate/migrate.go: what a run does in which no call of the driver fails.
use api_time_machine.Prelude.{
  String, arith, subst, ◌≡◌, ◌≢◌, refl, sym, ap, false, Option, none, some, List, [], ◌∷◌, ◌++◌,
  ◌∙◌, any, str_eq, if◌then◌else◌, Bool-cases, inl, inr,
}
use mathlib.Core.List.{append-nil, append_assoc}
use api_time_machine.Result.{Result, ok, err}
use api_time_machine.Migrate.{
  Entry, State, then_do, is_applied, apply_text, apply_file, apply_files, scripts, up,
}
use api_time_machine.Migrate.Applied.{run_script, run_scripts}

-- The names that are not recorded yet, each once.
abbrev pub left_to_run : List String → List String → List String
left_to_run [] applied = []
left_to_run (n ∷ ns) applied =
    if any (λ m. str_eq m n) applied
    then left_to_run ns applied
    else n ∷ left_to_run ns (applied ++ n ∷ [])

module _ {S : Type 0} where
  -- The state between two scripts.
  abbrev pub at : List String → S → State S
  at applied schema = record { applied = applied; schema = schema; faults = [] }

  -- A run that has these scripts to run ends with the schema that they make and with their names
  -- recorded, and with an error if one of them cannot be read or fails.
  abbrev pub EndsWith : List String → List String → Option S → Result (Unit {0}) × State S → Type 0
  EndsWith applied done none p = p.0 ≢ ok tt
  EndsWith applied done (some next) p = p ≡ (ok tt, at (applied ++ done) next)

  longer :
      (applied : List String) (n : String) (more : List String) (r : Option S)
      (p : Result (Unit {0}) × State S)
      → EndsWith (applied ++ n ∷ []) more r p
      → EndsWith applied (n ∷ more) r p
  longer applied n more none p h = h
  longer applied n more (some next) p h =
      h ∙ ap (λ a. (ok tt, at a next)) (append_assoc applied (n ∷ []) more)

module _ {S : Type 0} (exec : String → S → Option S) (read : String → Option String) where
  -- A script that is not recorded.
  apply_text-EndsWith :
      (name : String) (text : Option String) (applied : List String) (schema : S)
      → is_applied name (at applied schema) ≡ false
      → EndsWith applied
          (name ∷ [])
          (elim text [ none ↦ none | some sql ↦ exec sql schema ])
          (apply_text exec read name text (at applied schema))
  apply_text-EndsWith name none applied schema f = ground arith
  apply_text-EndsWith name (some sql) applied schema f = go (exec sql schema) refl
    where
      go :
          (r : Option S)
          → exec sql schema ≡ r
          → EndsWith applied
              (name ∷ [])
              r
              (apply_text exec read name (some sql) (at applied schema))
      go none e = ground (arith, e)
      go (some next) e = ground (arith, e, f)

  apply_files-EndsWith :
      (names applied : List String) (schema : S)
      → let done = left_to_run names applied in
        EndsWith applied done
          (run_scripts exec read done schema)
          (apply_files exec read names (at applied schema))
  unfolding apply_files apply_file
  apply_files-EndsWith [] applied schema = ap (λ a. (ok tt, at a schema)) (sym (append-nil applied))
  apply_files-EndsWith (n ∷ ns) applied schema =
      elim (Bool-cases (is_applied n (at applied schema))) [
        | inl known ↦ rw known (apply_files-EndsWith ns applied schema)
        | inr fresh ↦ rw fresh (
            rest (apply_files-EndsWith ns (applied ++ n ∷ [])) (run_script exec read n schema)
              (apply_text exec read n (read n) (at applied schema))
              (apply_text-EndsWith n (read n) applied schema fresh))
      ]
    where
      more : List String
      more = left_to_run ns (applied ++ n ∷ [])

      rest :
          ((next : S)
            → EndsWith
                (applied ++ n ∷ [])
                more
                (run_scripts exec read more next)
                (apply_files exec read ns (at (applied ++ n ∷ []) next)))
          → (r : Option S) (p : Result (Unit {0}) × State S) → EndsWith applied (n ∷ []) r p
          → EndsWith applied
              (n ∷ more)
              (elim r [ none ↦ none | some next ↦ run_scripts exec read more next ])
              (then_do p (apply_files exec read ns))
      rest ih none (ok _, s) h = absurd (h refl)
      rest ih none (err x, s) h = h
      rest ih (some next) p h =
          subst
            (λ p.
              EndsWith applied (n ∷ more) (run_scripts exec read more next)
                (then_do p (apply_files exec read ns)))
            (sym h)
            (longer applied n more (run_scripts exec read more next)
              (apply_files exec read ns (at (applied ++ n ∷ []) next)) (ih next))

  -- If the directory can be read and no call of the driver fails, a run of the migrations runs the
  -- scripts of the directory that are not recorded, each once and in the order of their names: it
  -- succeeds with the schema that they make and with their names recorded after the others if each
  -- can be read and works where it is run, and ends with an error if not.
  pub up_done :
      (entries : List Entry) (applied : List String) (schema : S)
      → let done = left_to_run (scripts entries) applied in
        EndsWith applied done
          (run_scripts exec read done schema)
          (up exec read (some entries) (at applied schema))
  unfolding up
  up_done entries applied schema = apply_files-EndsWith (scripts entries) applied schema
