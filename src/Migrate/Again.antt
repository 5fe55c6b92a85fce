-- ===== src/Migrate/Again.antt =====
-- pkg/migrate/migrate.go: a second run.
use package.text.Mathlib.TextPositions.{eq_refl}
use api_time_machine.Prelude.{
  String, ◌≡◌, ◌≢◌, refl, sym, ap, ◌∙◌, arith, Bool, true, false, Option, none, some, List, [], ◌∷◌,
  ◌++◌, any, All, str_eq, if◌then◌else◌,
}
use api_time_machine.Result.{Result, ok, err, decode_failed}
use api_time_machine.Migrate.{
  Entry, State, then_do, call, or_rolled_back, is_applied, attempt, apply_text, apply_file,
  apply_files, scripts, up,
}
use api_time_machine.Migrate.Applied.{any-append, attempt_ok, apply_files-Did, Did}

module _ {S : Type 0} (exec : String → S → Option S) (read : String → Option String) where
  noted :
      (name : String) (s s' : State S)
      → s'.applied ≡ s.applied ++ name ∷ []
      → is_applied name s' ≡ true
  noted name s s' e =
      let split =
        ap (any (λ m. str_eq m name)) e ∙ any-append (λ m. str_eq m name) s.applied (name ∷ []) in
      ground (arith, split, eq_refl name)

  apply_text-is_applied :
      (name : String) (text : Option String) (s : State S)
      → (apply_text exec read name text s).0 ≡ ok tt
      → is_applied name (apply_text exec read name text s).1 ≡ true
  apply_text-is_applied name none s h = absurd (cc (h))
  apply_text-is_applied name (some sql) s h = go (attempt exec read name sql s) refl h
    where
      go :
          (p : Result (Unit {0}) × State S)
          → attempt exec read name sql s ≡ p
          → (or_rolled_back s p).0 ≡ ok tt
          → is_applied name (or_rolled_back s p).1 ≡ true
      go (ok _, s') e h =
          noted name s s'
            (sym (ap (λ p. p.1.applied) e) ∙ (attempt_ok exec read name sql s (ap (λ p. p.0) e)).0)
      go (err x, s') e h = absurd (cc (h))

  apply_file-is_applied :
      (name : String) (s : State S)
      → (apply_file exec read name s).0 ≡ ok tt
      → is_applied name (apply_file exec read name s).1 ≡ true
  unfolding apply_file
  apply_file-is_applied name s h = go (call s) h
    where
      tested :
          (s' : State S) (b : Bool)
          → is_applied name s' ≡ b
          → (if b then (ok tt, s') else apply_text exec read name (read name) s').0 ≡ ok tt
          → is_applied name (if b then (ok tt, s') else apply_text exec read name (read name) s').1
            ≡ true
      tested s' true e h = e
      tested s' false e h = apply_text-is_applied name (read name) s' h

      go :
          (p : Result (Unit {0}) × State S)
          → (then_do p λ s1.
              if is_applied name s1
              then (ok tt, s1)
              else apply_text exec read name (read name) s1).0
            ≡ ok tt
          → is_applied name
              (then_do p λ s1.
                if is_applied name s1
                then (ok tt, s1)
                else apply_text exec read name (read name) s1).1
            ≡ true
      go (ok _, s') h = tested s' (is_applied name s') refl h
      go (err x, s') h = absurd (cc (h))

  still_applied :
      (name : String) (s s' : State S)
      → Did exec read s s'
      → is_applied name s ≡ true
      → is_applied name s' ≡ true
  still_applied name s s' d h =
      let split =
        ap (any (λ m. str_eq m name)) d.recorded
        ∙ any-append (λ m. str_eq m name) s.applied d.done in
      ground (arith, split, h)

  AllApplied : List String → State S → Type 0
  AllApplied names s = All (λ n. is_applied n s ≡ true) names

  apply_files-All :
      (names : List String) (s : State S)
      → (apply_files exec read names s).0 ≡ ok tt
      → All (λ n. is_applied n (apply_files exec read names s).1 ≡ true) names
  unfolding apply_files
  apply_files-All [] s h = tt
  apply_files-All (n ∷ ns) s h =
      go (apply_file exec read n s) (apply_file-is_applied n s) (apply_files-All ns) h
    where
      go :
          (p : Result (Unit {0}) × State S)
          → (p.0 ≡ ok tt → is_applied n p.1 ≡ true)
          → ((s' : State S)
              → (apply_files exec read ns s').0 ≡ ok tt
              → All (λ n. is_applied n (apply_files exec read ns s').1 ≡ true) ns)
          → (then_do p (apply_files exec read ns)).0 ≡ ok tt
          → All (λ n. is_applied n (then_do p (apply_files exec read ns)).1 ≡ true) (n ∷ ns)
      go (ok _, s') one rest h = (
        still_applied n s' (apply_files exec read ns s').1 (apply_files-Did exec read ns s')
            (one refl),
        rest s' h,
      )
      go (err x, s') one rest h = absurd (cc (h))

  abbrev pub quiet : State S → State S
  quiet s = record s { faults = [] }

  nothing_left :
      (names : List String) (s : State S)
      → All (λ n. is_applied n s ≡ true) names
      → apply_files exec read names (quiet s) ≡ (ok tt, quiet s)
  unfolding apply_file apply_files
  nothing_left [] s h = refl
  nothing_left (n ∷ ns) s h =
      ap
        (λ b.
          then_do (if b then (ok tt, quiet s) else apply_text exec read n (read n) (quiet s))
            (apply_files exec read ns))
        h.0
      ∙ nothing_left ns s h.1

  unread : (p : Result (Unit {0}) × State S) → (then_do p λ s1. (err decode_failed, s1)).0 ≢ ok tt
  unread (ok _, s') h = cc (h)
  unread (err x, s') h = cc (h)

  -- After a run that succeeded every script of the directory is recorded.
  pub up-All :
      (dir : Option (List Entry)) (s : State S)
      → (up exec read dir s).0 ≡ ok tt
      → (entries : List Entry) × (dir ≡ some entries)
        × All (λ n. is_applied n (up exec read dir s).1 ≡ true) (scripts entries)
  unfolding up
  up-All none s h = absurd (unread (call s) h)
  up-All (some entries) s h = (entries, refl, go (call s) h)
    where
      go :
          (p : Result (Unit {0}) × State S)
          → (then_do p (apply_files exec read (scripts entries))).0 ≡ ok tt
          → All
              (λ n. is_applied n (then_do p (apply_files exec read (scripts entries))).1 ≡ true)
              (scripts entries)
      go (ok _, s') h = apply_files-All (scripts entries) s' h
      go (err x, s') h = absurd (cc (h))

  -- After a run of the migrations that succeeded, a second run over the same directory in which no
  -- call of the driver fails succeeds and changes nothing.
  pub up_again :
      (dir : Option (List Entry)) (s : State S)
      → (up exec read dir s).0 ≡ ok tt
      → let end = quiet (up exec read dir s).1 in up exec read dir end ≡ (ok tt, end)
  unfolding up
  up_again none s h = absurd (unread (call s) h)
  up_again (some entries) s h = go (call s) h
    where
      go :
          (p : Result (Unit {0}) × State S)
          → (then_do p (apply_files exec read (scripts entries))).0 ≡ ok tt
          → let end = quiet (then_do p (apply_files exec read (scripts entries))).1 in
            apply_files exec read (scripts entries) end ≡ (ok tt, end)
      go (ok _, s') h =
          nothing_left (scripts entries) (apply_files exec read (scripts entries) s').1
            (apply_files-All (scripts entries) s' h)
      go (err x, s') h = absurd (cc (h))
