-- ===== src/Migrate/Applied.antt =====
-- pkg/migrate/migrate.go: which scripts are applied, and what a second run does.
use api_time_machine.Prelude.{
  String, ◌≡◌, refl, sym, ap, ◌∙◌, arith, Bool, true, false, ◌||◌, Option, none, some, List, [],
  ◌∷◌, ◌++◌, any, All, All-append, str_eq, if◌then◌else◌,
}
use mathlib.Core.List.{append-nil, append_assoc}
use api_time_machine.Result.{Result, ok, err, decode_failed}
use api_time_machine.Migrate.{
  Entry, State, Step, then_do, call, or_rolled_back, is_applied, attempt, apply_text, apply_file,
  apply_files, scripts, up,
}

pub any-append :
    (p : String → Bool) (xs ys : List String) → any p (xs ++ ys) ≡ (any p xs || any p ys)
any-append p [] ys = refl
any-append p (x ∷ xs) ys = ground (arith, any-append p xs ys)

module _ {S : Type 0} where
  -- A state with other faults ahead.
  abbrev Same : State S → State S → Type 0
  Same s s' = (s'.applied ≡ s.applied) × (s'.schema ≡ s.schema)

  call-Same : (s : State S) → Same s (call s).1
  call-Same s = ground arith

  module _ (exec : String → S → Option S) (read : String → Option String) where
    -- What one script does to the schema.
    abbrev pub run_script : String → S → Option S
    run_script name schema = elim (read name) [ none ↦ none | some sql ↦ exec sql schema ]

    pub attempt_ok :
        (name sql : String) (s : State S)
        → (attempt exec read name sql s).0 ≡ ok tt
        → ((attempt exec read name sql s).1.applied ≡ s.applied ++ name ∷ [])
          × (exec sql s.schema ≡ some (attempt exec read name sql s).1.schema)
    attempt_ok name sql s h = ground arith

    abbrev pub run_scripts : List String → S → Option S
    run_scripts [] schema = some schema
    run_scripts (n ∷ ns) schema = elim (run_script n schema) [
      | none ↦ none
      | some next ↦ run_scripts ns next
    ]

    run_scripts-one :
        (n : String) (ns : List String) (a b : S)
        → run_script n a ≡ some b
        → run_scripts (n ∷ ns) a ≡ run_scripts ns b
    run_scripts-one n ns a b e = rw (e, run_scripts) refl

    -- What a run has done: the scripts of `done`, in their order, none of which was applied before.
    pub record Did (s s' : State S) : Type 0 where
      pub done : List String
      pub recorded : s'.applied ≡ s.applied ++ done
      pub ran : run_scripts done s.schema ≡ some s'.schema
      pub fresh : All (λ n. is_applied n s ≡ false) done

    Same-Did : (s s' : State S) → Same s s' → Did s s'
    Same-Did s s' h = record {
      done = [];
      recorded = h.0 ∙ sym (append-nil s.applied);
      ran = ap some (sym h.1);
      fresh = tt;
    }

    one-Did :
        (name : String) (s s' : State S)
        → s'.applied ≡ s.applied ++ name ∷ []
        → run_script name s.schema ≡ some s'.schema
        → is_applied name s ≡ false
        → Did s s'
    one-Did name s s' e r f = record {
      done = name ∷ [];
      recorded = e;
      ran = run_scripts-one name [] s.schema s'.schema r;
      fresh = (f, tt);
    }

    after-append :
        (r : Option S) (ns ms : List String) (b : S)
        → ((c : S) → run_scripts ns c ≡ some b → run_scripts (ns ++ ms) c ≡ run_scripts ms b)
        → (elim r [ none ↦ none | some c ↦ run_scripts ns c ]) ≡ some b
        → (elim r [ none ↦ none | some c ↦ run_scripts (ns ++ ms) c ]) ≡ run_scripts ms b
    after-append none ns ms b ih h = absurd (cc (h))
    after-append (some c) ns ms b ih h = ih c h

    run_scripts-append :
        (ns ms : List String) (a b : S)
        → run_scripts ns a ≡ some b
        → run_scripts (ns ++ ms) a ≡ run_scripts ms b
    run_scripts-append [] ms a b e = ap (run_scripts ms) (cc (e))
    run_scripts-append (n ∷ ns) ms a b e =
        after-append (run_script n a) ns ms b (λ c. run_scripts-append ns ms c b) e

    earlier-fresh :
        (s s' : State S) (done ns : List String)
        → s'.applied ≡ s.applied ++ done
        → All (λ n. is_applied n s' ≡ false) ns
        → All (λ n. is_applied n s ≡ false) ns
    earlier-fresh s s' done [] e h = tt
    earlier-fresh s s' done (n ∷ ns) e h =
        let split = ap (any (λ m. str_eq m n)) e ∙ any-append (λ m. str_eq m n) s.applied done in
        (ground (arith, split, h.0), earlier-fresh s s' done ns e h.1)

    Did-trans : (a b c : State S) → Did a b → Did b c → Did a c
    Did-trans a b c d e = record {
      done = d.done ++ e.done;
      recorded =
          e.recorded ∙ ap (λ xs. xs ++ e.done) d.recorded ∙ append_assoc a.applied d.done e.done;
      ran = run_scripts-append d.done e.done a.schema b.schema d.ran ∙ e.ran;
      fresh =
          All-append (λ n. is_applied n a ≡ false) d.done e.done d.fresh
            (earlier-fresh a b d.done e.done d.recorded e.fresh);
    }

    apply_text-Did :
        (name : String) (text : Option String) (s : State S)
        → read name ≡ text
        → is_applied name s ≡ false
        → Did s (apply_text exec read name text s).1
    apply_text-Did name none s e f = Same-Did s s (refl, refl)
    apply_text-Did name (some sql) s e f = go (attempt exec read name sql s) refl
      where
        go :
            (p : Result (Unit {0}) × State S)
            → attempt exec read name sql s ≡ p
            → Did s (or_rolled_back s p).1
        go (ok _, s') h =
            let done = attempt_ok name sql s (ap (λ p. p.0) h) in
            one-Did name s s' (sym (ap (λ p. p.1.applied) h) ∙ done.0)
              (rw (e, run_script) (done.1 ∙ ap (λ p. some p.1.schema) h)) f
        go (err x, s') h = Same-Did s _ (refl, refl)

    apply_file-Did : (name : String) (s : State S) → Did s (apply_file exec read name s).1
    unfolding apply_file
    apply_file-Did name s = go (call s) (call-Same s)
      where
        tested :
            (s' : State S) (b : Bool)
            → is_applied name s' ≡ b
            → Did s' (if b then (ok tt, s') else apply_text exec read name (read name) s').1
        tested s' true e = Same-Did s' s' (refl, refl)
        tested s' false e = apply_text-Did name (read name) s' refl e

        go :
            (p : Result (Unit {0}) × State S)
            → Same s p.1
            → Did s
                (then_do p λ s1.
                  if is_applied name s1
                  then (ok tt, s1)
                  else apply_text exec read name (read name) s1).1
        go (ok _, s') h = Did-trans s s' _ (Same-Did s s' h) (tested s' (is_applied name s') refl)
        go (err x, s') h = Same-Did s s' h

    then-Did :
        (s : State S) (p : Result (Unit {0}) × State S) (f : Step S)
        → Did s p.1
        → ((s' : State S) → Did s' (f s').1)
        → Did s (then_do p f).1
    then-Did s (ok _, s') f d h = Did-trans s s' (f s').1 d (h s')
    then-Did s (err x, s') f d h = d

    pub apply_files-Did :
        (names : List String) (s : State S) → Did s (apply_files exec read names s).1
    unfolding apply_files
    apply_files-Did [] s = Same-Did s s (refl, refl)
    apply_files-Did (n ∷ ns) s =
        then-Did s (apply_file exec read n s) (apply_files exec read ns) (apply_file-Did n s)
          (apply_files-Did ns)

    -- However a run of the migrations ends, the scripts that it recorded are those that it ran on
    -- the schema, in their order, and none of them was recorded before.
    pub up-Did : (dir : Option (List Entry)) (s : State S) → Did s (up exec read dir s).1
    unfolding up
    up-Did none s =
        then-Did s (call s) (λ s1. (err decode_failed, s1)) (Same-Did s (call s).1 (call-Same s))
          (λ s'. Same-Did s' s' (refl, refl))
    up-Did (some entries) s =
        then-Did s (call s) (apply_files exec read (scripts entries))
          (Same-Did s (call s).1 (call-Same s)) (apply_files-Did (scripts entries))
