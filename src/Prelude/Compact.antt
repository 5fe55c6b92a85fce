-- ===== src/Prelude/Compact.antt =====
-- Go's filtering in place, `kept := xs[:0]; for x in xs { if keep(x) { kept = append(kept, x) } }`:
-- both slices share one array, so each append writes into the array that the loop reads.
use Prim.Native.Nat.{ℕ, zero, suc}
use mathlib.Core.Path.{◌≡◌, refl, ap, ◌∙◌}
use mathlib.Core.Bool.{Bool}
use mathlib.Core.Option.{Option, none, some}
use mathlib.Core.List.{List, [], ◌∷◌, ◌++◌, append-nil, append_assoc}
use mathlib.Core.Logic.{inl, inr}
use native.Mathlib.Omega.{arith}
use api_time_machine.Prelude.Tests.{if◌then◌else◌, Bool-cases}
use api_time_machine.Prelude.Lists.{length, take, filter, length-append}

module _ {ℓ} {A : Type ℓ} where
  abbrev pub get_elem? : List A → ℕ → Option A
  get_elem? [] i = none
  get_elem? (x ∷ xs) zero = some x
  get_elem? (x ∷ xs) (suc i) = get_elem? xs i

  abbrev pub set : List A → ℕ → A → List A
  set [] i v = []
  set (x ∷ xs) zero v = v ∷ xs
  set (x ∷ xs) (suc i) v = x ∷ set xs i v

  -- `left` elements still to read, from index `r`; the next write is at index `w`.
  unfoldable pub compact_from : (A → Bool) → ℕ → ℕ → ℕ → List A → List A × ℕ
  compact_from keep zero r w xs = (xs, w)
  compact_from keep (suc left) r w xs = elim (get_elem? xs r) [
    | none ↦ (xs, w)
    | some x ↦
        if keep x
        then compact_from keep left (suc r) (suc w) (set xs w x)
        else compact_from keep left (suc r) w xs
  ]

  -- The slice `kept` after the loop: the first elements of the array.
  unfoldable pub compact : (A → Bool) → List A → List A
  unfolding compact_from
  compact keep xs = let (array, w) = compact_from keep (length xs) 0 0 xs in take w array

  get_elem?-append :
      (done rest : List A) (x : A) → get_elem? (done ++ x ∷ rest) (length done) ≡ some x
  get_elem?-append [] rest x = refl
  get_elem?-append (y ∷ done) rest x = get_elem?-append done rest x

  set-append :
      (done rest : List A) (y x : A) → set (done ++ y ∷ rest) (length done) x ≡ done ++ x ∷ rest
  set-append [] rest y x = refl
  set-append (z ∷ done) rest y x = ap (λ l. z ∷ l) (set-append done rest y x)

  pub take-append : (done rest : List A) → take (length done) (done ++ rest) ≡ done
  take-append [] rest = refl
  take-append (z ∷ done) rest = ap (λ l. z ∷ l) (take-append done rest)

  length-snoc : (done : List A) (x : A) → length (done ++ x ∷ []) ≡ suc (length done)
  length-snoc done x = omega (arith, length-append done (x ∷ []))

  compact_from_step :
      (keep : A → Bool) (left r w : ℕ) (xs : List A) (x : A)
      → get_elem? xs r ≡ some x
      → compact_from keep (suc left) r w xs ≡ (
          if keep x
          then compact_from keep left (suc r) (suc w) (set xs w x)
          else compact_from keep left (suc r) w xs)
  unfolding compact_from
  compact_from_step keep left r w xs x e = rw (e, compact_from)

  -- What the array holds: the elements kept, others already read, and those still to read.
  record Layout (xs done junk rest : List A) (r w : ℕ) : Type ℓ where
    array : xs ≡ (done ++ junk) ++ rest
    read : r ≡ length (done ++ junk)
    written : w ≡ length done

  Layout-skip :
      (x : A) {xs done junk rest : List A} {r w : ℕ}
      → Layout xs done junk (x ∷ rest) r w
      → Layout xs done (junk ++ x ∷ []) rest (suc r) w
  Layout-skip x {xs} {done} {junk} {rest} l = record {
    array =
        cc (l.array, append_assoc (done ++ junk) (x ∷ []) rest, append_assoc done junk (x ∷ []));
    read = cc (l.read, length-snoc (done ++ junk) x, append_assoc done junk (x ∷ []));
    written = l.written;
  }

  Layout-keep :
      (x : A) (junk : List A) {xs done rest : List A} {r w : ℕ}
      → Layout xs done junk (x ∷ rest) r w
      → (junk' : List A) × Layout (set xs w x) (done ++ x ∷ []) junk' rest (suc r) (suc w)
  Layout-keep x [] {xs} {done} {rest} {r} {w} l = (
    [],
    record {
      array = cc (
        l.array,
        l.written,
        append-nil done,
        append-nil (done ++ x ∷ []),
        set-append done rest x x,
        append_assoc done (x ∷ []) rest,
      );
      read = omega (
        arith,
        l.read,
        ap length (append-nil done),
        ap length (append-nil (done ++ x ∷ [])),
        length-snoc done x,
      );
      written = omega (arith, l.written, length-snoc done x);
    },
  )
  Layout-keep x (j ∷ js) {xs} {done} {rest} {r} {w} l = (
    js ++ x ∷ [],
    record {
      array = cc (
        l.array,
        l.written,
        append_assoc done (j ∷ js) (x ∷ rest),
        set-append done (js ++ x ∷ rest) j x,
        append_assoc (done ++ x ∷ []) (js ++ x ∷ []) rest,
        append_assoc done (x ∷ []) ((js ++ x ∷ []) ++ rest),
        append_assoc js (x ∷ []) rest,
      );
      read = omega (
        arith,
        l.read,
        length-append done (j ∷ js),
        length-append (done ++ x ∷ []) (js ++ x ∷ []),
        length-snoc done x,
        length-snoc js x,
      );
      written = omega (arith, l.written, length-snoc done x);
    },
  )

  Layout-get :
      (x : A) {xs done junk rest : List A} {r w : ℕ}
      → Layout xs done junk (x ∷ rest) r w
      → get_elem? xs r ≡ some x
  Layout-get x {done = done} {junk = junk} {rest = rest} l =
      cc (l.array, l.read, get_elem?-append (done ++ junk) rest x)

  compact_from_lem :
      (keep : A → Bool) (rest done junk xs : List A) (r w : ℕ)
      → Layout xs done junk rest r w
      → let (array, end) = compact_from keep (length rest) r w xs in
        take end array ≡ done ++ filter keep rest
  compact_from_lem keep [] done junk xs r w l =
      unfold compact_from in
      cc (l.array, l.written, append-nil (done ++ junk), append-nil done, take-append done junk)
  compact_from_lem keep (x ∷ rest) done junk xs r w l =
      rw (compact_from_step keep (length rest) r w xs x (Layout-get x l))
        (elim (Bool-cases (keep x)) [
          | inl kept ↦
              let (junk', l') = Layout-keep x junk l in
              rw kept (
                compact_from_lem keep rest (done ++ x ∷ []) junk' _ _ _ l'
                ∙ append_assoc done (x ∷ []) (filter keep rest))
          | inr dropped ↦
              rw dropped (compact_from_lem keep rest done (junk ++ x ∷ []) _ _ _ (Layout-skip x l))
        ])

  -- The loop in place leaves what a filter into a fresh list leaves.
  pub compact-eq-filter : (keep : A → Bool) (xs : List A) → compact keep xs ≡ filter keep xs
  unfolding compact
  compact-eq-filter keep xs =
      compact_from_lem keep xs [] [] xs 0 0 (record { array = refl; read = refl; written = refl })
