-- ===== src/Result.antt =====
-- Errors as values: the error values of internal/domain/event.go, and the others that a call can
-- return, without their texts. `fmt.Errorf("...: %w", err)` keeps the error that it wraps.
use mathlib.Core.Path.{◌≡◌, refl}
use mathlib.Core.Logic.{◌⊎◌, inl, inr}

pub data Error : Type 0 where
  -- domain.ErrConflict, domain.ErrNotFound, domain.ErrVersionMismatch
  conflict not_found version_mismatch : Error
  -- an error of json.Unmarshal, of the database driver, of a parameter's syntax
  decode_failed db_failed bad_syntax : Error

pub data Result {ℓ} (A : Type ℓ) : Type ℓ where
  ok : A → Result A
  err : Error → Result A

infixl 5 ◌>>=◌
-- `if err != nil { return err }` after a call.
abbrev pub ◌>>=◌ {ℓ κ} : {A : Type ℓ} {B : Type κ} → Result A → (A → Result B) → Result B
ok x >>= next = next x
err e >>= next = err e

pub >>=-assoc {ℓ κ μ} :
    {A : Type ℓ} {B : Type κ} {C : Type μ} (m : Result A) (f : A → Result B) (g : B → Result C)
    → (m >>= f >>= g) ≡ (m >>= λ a. f a >>= g)
>>=-assoc (ok a) f g = refl
>>=-assoc (err e) f g = refl

pub Result-cases {ℓ} :
    {A : Type ℓ} (r : Result A) → ((a : A) × (r ≡ ok a)) ⊎ ((e : Error) × (r ≡ err e))
Result-cases (ok a) = inl (a, refl)
Result-cases (err e) = inr (e, refl)
