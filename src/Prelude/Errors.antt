-- ===== src/Prelude/Errors.antt =====
-- Go's `(value, error)` results, and its errors with `fmt.Errorf("...: %w", err)` wrapping.
use Prim.Native.String.{String, ◌++◌ as ◌<>◌}
use mathlib.Core.Path.{◌≡◌, refl}
use mathlib.Core.Bool.{Bool}
use mathlib.Core.Logic.{◌⊎◌, inl, inr}

-- An error of code that the operator calls: its text, and what `apierrors.IsNotFound` says of it.
pub record Failure : Type 0 where
  pub message : String
  pub not_found : Bool

pub data Error : Type 0 where
  failure : Failure → Error
  plain : String → Error
  wrap : String → Error → Error

-- `err.Error()`
abbrev pub error_string : Error → String
error_string (failure f) = f.message
error_string (plain s) = s
error_string (wrap s e) = s <> (": " <> error_string e)

pub data Result {ℓ} (A : Type ℓ) : Type ℓ where
  err : Error → Result A
  ok : A → Result A

-- `fmt.Errorf("prefix: %w", err)` on the error branch.
abbrev pub wrap_error {ℓ} : {A : Type ℓ} → String → Result A → Result A
wrap_error s (ok a) = ok a
wrap_error s (err e) = err (wrap s e)

infixl 5 ◌>>=◌ ◌>>◌
-- `if err != nil { return err }` between a result and what follows it
abbrev pub ◌>>=◌ {κ μ} : {X : Type κ} {Y : Type μ} → Result X → (X → Result Y) → Result Y
err cause >>= next = err cause
ok value >>= next = next value

abbrev pub ◌>>◌ {κ} : {Y : Type κ} → Result (Unit {0}) → Result Y → Result Y
check >> next = check >>= λ _. next

pub Result-cases {ℓ} :
    {A : Type ℓ} (r : Result A) → ((a : A) × (r ≡ ok a)) ⊎ ((e : Error) × (r ≡ err e))
Result-cases (ok a) = inl (a, refl)
Result-cases (err e) = inr (e, refl)

-- Inversion of a successful chain.
pub >>=-eq-ok {ℓ κ} :
    {X : Type ℓ} {Y : Type κ} (r : Result X) (next : X → Result Y) {y : Y}
    → (r >>= next) ≡ ok y
    → (x : X) × (r ≡ ok x) × (next x ≡ ok y)
>>=-eq-ok (err cause) next end = cc
>>=-eq-ok (ok value) next end = (value, refl, end)

pub wrap_error-eq-ok {ℓ} :
    {A : Type ℓ} (s : String) (r : Result A) {a : A} → wrap_error s r ≡ ok a → r ≡ ok a
wrap_error-eq-ok s (ok b) h = h
wrap_error-eq-ok s (err e) h = cc
