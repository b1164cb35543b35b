-- ===== src/Base/Outcome.antt =====
-- Exceptions as values (backend/web/exceptions.py and the exceptions of the layers below), and
-- the state-and-exception monad in which the handlers run.
use Prim.Native.Nat.{ℕ}
use Prim.Native.String.{String}
use mathlib.Core.Bool.{Bool, true, false}
use mathlib.Core.List.{List, [], ◌∷◌}
use mathlib.Core.Option.{Option, none, some}
use mathlib.Core.Path.{◌≡◌, refl}
use native.Mathlib.Omega.{arith}
use enterprise_fast_api_boil.Base.Tests.{if◌then◌else◌}

-- The subclasses of `DomainError`, each with its message, and the plain class itself.
pub data DomainError : Type 0 where
  plain conflict duplicate not_found unauthorized forbidden validation : String → DomainError

-- What a handler may raise.
pub data Error : Type 0 where
  domain : DomainError → Error
  http : ℕ → String → Error
  rbac_permission : String → Error
  value_error : String → Error
  multiple_results : Error
  integrity : Error
  store_unavailable : Error
  attribute_error : String → Error

-- `to_http_exception`, the status code that a domain error is answered with.
unfoldable pub to_http_exception : DomainError → ℕ
to_http_exception (not_found _) = 404
to_http_exception (unauthorized _) = 401
to_http_exception (forbidden _) = 403
to_http_exception (conflict _) = 409
to_http_exception (duplicate _) = 409
to_http_exception (validation _) = 422
to_http_exception (plain _) = 400

-- `str(exc)`
abbrev pub message : DomainError → String
message (not_found m) = m
message (unauthorized m) = m
message (forbidden m) = m
message (conflict m) = m
message (duplicate m) = m
message (validation m) = m
message (plain m) = m

pub data Outcome {ℓ} (A : Type ℓ) : Type ℓ where
  ok : A → Outcome A
  err : Error → Outcome A

-- It returned, and did not raise.
abbrev pub is_ok {ℓ} : {A : Type ℓ} → Outcome A → Bool
is_ok (ok _) = true
is_ok (err _) = false

-- `except DomainError as exc: raise to_http_exception(exc) from exc`
abbrev pub as_http {ℓ} : {A : Type ℓ} → Outcome A → Outcome A
as_http (err (domain e)) = err (http (to_http_exception e) (message e))
as_http r = r

-- An awaited call: it may change the state, also before it raises.
abbrev pub Exec {ℓ} : Type ℓ → Type ℓ → Type ℓ
Exec S A = S → Outcome A × S

module _ {ℓ} {S A : Type ℓ} where
  abbrev pub pure : A → Exec S A
  pure a s = (ok a, s)

  abbrev pub raise : Error → Exec S A
  raise e s = (err e, s)

  abbrev pub lift : Outcome A → Exec S A
  lift r s = (r, s)

  abbrev pub gets : (S → A) → Exec S A
  gets f s = (ok (f s), s)

module _ {ℓ} {S A B : Type ℓ} where
  abbrev pub continue : Outcome A → (A → Exec S B) → Exec S B
  continue (ok a) f s = f a s
  continue (err e) f s = (err e, s)

infixl 5 ◌>>=◌ ◌>>◌
abbrev pub ◌>>=◌ {ℓ} : {S A B : Type ℓ} → Exec S A → (A → Exec S B) → Exec S B
◌>>=◌ m f s = let (r, s') = m s in continue r f s'

abbrev pub ◌>>◌ {ℓ} : {S A B : Type ℓ} → Exec S A → Exec S B → Exec S B
m >> k = m >>= λ _. k

module _ {S A B : Type 0} where
  -- Inversion of a call that returned, for proofs in which its parts stay shut.
  pub continue-ok :
      (r : Outcome A) (f : A → Exec S B) (s : S) {b : B}
      → (continue r f s).0 ≡ ok b
      → (a : A) × (r ≡ ok a) × ((f a s).0 ≡ ok b) × (continue r f s ≡ f a s)
  continue-ok (ok a) f s h = (a, refl, h, refl)
  continue-ok (err e) f s h = absurd (ground arith)

module _ {S A B : Type 0} where
  -- Two continuations that agree on what the call returned.
  pub continue-cong :
      (r : Outcome A) (f g : A → Exec S B) (s : S)
      → ((a : A) → f a s ≡ g a s)
      → continue r f s ≡ continue r g s
  continue-cong (ok a) f g s h = h a
  continue-cong (err e) f g s h = refl

module _ {S A B C : Type 0} where
  -- The sequence of three calls, grouped either way.
  pub continue_assoc :
      (r : Outcome A) (f : A → Exec S B) (g : B → Exec S C) (s : S)
      → continue r (λ a. f a >>= g) s ≡ continue (continue r f s).0 g (continue r f s).1
  continue_assoc (ok a) f g s = refl
  continue_assoc (err e) f g s = refl

-- The same for queries, which change nothing.
abbrev pub and_then {ℓ} : {A B : Type ℓ} → Outcome A → (A → Outcome B) → Outcome B
and_then (ok a) f = f a
and_then (err e) f = err e

module _ {S : Type 0} where
  abbrev pub modify : (S → S) → Exec S (Unit {0})
  modify f s = (ok tt, f s)

  -- `if c: raise e`
  abbrev pub raise_if : Bool → Error → Exec S (Unit {0})
  raise_if c e s = (if c then err e else ok tt, s)

module _ {A : Type 0} where
  -- `result.scalar_one_or_none()`: more than one row is an error of its own.
  abbrev pub scalar_one_or_none : List A → Outcome (Option A)
  scalar_one_or_none [] = ok none
  scalar_one_or_none (x ∷ []) = ok (some x)
  scalar_one_or_none (x ∷ y ∷ rest) = err multiple_results

  abbrev pub or_raise : {S : Type 0} → Option A → Error → Exec S A
  or_raise none e = raise e
  or_raise (some a) _ = pure a
