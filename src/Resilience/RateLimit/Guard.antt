-- ===== src/Resilience/RateLimit/Guard.antt =====
-- A handler behind the rate limiter of its module: WRITE_RATE_LIMITER and IDEMPOTENCY_STORE of
-- backend/app/api/v1/users/router.py, `_login_rate_limiter` of backend/app/api/v1/auth/router.py.
use enterprise_fast_api_boil.Base.{ℕ, Bool, not, ◌≡◌, ◌⊎◌, inl, inr, refl, Bool-cases}
use enterprise_fast_api_boil.Base.Outcome.{Error, http, ok, err, Exec, ◌>>=◌, raise_if}
use enterprise_fast_api_boil.Resilience.RateLimit.{Requests, ClientPath, allow_request}

pub record Guarded (S : Type 0) : Type 0 where
  pub inner : S
  pub requests : Requests

module _ {S : Type 0} where
  abbrev pub on_inner : {A : Type 0} → Exec S A → Exec (Guarded S) A
  on_inner m g = let (r, s) = m g.inner in (r, record g { inner = s })

  -- `allow_request`, at a time in microseconds
  unfoldable pub allowed : ℕ → ClientPath → ℕ → Exec (Guarded S) Bool
  unfolding allow_request
  allowed now key limit g =
      let (answer, requests) = allow_request now key limit g.requests in
      (ok answer, record g { requests = requests })

  -- The check of one limit, and what is raised above it.
  unfoldable pub limited : ℕ → ClientPath → ℕ → Error → Exec (Guarded S) (Unit {0})
  unfolding allowed
  limited now key limit error = do answer ← allowed now key limit; raise_if (not answer) error

  -- A limit lets a request pass or refuses it, and in either case leaves the rest alone.
  pub limited_lem :
      (now : ℕ) (key : ClientPath) (limit : ℕ) (error : Error) (g : Guarded S)
      → (((limited now key limit error g).0 ≡ ok tt)
          ⊎ ((limited now key limit error g).0 ≡ err error))
        × ((limited now key limit error g).1.inner ≡ g.inner)
  unfolding limited allowed
  limited_lem now key limit error g = elim (Bool-cases (allow_request now key limit g.requests).0) [
    | inl h ↦ (inl (rw h refl), refl)
    | inr h ↦ (inr (rw h refl), refl)
  ]

abbrev pub too_many_requests : Error
too_many_requests = http 429 "Too many requests"
