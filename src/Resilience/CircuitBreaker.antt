-- ===== src/Resilience/CircuitBreaker.antt =====
-- `CircuitBreaker` of backend/resilience/retry.py. Times are whole milliseconds of the monotonic clock.
use enterprise_fast_api_boil.Base.{
  ℕ, ◌+◌, ◌<◌, ◌≡◌, refl, Bool, true, false, Option, none, some, List, [], ◌∷◌, ◌++◌, length, ltb,
  leb, arith, if◌then◌else◌,
}
use enterprise_fast_api_boil.Base.Outcome.{ok, err, domain, plain, Error, Exec, pure, raise, ◌>>=◌}

pub record Breaker : Type 0 where
  pub failure_count : ℕ
  pub opened_at : Option ℕ

abbrev pub closed : Breaker
closed = record { failure_count = 0; opened_at = none }

-- `CircuitBreakerOpenError`
abbrev pub is_open_error : Error
is_open_error = domain (plain "Circuit breaker is open")

module _ (failure_threshold reset_timeout : ℕ) where
  -- `_is_open`: it closes the breaker when the time has passed.
  unfoldable pub is_open : ℕ → Exec Breaker Bool
  is_open now b = elim b.opened_at [
    | none ↦ (ok false, b)
    | some opened ↦ if leb (opened + reset_timeout) now then (ok false, closed) else (ok true, b)
  ]

  unfoldable pub before_call : ℕ → Exec Breaker (Unit {0})
  unfolding is_open
  before_call now = do is_it ← is_open now; if is_it then raise is_open_error else pure tt

  unfoldable pub record_success : Breaker → Breaker
  record_success b = closed

  unfoldable pub record_breaker_failure : ℕ → Breaker → Breaker
  record_breaker_failure now b = record {
    failure_count = b.failure_count + 1;
    opened_at = if leb failure_threshold (b.failure_count + 1) then some now else b.opened_at;
  }

  abbrev pub failures : List ℕ → Breaker → Breaker
  failures [] b = b
  failures (now ∷ times) b = failures times (record_breaker_failure now b)

  failures-count :
      (times : List ℕ) (b : Breaker)
      → (failures times b).failure_count ≡ b.failure_count + length times
  unfolding record_breaker_failure
  failures-count [] b = omega arith
  failures-count (now ∷ times) b =
      omega (arith, failures-count times (record_breaker_failure now b))

  failures-few :
      (times : List ℕ) (b : Breaker)
      → b.opened_at ≡ none
      → b.failure_count + length times < failure_threshold
      → (failures times b).opened_at ≡ none
  unfolding record_breaker_failure
  failures-few [] b shut few = shut
  failures-few (now ∷ times) b shut few =
      failures-few times (record_breaker_failure now b) (ground arith) (ground arith)

  failures-snoc :
      (times : List ℕ) (t : ℕ) (b : Breaker)
      → failures (times ++ t ∷ []) b ≡ record_breaker_failure t (failures times b)
  failures-snoc [] t b = refl
  failures-snoc (now ∷ times) t b = failures-snoc times t (record_breaker_failure now b)

  -- After a success, failures of which there are fewer than the threshold let every call through and
  -- keep the count. With one more at time `t`, that reaches the threshold, calls are refused until
  -- the timeout has passed since `t`, and the first one after it finds the breaker as new.
  pub breaker_opens :
      (times : List ℕ) (t now : ℕ) (b : Breaker)
      → length times + 1 ≡ failure_threshold
      → let few = failures times (record_success b) in
        let opened = failures (times ++ t ∷ []) (record_success b) in
        (before_call now few ≡ (ok tt, few))
        × (few.failure_count ≡ length times)
        × (before_call now opened ≡ (
            if ltb now (t + reset_timeout) then (err is_open_error, opened) else (ok tt, closed)))
  unfolding before_call is_open record_breaker_failure record_success
  breaker_opens times t now b reaches =
      let counted = failures-count times closed in
      let shut = failures-few times closed refl (omega arith) in
      (ground arith, omega arith, rw (failures-snoc times t closed) (ground arith))
