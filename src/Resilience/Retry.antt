-- ===== src/Resilience/Retry.antt =====
-- `retry_async` and `retry` of backend/resilience/retry.py, which differ in how they wait. The function
-- that is called may change a state and fail; times are whole milliseconds and the factor of the
-- backoff is a whole number. The pauses are the last part of the answer.
use enterprise_fast_api_boil.Base.{
  ℕ, zero, suc, ◌*◌, ◌≤◌, ◌≡◌, refl, ◌⊎◌, inl, inr, ap, sym, List, [], ◌∷◌, arith,
}
use enterprise_fast_api_boil.Base.Outcome.{Error, Outcome, ok, err, Exec}

-- The pauses between that many failed calls.
abbrev pub pauses_of : ℕ → ℕ → ℕ → List ℕ
pauses_of backoff zero delay = []
pauses_of backoff (suc n) delay = delay ∷ pauses_of backoff n (delay * backoff)

module _ {S A : Type 0} where
  -- The rest of a turn: after an error there is a pause, and another turn.
  abbrev pub retry_after : ℕ → Outcome A × S → (S → Outcome A × S × List ℕ) → Outcome A × S × List ℕ
  retry_after delay (ok a, s) again = (ok a, s, [])
  retry_after delay (err e, s) again =
      let (last, end, pauses) = again s in (last, end, delay ∷ pauses)

  abbrev pub retry_loop : Exec S A → ℕ → ℕ → ℕ → S → Outcome A × S × List ℕ
  retry_loop func backoff zero delay s = let (r, s') = func s in (r, s', [])
  retry_loop func backoff (suc left) delay s =
      retry_after delay (func s) (retry_loop func backoff left (delay * backoff))

  unfoldable pub retry_async : Exec S A → ℕ → ℕ → ℕ → S → Outcome A × S × List ℕ
  retry_async func retries delay backoff = retry_loop func backoff retries delay

  -- The state after a number of calls.
  abbrev pub after_calls : Exec S A → ℕ → S → S
  after_calls func zero s = s
  after_calls func (suc n) s = after_calls func n (func s).1

  -- The first calls all fail.
  abbrev pub AllFail : Exec S A → ℕ → S → Type 0
  AllFail func zero s = Unit
  AllFail func (suc n) s = ((e : Error) × ((func s).0 ≡ err e)) × AllFail func n (func s).1

  -- How the loop can have come to its end after a number of calls that failed and one more.
  abbrev pub Retried : Exec S A → ℕ → ℕ → ℕ → S → Outcome A × S × List ℕ → Type 0
  Retried func retries delay backoff s (r, s', pauses) =
      (n : ℕ) × (n ≤ retries)
      × AllFail func n s
      × (r ≡ (func (after_calls func n s)).0)
      × (s' ≡ after_calls func (suc n) s)
      × (pauses ≡ pauses_of backoff n delay)
      × (((a : A) × (r ≡ ok a)) ⊎ (n ≡ retries))

  retry_step :
      (func : Exec S A) (left delay backoff : ℕ) (s : S) (r : Outcome A) (s' : S)
      → func s ≡ (r, s')
      → Retried func left
          (delay * backoff)
          backoff
          s'
          (retry_loop func backoff left (delay * backoff) s')
      → Retried func
          (suc left)
          delay
          backoff
          s
          (retry_after delay (r, s') (retry_loop func backoff left (delay * backoff)))
  retry_step func left delay backoff s (ok a) s' called rest = (
    0,
    omega arith,
    tt,
    rw called refl,
    ap (λ (p : Outcome A × S). p.1) (sym called),
    refl,
    inl (a, refl),
  )
  retry_step func left delay backoff s (err e) s' called (n, few, fail, answer, end, pauses, last) =
      (
        suc n,
        omega arith,
        ((e, rw called refl), rw called fail),
        rw called answer,
        rw called end,
        ap (λ ps. delay ∷ ps) pauses,
        elim last [ inl (a, found) ↦ inl (a, found) | inr all_used ↦ inr (omega arith) ],
      )

  -- Retrying makes one call after another, at most one more than the number of retries: all but the last
  -- fail, the answer and the state are those of the last, which succeeds or has used up the retries,
  -- and before each repetition there is a pause, from the delay on, each longer by the factor.
  pub retry_until_success :
      (func : Exec S A) (retries delay backoff : ℕ) (s : S)
      → Retried func retries delay backoff s (retry_async func retries delay backoff s)
  unfolding retry_async
  retry_until_success func zero delay backoff s = (0, omega arith, tt, refl, refl, refl, inr refl)
  retry_until_success func (suc left) delay backoff s =
      retry_step func left delay backoff s (func s).0 (func s).1 refl
        (retry_until_success func left (delay * backoff) backoff (func s).1)
