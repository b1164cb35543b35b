-- ===== src/Users/Lockout.antt =====
-- Account lockout in `UserService.authenticate` (backend/domain/users/service.py).
use enterprise_fast_api_boil.Base.{
  ℕ, ◌+◌, ◌≤◌, ◌<◌, String, ◌≡◌, refl, ap, Bool, true, false, Option, none, some, List, [], ◌∷◌,
  ◌++◌, arith, length, select, All,
}
use enterprise_fast_api_boil.Base.Outcome.{Outcome, ok}
use enterprise_fast_api_boil.Database.{User}
use enterprise_fast_api_boil.Server.{Server}
use enterprise_fast_api_boil.Users.{
  has_email, authenticate, update_user, record_failure, record_login, lock_seconds,
}
use enterprise_fast_api_boil.Users.Rows.{select-update_one}

module _ (verify_password : String → String → Bool) (email : String) where
  abbrev pub Only : User → Server → Type 0
  Only u s = select (has_email email) s.work.users ≡ u ∷ []

  -- The server after a row of attempts to sign in, each with its time and its password.
  pub attempts : List (ℕ × String) → Server → Server
  attempts [] s = s
  attempts ((now, password) ∷ rest) s =
      attempts rest (authenticate verify_password now email password s).1

  pub attempts-append :
      (xs ys : List (ℕ × String)) (s : Server) → attempts (xs ++ ys) s ≡ attempts ys (attempts xs s)
  unfolding attempts
  attempts-append [] ys s = refl
  attempts-append ((now, password) ∷ xs) ys s =
      attempts-append xs ys (authenticate verify_password now email password s).1

  -- While the account is locked every password is refused, and nothing changes.
  pub authenticate_locked :
      (now : ℕ) (password : String) (u : User) (t : ℕ) (s : Server)
      → Only u s
      → u.locked_until ≡ some t
      → now < t
      → authenticate verify_password now email password s ≡ (ok none, s)
  unfolding authenticate
  authenticate_locked now password u t s only locked early = rw (only, locked) (ground arith)

  authenticate_wrong :
      (now : ℕ) (password : String) (u : User) (s : Server)
      → Only u s
      → u.locked_until ≡ none
      → verify_password password u.hashed_password ≡ false
      → Only (record_failure now u) (authenticate verify_password now email password s).1
  unfolding authenticate
  authenticate_wrong now password u s only unlocked wrong = ground (arith, saved only)
    where
      saved :
          Only u s
          → select (has_email email) (update_user u.id (record_failure now) s.work.users)
            ≡ record_failure now u ∷ []
      saved =
          select-update_one (has_email email) u.id (record_failure now) s.work.users u (λ v e. refl)
            refl

  authenticate_right :
      (now : ℕ) (password : String) (u : User) (s : Server)
      → Only u s
      → u.locked_until ≡ none
      → verify_password password u.hashed_password ≡ true
      → ((authenticate verify_password now email password s).0 ≡ ok (some (record_login u)))
        × Only (record_login u) (authenticate verify_password now email password s).1
  unfolding authenticate
  authenticate_right now password u s only unlocked right = ground (arith, saved only)
    where
      saved :
          Only u s
          → select (has_email email) (update_user u.id record_login s.work.users)
            ≡ record_login u ∷ []
      saved =
          select-update_one (has_email email) u.id record_login s.work.users u (λ v e. refl) refl

  -- Fewer than five wrong passwords leave the account open, with each of them counted.
  abbrev Wrong : String → List (ℕ × String) → Type 0
  Wrong hash = All (λ g. verify_password g.1 hash ≡ false)

  attempts_below :
      (guesses : List (ℕ × String)) (u : User) (s : Server)
      → Only u s
      → u.locked_until ≡ none
      → u.failed_login_attempts + length guesses ≤ 4
      → Wrong u.hashed_password guesses
      → (v : User) × Only v (attempts guesses s)
        × (v.locked_until ≡ none)
        × (v.failed_login_attempts ≡ u.failed_login_attempts + length guesses)
        × (v.hashed_password ≡ u.hashed_password)
  unfolding attempts
  attempts_below [] u s only unlocked few wrong = (u, only, unlocked, omega arith, refl)
  attempts_below ((now, password) ∷ rest) u s only unlocked few (w, ws) =
      let (v, only', unlocked', n, same) =
        attempts_below rest (record_failure now u)
          (authenticate verify_password now email password s).1
          (authenticate_wrong now password u s only unlocked w) (ground arith) (omega arith) ws in
      (v, only', unlocked', omega arith, same)

  attempts_locked :
      (later : List (ℕ × String)) (u : User) (t : ℕ) (s : Server)
      → Only u s
      → u.locked_until ≡ some t
      → All (λ g. g.0 < t) later
      → attempts later s ≡ s
  unfolding attempts
  attempts_locked [] u t s only locked early = refl
  attempts_locked ((now, password) ∷ rest) u t s only locked (e, es) =
      rw (authenticate_locked now password u t s only locked e)
        (attempts_locked rest u t s only locked es)

  -- The account's row after four wrong passwords and a fifth.
  locked_row :
      (guesses : List (ℕ × String)) (now : ℕ) (password : String) (u : User) (s : Server)
      → Only u s
      → u.locked_until ≡ none
      → u.failed_login_attempts ≡ 0
      → length guesses ≡ 4
      → Wrong u.hashed_password guesses
      → verify_password password u.hashed_password ≡ false
      → (v : User) × Only v (authenticate verify_password now email password (attempts guesses s)).1
        × (v.locked_until ≡ some (now + lock_seconds))
        × (v.failed_login_attempts ≡ 5)
  locked_row guesses now password u s only unlocked fresh four wrong fifth =
      let (v, only', unlocked', n, same) =
        attempts_below guesses u s only unlocked (omega arith) wrong in
      (
        record_failure now v,
        authenticate_wrong now password v (attempts guesses s) only' unlocked' (rw same fifth),
        ground arith,
        omega arith,
      )

  -- The account is found by its address, is not locked and has no failures. After four wrong
  -- passwords and a fifth at time `now`, whatever is tried before `now` plus fifteen minutes is
  -- refused, the right password too, and changes nothing on the server.
  pub five_failures_lock :
      (guesses later : List (ℕ × String)) (now time : ℕ) (password word : String) (u : User)
      (s : Server)
      → Only u s
      → u.locked_until ≡ none
      → u.failed_login_attempts ≡ 0
      → length guesses ≡ 4
      → Wrong u.hashed_password guesses
      → verify_password password u.hashed_password ≡ false
      → All (λ g. g.0 < now + lock_seconds) later
      → time < now + lock_seconds
      → (attempts (guesses ++ (now, password) ∷ later) s
          ≡ attempts (guesses ++ (now, password) ∷ []) s)
        × ((authenticate verify_password time email word
              (attempts (guesses ++ (now, password) ∷ later) s)).0
            ≡ ok none)
  unfolding attempts
  five_failures_lock guesses later now time password word u s only unlocked fresh four wrong fifth
        early soon =
      let (v, only', locked, _) =
        locked_row guesses now password u s only unlocked fresh four wrong fifth in
      let s' = (authenticate verify_password now email password (attempts guesses s)).1 in
      let still : attempts later s' ≡ s' =
        attempts_locked later v (now + lock_seconds) s' only' locked early in
      rw (attempts-append, attempts-append)
        (
          still,
          rw still (
              ap (λ (r : Outcome (Option User) × Server). r.0)
                (authenticate_locked time word v (now + lock_seconds) s' only' locked soon)),
        )

  -- The account is found by its address, is not locked and has no failures. After at most four
  -- wrong passwords the right one signs in, and the count of failures is back at zero.
  pub four_failures_open :
      (guesses : List (ℕ × String)) (now : ℕ) (password : String) (u : User) (s : Server)
      → Only u s
      → u.locked_until ≡ none
      → u.failed_login_attempts ≡ 0
      → length guesses ≤ 4
      → Wrong u.hashed_password guesses
      → verify_password password u.hashed_password ≡ true
      → (v : User) × ((authenticate verify_password now email password (attempts guesses s)).0
          ≡ ok (some v))
        × Only v (attempts (guesses ++ (now, password) ∷ []) s)
        × (v.failed_login_attempts ≡ 0)
        × (v.locked_until ≡ none)
  unfolding attempts
  four_failures_open guesses now password u s only unlocked fresh few wrong right =
      let (v, only', unlocked', _, same) =
        attempts_below guesses u s only unlocked (omega arith) wrong in
      let (answer, saved) =
        authenticate_right now password v (attempts guesses s) only' unlocked' (rw same right) in
      (record_login v, answer, rw attempts-append saved, refl, refl)
