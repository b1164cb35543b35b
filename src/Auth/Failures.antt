-- ===== src/Auth/Failures.antt =====
-- A sign-in that fails, in the database session of its request: backend/app/api/v1/auth/router.py,
-- backend/domain/users/service.py and backend/database/session.py.
use enterprise_fast_api_boil.Base.{ℕ, String, ◌≡◌, refl, Bool, false, [], ◌∷◌, ◌++◌, select}
use enterprise_fast_api_boil.Base.Outcome.{err, http, to_http_exception}
use enterprise_fast_api_boil.Database.{User}
use enterprise_fast_api_boil.Users.{
  has_email, is_locked, get_by_email, authenticate, update_user, record_failure,
}
use enterprise_fast_api_boil.Tokens.Redis.{Redis}
use enterprise_fast_api_boil.Auth.{Auth, Limits, login}
use enterprise_fast_api_boil.Auth.Routes.{login_handler, with_db}

module _ (R : Redis) (uuid : ℕ → String) (limits : Limits) (normalize : String → String)
    (verify_password : String → String → Bool) (username password : String) (a : Auth R)
    (account : User)
    (found : select (has_email (normalize username)) a.server.work.users ≡ account ∷ [])
    (free : is_locked a.tokens.now account ≡ false)
    (wrong : verify_password password account.hashed_password ≡ false) where
  -- A wrong password for an open account is answered with 401 and logged, and although the request
  -- ends with an error, for which its session is rolled back, the failed attempt stays counted.
  pub failed_login_counts :
      ((with_db R (login_handler R uuid limits normalize verify_password username password) a).0
        ≡ err (http 401 "Incorrect email or password"))
      × ((with_db R
            (login_handler R uuid limits normalize verify_password username password)
            a).1.server.durable.users
          ≡ update_user account.id (record_failure a.tokens.now) a.server.work.users)
      × ((with_db R
            (login_handler R uuid limits normalize verify_password username password)
            a).1.server.work.users
          ≡ update_user account.id (record_failure a.tokens.now) a.server.work.users)
      × ((with_db R
            (login_handler R uuid limits normalize verify_password username password)
            a).1.server.audit
          ≡ a.server.audit ++ ("auth.login_failed" ∷ []))
  unfolding with_db login_handler login authenticate get_by_email to_http_exception
  failed_login_counts = (
    rw (found, free, wrong) refl,
    rw (found, free, wrong) refl,
    rw (found, free, wrong) refl,
    rw (found, free, wrong) refl,
  )
