-- ===== src/Auth/Routes.antt =====
-- The handlers of backend/app/api/v1/auth/router.py, with the limiter in front of them and the request's
-- database session around them. `normalize` is `strip().lower()`; `clock` is the time of the limiter
-- in microseconds.
use enterprise_fast_api_boil.Base.{ℕ, ◌*◌, String, Bool}
use enterprise_fast_api_boil.Base.Outcome.{
  Error, http, domain, Outcome, ok, err, Exec, pure, raise, as_http, ◌>>=◌, ◌>>◌,
}
use enterprise_fast_api_boil.Server.{close_session, log}
use enterprise_fast_api_boil.Users.Public.{UserOut, to_public}
use enterprise_fast_api_boil.Resilience.RateLimit.Guard.{
  Guarded, on_inner, limited, too_many_requests,
}
use enterprise_fast_api_boil.Rbac.Queries.{Actor}
use enterprise_fast_api_boil.Tokens.Redis.{Redis}
use enterprise_fast_api_boil.Auth.{
  Auth, Limits, TokenPair, on_server, login, refresh, request_password_reset,
  request_email_verification, confirm_email_verification, confirm_password_reset,
}

abbrev pub login_attempts_per_minute : ℕ
login_attempts_per_minute = 10

abbrev pub auth_write_rate_limit : ℕ
auth_write_rate_limit = 5

abbrev pub too_many_logins : Error
too_many_logins = http 401 "Too many login attempts, try again shortly"

module _ (R : Redis) where
  -- `get_db` around a handler: commit when it returns, roll back when it raises.
  unfoldable pub with_db : {A : Type 0} → Exec (Auth R) A → Exec (Auth R) A
  with_db handler a =
      let (r, a') = handler a in
      let (r', s) = close_session r a'.server in (r', record a' { server = s })

  module _ {A : Type 0} where
    -- `except DomainError`: the failure is logged, and becomes an HTTP error.
    abbrev pub log_failure : String → Outcome A → Exec (Auth R) A
    log_failure action (ok a) = pure a
    log_failure action (err (domain e)) = do
      on_server R (log action)
      (λ a. (as_http (err (domain e)), a))
    log_failure action (err e) = raise e

    -- A use case, with the log entries for its success and its failure.
    abbrev pub logged : String → String → Exec (Auth R) A → Exec (Auth R) A
    logged success failure use_case a =
        let (r, a') = (do out ← use_case; on_server R (log success); pure out) a in
        log_failure failure r a'

  module _ (uuid : ℕ → String) (limits : Limits) (normalize : String → String) where
    -- POST /auth/login, behind its limits
    unfoldable pub login_handler :
        (String → String → Bool) → String → String → Exec (Auth R) TokenPair
    unfolding login
    login_handler verify_password username password =
        logged "auth.login" "auth.login_failed"
          (login R uuid limits verify_password normalize username password)

    -- POST /auth/login
    unfoldable pub login_route :
        (String → String → Bool) → ℕ → String → String → String → Exec (Guarded (Auth R)) TokenPair
    unfolding limited login_handler with_db
    login_route verify_password clock client_ip username password = do
      limited clock (normalize username, "auth:login:account") login_attempts_per_minute
          too_many_logins
      limited clock (client_ip, "auth:login:ip") (login_attempts_per_minute * 3) too_many_logins
      on_inner (with_db (login_handler verify_password username password))

    -- POST /auth/refresh
    unfoldable pub refresh_route : String → Exec (Auth R) TokenPair
    unfolding refresh with_db
    refresh_route token =
        with_db (logged "auth.refresh" "auth.refresh_failed" (refresh R uuid limits token))

    -- The limits in front of the two requests for a token.
    abbrev pub limit_writes :
        ℕ → String → String → String → String → Exec (Guarded (Auth R)) (Unit {0})
    limit_writes clock client_ip email email_path ip_path = do
      limited clock (normalize email, email_path) auth_write_rate_limit too_many_requests
      limited clock (client_ip, ip_path) (auth_write_rate_limit * 2) too_many_requests

    -- POST /auth/email-verification/request
    unfoldable pub request_email_verification_route :
        ℕ → String → String → Exec (Guarded (Auth R)) (Unit {0})
    unfolding limited request_email_verification with_db
    request_email_verification_route clock client_ip email = do
      limit_writes clock client_ip email "auth:email-verification:email"
          "auth:email-verification:ip"
      on_inner (with_db (request_email_verification R uuid limits email))

    -- POST /auth/password-reset/request
    unfoldable pub request_password_reset_route :
        ℕ → String → String → Exec (Guarded (Auth R)) (Unit {0})
    unfolding limited request_password_reset with_db
    request_password_reset_route clock client_ip email = do
      limit_writes clock client_ip email "auth:password-reset:email" "auth:password-reset:ip"
      on_inner (with_db (request_password_reset R uuid limits email))

    -- POST /auth/email-verification/confirm
    unfoldable pub confirm_email_verification_route : String → Exec (Auth R) (Unit {0})
    unfolding confirm_email_verification with_db
    confirm_email_verification_route token =
        with_db
          (λ a. let (r, a') = confirm_email_verification R uuid limits token a in (as_http r, a'))

    -- POST /auth/password-reset/confirm
    unfoldable pub confirm_password_reset_route :
        (String → String) → String → String → Exec (Auth R) (Unit {0})
    unfolding confirm_password_reset with_db
    confirm_password_reset_route hash_password token new_password = with_db (λ a.
        let (r, a') = confirm_password_reset R uuid limits hash_password token new_password a in
        (as_http r, a'))

-- GET /auth/me
abbrev pub read_me : Actor → UserOut
read_me actor = to_public actor.user
