-- ===== src/Auth.antt =====
-- Signing in, refreshing, signing out, password reset and email verification:
-- backend/application/auth/use_cases.py, backend/app/api/v1/auth/router.py and
-- backend/core/security/dependencies.py. A JWT is its claims; encoding and checking it is the
-- library's. `normalize` is `strip().lower()`.
pub mod Sessions
pub mod Replay
pub mod Routes
pub mod Failures
pub mod Sockets
use enterprise_fast_api_boil.Base.{
  ℕ, suc, ◌+◌, ◌*◌, String, Bool, true, false, not, ◌&&◌, Option, none, some, List, [], ◌∷◌, ◌++◌,
  ltb, leb, if◌then◌else◌,
}
use enterprise_fast_api_boil.Base.Outcome.{
  Error, domain, http, unauthorized, forbidden, not_found, value_error, Outcome, ok, err, Exec,
  pure, raise, gets, modify, or_raise, ◌>>=◌, ◌>>◌,
}
use enterprise_fast_api_boil.Database.{User, Db}
use enterprise_fast_api_boil.Server.{
  Server, send_password_reset_email, send_verification_email, log_info, enqueue, log,
}
use enterprise_fast_api_boil.Users.{get_by_id, get_by_email, authenticate, mark_verified, save_user}
use enterprise_fast_api_boil.Tokens.Redis.{Redis, Value, user, used, revoked}
use enterprise_fast_api_boil.Tokens.Store.{
  Cache, not_a_number, get_entry, delete_entry, add_refresh_token, rotate_refresh_token, revoke_jti,
  is_revoked, revoke_all_for_user, revoke_all_access_tokens_for_user, track_access_token,
  add_password_reset_token, consume_password_reset_token, draw,
}

-- The claims that the rules read.
pub record Claims : Type 0 where
  pub sub : ℕ
  pub jti : String
  pub exp : ℕ

pub record TokenPair : Type 0 where
  pub access_token : Claims
  pub refresh_token : String

pub record Limits : Type 0 where
  pub access_token_expire_minutes : ℕ
  pub refresh_token_expire_days : ℕ
  pub password_reset_token_ttl_minutes : ℕ
  pub require_email_verification : Bool

abbrev pub session_prefix : String
session_prefix = "tier4:tokens"

abbrev pub revocation_prefix : String
revocation_prefix = "tier4:revocations"

abbrev pub reset_prefix : String
reset_prefix = "tier4:password-reset"

abbrev pub verification_prefix : String
verification_prefix = "tier4:email-verification"

module _ (R : Redis) where
  pub record Auth : Type 0 where
    pub server : Server
    pub tokens : Cache R

  module _ {A : Type 0} where
    abbrev pub on_server : Exec Server A → Exec Auth A
    on_server m a = let (r, s) = m a.server in (r, record a { server = s })

    abbrev pub on_tokens : Exec (Cache R) A → Exec Auth A
    on_tokens m a = let (r, c) = m a.tokens in (r, record a { tokens = c })

  module _ (uuid : ℕ → String) (limits : Limits) where
    -- `create_access_token`, and the tracking of its identifier
    abbrev pub issue_access_token : ℕ → Exec Auth Claims
    issue_access_token uid = do
      jti ← on_tokens (draw R session_prefix uuid)
      now ← gets (λ a. a.tokens.now)
      on_tokens
          (track_access_token R revocation_prefix uid jti (limits.access_token_expire_minutes * 60))
      pure (record { sub = uid; jti = jti; exp = now + limits.access_token_expire_minutes * 60 })

    abbrev pub session_ttl : ℕ
    session_ttl = limits.refresh_token_expire_days * 24 * 60 * 60

    abbrev bad_login : Error
    bad_login = domain (unauthorized "Incorrect email or password")

    abbrev pub bad_refresh : Error
    bad_refresh = domain (unauthorized "Invalid refresh token")

    -- `LoginUseCase.execute`
    unfoldable pub login :
        (String → String → Bool) → (String → String) → String → String → Exec Auth TokenPair
    login verify_password normalize username password = do
      now ← gets (λ a. a.tokens.now)
      found ← on_server (authenticate verify_password now (normalize username) password)
      account ← or_raise found bad_login
      if limits.require_email_verification && not account.is_verified
          then raise (domain (forbidden "Please verify your email before signing in"))
          else (do
            access ← issue_access_token account.id
            refresh ← on_tokens (add_refresh_token R session_prefix uuid account.id session_ttl)
            pure (record { access_token = access; refresh_token = refresh }))

    abbrev pub renew : String → ℕ → Exec Auth TokenPair
    renew token uid = do
      found ← on_server (get_by_id uid)
      account ← or_raise found (domain (not_found "user not found"))
      access ← issue_access_token account.id
      refresh ← on_tokens (rotate_refresh_token R session_prefix uuid token account.id session_ttl)
      pure (record { access_token = access; refresh_token = refresh })

    abbrev pub end_sessions : ℕ → Exec Auth (Unit {0})
    end_sessions uid = do
      on_tokens (revoke_all_for_user R session_prefix uid)
      on_tokens (revoke_all_access_tokens_for_user R revocation_prefix uid)

    abbrev pub replayed : ℕ → Exec Auth TokenPair
    replayed uid = do
      end_sessions uid
      on_server (log "security.refresh_token_replay_detected")
      raise bad_refresh

    abbrev pub refresh_value : String → Option Value → Exec Auth TokenPair
    refresh_value token none = raise bad_refresh
    refresh_value token (some (used uid)) = replayed uid
    refresh_value token (some revoked) = raise not_a_number
    refresh_value token (some (user uid)) = renew token uid

    -- `RefreshTokenUseCase.execute`
    unfoldable pub refresh : String → Exec Auth TokenPair
    refresh token = do
      stored ← on_tokens (get_entry R session_prefix token)
      refresh_value token stored

    -- POST /auth/logout, after the access token is decoded
    unfoldable pub logout : String → Claims → Exec Auth (Unit {0})
    logout refresh_token access = do
      on_tokens (delete_entry R session_prefix refresh_token)
      on_tokens (revoke_jti R revocation_prefix access.jti)
      on_server (log "auth.logout")

    -- `RequestPasswordResetUseCase.execute`: the same answer whether or not the account exists.
    unfoldable pub request_password_reset : String → Exec Auth (Unit {0})
    request_password_reset email = do
      found ← on_server (get_by_email email)
      elim found [
        | none ↦ pure tt
        | some account ↦ do
          token ← on_tokens (
              add_password_reset_token R reset_prefix uuid account.id
                (limits.password_reset_token_ttl_minutes * 60))
          on_server (enqueue (send_password_reset_email account.email token))
          on_server (enqueue (log_info "password_reset_requested"))
      ]

    -- `RequestEmailVerificationUseCase.execute`
    unfoldable pub request_email_verification : String → Exec Auth (Unit {0})
    request_email_verification email = do
      found ← on_server (get_by_email email)
      elim found [
        | none ↦ pure tt
        | some account ↦ do
          token ←
              on_tokens (add_password_reset_token R verification_prefix uuid account.id (15 * 60))
          on_server (enqueue (send_verification_email account.email token))
          on_server (enqueue (log_info "email_verification_requested"))
      ]

    -- `ConfirmEmailVerificationUseCase.execute`
    unfoldable pub confirm_email_verification : String → Exec Auth (Unit {0})
    confirm_email_verification token = do
      uid ← on_tokens (consume_password_reset_token R verification_prefix token)
      elim uid [
        | none ↦ raise (domain (unauthorized "Invalid or expired verification token"))
        | some uid ↦ do
          found ← on_server (get_by_id uid)
          account ← or_raise found (domain (not_found "user not found"))
          now ← gets (λ a. a.tokens.now)
          on_server (mark_verified now account)
      ]

    abbrev pub set_password : (String → String) → String → Option User → Exec Auth (Unit {0})
    set_password hash_password new_password none = raise (domain (not_found "user not found"))
    set_password hash_password new_password (some account) = do
      on_server
          (save_user account.id (λ u. record u { hashed_password = hash_password new_password }))
      end_sessions account.id

    -- `ConfirmPasswordResetUseCase.execute`; `hash_password` is bcrypt's.
    unfoldable pub confirm_password_reset :
        (String → String) → String → String → Exec Auth (Unit {0})
    confirm_password_reset hash_password token new_password = do
      uid ← on_tokens (consume_password_reset_token R reset_prefix token)
      elim uid [
        | none ↦ raise (domain (unauthorized "Invalid or expired reset token"))
        | some uid ↦ do
          found ← on_server (get_by_id uid)
          set_password hash_password new_password found
      ]

    -- The branch of `get_current_user` for a bearer token: `none` is a token that does not decode,
    -- `expired` is the library's check of `exp`.
    unfoldable pub current_user : Option Claims → Exec Auth User
    current_user none = raise (http 401 "Invalid token")
    current_user (some claims) = do
      now ← gets (λ a. a.tokens.now)
      if leb claims.exp now then raise (http 401 "Invalid token") else (do
        gone ← on_tokens (is_revoked R revocation_prefix claims.jti)
        if gone then raise (http 401 "Token revoked") else (do
          found ← on_server (get_by_id claims.sub)
          or_raise found (http 401 "Invalid token")))
