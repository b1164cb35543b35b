-- ===== src/Auth/Sessions.antt =====
-- The end of a session: signing out, a refresh token that is used twice and a password that is reset.
-- backend/application/auth/use_cases.py over backend/core/security/token_store.py.
use enterprise_fast_api_boil.Base.{
  ℕ, ◌+◌, ◌*◌, ◌≤◌, ◌<◌, String, ◌≡◌, ◌≢◌, refl, sym, ◌∙◌, ap, true, false, Bool-cases, inl, inr,
  eq_iff, Option, none, some, contains, leb, arith,
}
use enterprise_fast_api_boil.Base.Outcome.{
  domain, http, unauthorized, Outcome, ok, err, store_unavailable, continue,
}
use enterprise_fast_api_boil.Database.{User}
use enterprise_fast_api_boil.Users.{get_by_id, update_user}
use enterprise_fast_api_boil.Tokens.Redis.{Redis, user, revoked, EntryKey, by_user, access_by_user}
use enterprise_fast_api_boil.Tokens.Store.{
  get_entry, delete_entry, set_entry, revoke_jti, is_revoked, revoke_all_for_user,
  revoke_all_access_tokens_for_user, consume_password_reset_token,
}
use enterprise_fast_api_boil.Tokens.Revocation.{
  offline, deleted, all_revoked, delete_all_up, revoke_each_up, get-deleted, get-deleted-none,
  get-all_revoked, get-all_revoked_ne,
}
use enterprise_fast_api_boil.Auth.{
  Auth, Claims, Limits, session_prefix, revocation_prefix, reset_prefix, bad_refresh, end_sessions,
  set_password, refresh, logout, current_user, confirm_password_reset,
}

sessions_apart : revocation_prefix ≢ session_prefix
sessions_apart e = absurd (ground (arith, eq_iff revocation_prefix session_prefix))

resets_apart : reset_prefix ≢ revocation_prefix
resets_apart e = absurd (ground (arith, eq_iff reset_prefix revocation_prefix))

module _ (R : Redis) (uuid : ℕ → String) (limits : Limits) where
  -- The next request, at time `t`, with Redis answering.
  abbrev pub up_at : ℕ → Auth R → Auth R
  up_at t a = record a { tokens = record a.tokens { up = true; now = t } }

  pub refresh_gone :
      (token : String) (a : Auth R)
      → R.get a.tokens.now (session_prefix, token) a.tokens.redis ≡ none
      → (refresh R uuid limits token (up_at a.tokens.now a)).0 ≡ err (bad_refresh R uuid limits)
  unfolding refresh get_entry
  refresh_gone token a gone = rw gone refl

  pub current_user_revoked :
      (claims : Claims) (a : Auth R)
      → (a.tokens.now < claims.exp
          → R.get a.tokens.now (revocation_prefix, claims.jti) a.tokens.redis ≡ some revoked)
      → (m : String) × ((current_user R uuid limits (some claims) (up_at a.tokens.now a)).0
          ≡ err (http 401 m))
  unfolding current_user is_revoked get_entry
  current_user_revoked claims a gone = elim (Bool-cases (leb claims.exp a.tokens.now)) [
    | inl late ↦ ("Invalid token", rw late refl)
    | inr early ↦ ("Token revoked", rw (early, gone (ground arith)) refl)
  ]

  -- While Redis answers: after POST /auth/logout at time `now`, at any later time, the refresh token
  -- is refused as invalid, and so is the access token of the request with status 401, where it does
  -- not live longer than the 24 hours for which its identifier stays revoked.
  pub logout_ends_session :
      (token : String) (access : Claims) (a : Auth R) (now t : ℕ)
      → access.exp ≤ now + 24 * 60 * 60
      → now ≤ t
      → let a' = up_at t (logout R uuid limits token access (up_at now a)).1 in
        ((refresh R uuid limits token a').0 ≡ err (bad_refresh R uuid limits))
        × ((m : String) × ((current_user R uuid limits (some access) a').0 ≡ err (http 401 m)))
  unfolding logout delete_entry revoke_jti set_entry
  logout_ends_session token access a now t short later =
      let a' = up_at t (logout R uuid limits token access (up_at now a)).1 in
      let s = R.delete (session_prefix, token) a.tokens.redis in
      (
        refresh_gone token a' (
            R.get-set_ne now t (revocation_prefix, access.jti) (session_prefix, token) revoked
              (24 * 60 * 60) s (λ e. sessions_apart (ap (λ (k : EntryKey). k.0) e))
            ∙ R.get-delete_self t (session_prefix, token) a.tokens.redis),
        current_user_revoked access a' (λ live.
            R.get-set_self now t (revocation_prefix, access.jti) revoked (24 * 60 * 60) s later
              (omega arith)),
      )

  -- `end_sessions` in Redis.
  abbrev pub ended : ℕ → ℕ → R.State → R.State
  ended now uid s =
      let s' = deleted R session_prefix (R.smembers now (by_user session_prefix uid) s) s in
      all_revoked R revocation_prefix now (R.smembers now (access_by_user revocation_prefix uid) s')
        s'

  pub end_sessions_up :
      (uid now : ℕ) (a : Auth R)
      → end_sessions R uuid limits uid (up_at now a) ≡ (
        ok tt,
        record a {
          tokens = record a.tokens { redis = ended now uid a.tokens.redis; up = true; now = now };
        },
      )
  unfolding revoke_all_for_user revoke_all_access_tokens_for_user
  end_sessions_up uid now a =
      let c = record a.tokens { now = now } in
      let s =
        deleted R session_prefix (R.smembers now (by_user session_prefix uid) c.redis) c.redis in
      rw
        (
          delete_all_up R session_prefix (R.smembers now (by_user session_prefix uid) c.redis) c,
          revoke_each_up R revocation_prefix
              (R.smembers now (access_by_user revocation_prefix uid) s) (record c { redis = s }),
        )
        refl

  -- In production, when Redis does not answer, nothing is accepted: refreshing, signing out,
  -- confirming a password reset and presenting an access token that has not expired all fail with
  -- the store's own error, and change nothing.
  pub offline_refuses :
      (token password : String) (hash_password : String → String) (claims : Claims) (a : Auth R)
      → a.tokens.now < claims.exp
      → let a' = record a { tokens = offline R a.tokens } in
        (refresh R uuid limits token a' ≡ (err store_unavailable, a'))
        × (logout R uuid limits token claims a' ≡ (err store_unavailable, a'))
        × (confirm_password_reset R uuid limits hash_password token password a'
            ≡ (err store_unavailable, a'))
        × (current_user R uuid limits (some claims) a' ≡ (err store_unavailable, a'))
  unfolding refresh logout confirm_password_reset current_user consume_password_reset_token
      get_entry delete_entry is_revoked
  offline_refuses token password hash_password claims a fresh =
      let early : leb claims.exp a.tokens.now ≡ false = ground arith in
      (refl, refl, refl, rw early refl)

  -- Ending the sessions of an account touches no key of another prefix.
  ended_elsewhere :
      (uid now t : ℕ) (k : EntryKey) (s : R.State)
      → k.0 ≢ revocation_prefix
      → R.get t k s ≡ none
      → R.get t k (ended now uid s) ≡ none
  ended_elsewhere uid now t k s other gone =
      let tokens = R.smembers now (by_user session_prefix uid) s in
      let s' = deleted R session_prefix tokens s in
      get-all_revoked_ne R revocation_prefix
        (R.smembers now (access_by_user revocation_prefix uid) s') now t k s' other
      ∙ get-deleted-none R session_prefix tokens t k s gone

  set_password_elsewhere :
      (hash_password : String → String) (password : String) (found : Outcome (Option User))
      (now t : ℕ) (k : EntryKey) (a : Auth R)
      → k.0 ≢ revocation_prefix
      → R.get t k a.tokens.redis ≡ none
      → R.get t k
          (continue found
            (set_password R uuid limits hash_password password)
            (up_at now a)).1.tokens.redis
        ≡ none
  set_password_elsewhere hash_password password (err e) now t k a other gone = gone
  set_password_elsewhere hash_password password (ok none) now t k a other gone = gone
  set_password_elsewhere hash_password password (ok (some account)) now t k a other gone =
      let users =
        update_user account.id (λ u. record u { hashed_password = hash_password password })
          a.server.work.users in
      rw
        (end_sessions_up account.id now
          (record a { server = record a.server { work = record a.server.work { users = users } } }))
        (ended_elsewhere account.id now t k a.tokens.redis other gone)

  reset_gone :
      (hash_password : String → String) (token password : String) (a : Auth R)
      → R.get a.tokens.now (reset_prefix, token) a.tokens.redis ≡ none
      → (confirm_password_reset R uuid limits hash_password token password (up_at a.tokens.now a)).0
        ≡ err (domain (unauthorized "Invalid or expired reset token"))
  unfolding confirm_password_reset consume_password_reset_token get_entry
  reset_gone hash_password token password a gone = rw gone refl

  reset_uses_token :
      (hash_password : String → String) (token password : String) (uid now t : ℕ) (a : Auth R)
      → R.get now (reset_prefix, token) a.tokens.redis ≡ some (user uid)
      → R.get t
          (reset_prefix, token)
          (confirm_password_reset R uuid limits hash_password token password
            (up_at now a)).1.tokens.redis
        ≡ none
  unfolding confirm_password_reset consume_password_reset_token get_entry delete_entry
  reset_uses_token hash_password token password uid now t a stored =
      let (found, server) = get_by_id uid a.server in
      let left = record a.tokens { redis = R.delete (reset_prefix, token) a.tokens.redis } in
      rw stored (
        set_password_elsewhere hash_password password found now t (reset_prefix, token)
          (record a { server = server; tokens = left }) resets_apart
          (R.get-delete_self t (reset_prefix, token) a.tokens.redis))

  -- A password reset token works once: while Redis answers and the token is stored for an account,
  -- the token is refused as invalid at any time after it was presented, whatever came of that.
  pub reset_token_single_use :
      (hash_password : String → String) (token first second : String) (uid now t : ℕ) (a : Auth R)
      → R.get now (reset_prefix, token) a.tokens.redis ≡ some (user uid)
      → (confirm_password_reset R uuid limits hash_password token second (
          up_at t
            (confirm_password_reset R uuid limits hash_password token first (up_at now a)).1)).0
        ≡ err (domain (unauthorized "Invalid or expired reset token"))
  reset_token_single_use hash_password token first second uid now t a stored =
      reset_gone hash_password token second
        (up_at t (confirm_password_reset R uuid limits hash_password token first (up_at now a)).1)
        (reset_uses_token hash_password token first uid now t a stored)

  abbrev reset_done : (String → String) → String → String → ℕ → ℕ → Auth R → Auth R
  reset_done hash_password token password now uid a = record a {
    server = record a.server {
      work = record a.server.work {
        users =
            update_user uid (λ u. record u { hashed_password = hash_password password })
              a.server.work.users;
      };
    };
    tokens = record a.tokens {
      redis = ended now uid (R.delete (reset_prefix, token) a.tokens.redis);
      up = true;
      now = now;
    };
  }

  confirm_up :
      (hash_password : String → String) (token password : String) (now : ℕ) (account : User)
      (a : Auth R)
      → R.get now (reset_prefix, token) a.tokens.redis ≡ some (user account.id)
      → (get_by_id account.id a.server).0 ≡ ok (some account)
      → confirm_password_reset R uuid limits hash_password token password (up_at now a)
        ≡ (ok tt, reset_done hash_password token password now account.id a)
  unfolding confirm_password_reset consume_password_reset_token get_entry delete_entry get_by_id
  confirm_up hash_password token password now account a stored found =
      let users =
        update_user account.id (λ u. record u { hashed_password = hash_password password })
          a.server.work.users in
      rw (stored, found)
        (end_sessions_up account.id now (record a {
          server = record a.server { work = record a.server.work { users = users } };
          tokens = record a.tokens { redis = R.delete (reset_prefix, token) a.tokens.redis };
        }))

  -- What ending the sessions of an account does to its tokens.
  pub ended_tracked :
      (uid now t : ℕ) (tracked : String) (s : R.State)
      → contains tracked (R.smembers now (by_user session_prefix uid) s) ≡ true
      → R.get t (session_prefix, tracked) (ended now uid s) ≡ none
  ended_tracked uid now t tracked s member =
      let tokens = R.smembers now (by_user session_prefix uid) s in
      let s' = deleted R session_prefix tokens s in
      get-all_revoked_ne R revocation_prefix
        (R.smembers now (access_by_user revocation_prefix uid) s') now t (session_prefix, tracked)
        s' (λ e. sessions_apart (sym e))
      ∙ get-deleted R session_prefix tokens t tracked s member

  -- A password that is reset ends the sessions: while Redis answers, the reset token is stored for an
  -- account and the account's row is found, the request succeeds and the account has the new password.
  -- In the 24 hours after it, a refresh token that was tracked for the account is refused as invalid,
  -- and an access token whose identifier was tracked for the account is refused with status 401.
  pub password_reset_ends_sessions :
      (hash_password : String → String) (token password : String) (now t : ℕ) (account : User)
      (tracked : String) (claims : Claims) (a : Auth R)
      → let left = R.delete (reset_prefix, token) a.tokens.redis in
        let sessions = R.smembers now (by_user session_prefix account.id) left in
        R.get now (reset_prefix, token) a.tokens.redis ≡ some (user account.id)
        → (get_by_id account.id a.server).0 ≡ ok (some account)
        → now ≤ t
        → t < now + 24 * 60 * 60
        → contains tracked sessions ≡ true
        → contains claims.jti (
            R.smembers now
              (access_by_user revocation_prefix account.id)
              (deleted R session_prefix sessions left))
          ≡ true
        → let (r, a') =
            confirm_password_reset R uuid limits hash_password token password (up_at now a) in
          (r ≡ ok tt)
          × (a'.server.work.users
              ≡ update_user account.id
                  (λ u. record u { hashed_password = hash_password password })
                  a.server.work.users)
          × ((refresh R uuid limits tracked (up_at t a')).0 ≡ err (bad_refresh R uuid limits))
          × ((m : String) × ((current_user R uuid limits (some claims) (up_at t a')).0
                ≡ err (http 401 m)))
  password_reset_ends_sessions hash_password token password now t account tracked claims a stored
        found later live member held =
      let a' = up_at t (reset_done hash_password token password now account.id a) in
      let s = R.delete (reset_prefix, token) a.tokens.redis in
      let s' = deleted R session_prefix (R.smembers now (by_user session_prefix account.id) s) s in
      let jtis = R.smembers now (access_by_user revocation_prefix account.id) s' in
      rw (confirm_up hash_password token password now account a stored found) (
        refl,
        refl,
        refresh_gone tracked a' (ended_tracked account.id now t tracked s member),
        current_user_revoked claims a'
            (λ _. get-all_revoked R revocation_prefix jtis now t claims.jti s' later live held),
      )
