-- ===== src/Auth/Replay.antt =====
-- A refresh token that is presented again after it was rotated: `RefreshTokenUseCase` of
-- backend/application/auth/use_cases.py over `rotate_refresh_token` of
-- backend/core/security/token_store.py.
use enterprise_fast_api_boil.Base.{
  ℕ, suc, min, ◌+◌, ◌*◌, ◌≤◌, ◌<◌, String, ◌≡◌, ◌≢◌, refl, ◌∙◌, ap, true, some, contains, arith,
}
use enterprise_fast_api_boil.Base.Outcome.{http, ok, err}
use enterprise_fast_api_boil.Database.{User}
use enterprise_fast_api_boil.Users.{get_by_id}
use enterprise_fast_api_boil.Tokens.Redis.{Redis, user, used, EntryKey, by_user, access_by_user}
use enterprise_fast_api_boil.Tokens.Store.{get_entry, rotate_refresh_token, track_access_token}
use enterprise_fast_api_boil.Auth.{
  Auth, Claims, TokenPair, Limits, current_user, session_prefix, revocation_prefix, bad_refresh,
  session_ttl, refresh,
}
use enterprise_fast_api_boil.Auth.Sessions.{
  up_at, ended, end_sessions_up, ended_tracked, refresh_gone, current_user_revoked,
}
use enterprise_fast_api_boil.Tokens.Revocation.{deleted, get-all_revoked}

module _ (R : Redis) (uuid : ℕ → String) (limits : Limits) where
  -- Redis once `token` of the account `uid` is rotated, `drawn` tokens having been drawn before.
  abbrev rotated : String → ℕ → ℕ → ℕ → R.State → R.State
  rotated token uid now drawn s =
      let access = access_by_user revocation_prefix uid in
      let index = by_user session_prefix uid in
      let ttl = session_ttl R uuid limits in
      let s1 =
        R.expire now access (limits.access_token_expire_minutes * 60)
          (R.sadd now access (uuid drawn) s) in
      let s2 = R.set now (session_prefix, token) (used uid) (min 60 ttl) s1 in
      let s3 = R.set now (session_prefix, uuid (suc drawn)) (user uid) ttl s2 in
      R.expire now index ttl (R.sadd now index (uuid (suc drawn)) s3)

  abbrev renewed : ℕ → ℕ → ℕ → TokenPair
  renewed uid now drawn = record {
    access_token = record {
      sub = uid;
      jti = uuid drawn;
      exp = now + limits.access_token_expire_minutes * 60;
    };
    refresh_token = uuid (suc drawn);
  }

  abbrev rotation : String → ℕ → ℕ → Auth R → Auth R
  rotation token uid now a = record a {
    tokens = record a.tokens {
      redis = rotated token uid now a.tokens.drawn a.tokens.redis;
      up = true;
      now = now;
      drawn = suc (suc a.tokens.drawn);
    };
  }

  refresh_up :
      (token : String) (now : ℕ) (account : User) (a : Auth R)
      → R.get now (session_prefix, token) a.tokens.redis ≡ some (user account.id)
      → (get_by_id account.id a.server).0 ≡ ok (some account)
      → refresh R uuid limits token (up_at R uuid limits now a)
        ≡ (ok (renewed account.id now a.tokens.drawn), rotation token account.id now a)
  unfolding refresh get_entry track_access_token rotate_refresh_token get_by_id
  refresh_up token now account a stored found = rw (stored, found) refl

  rotated_old :
      (token : String) (uid now t drawn : ℕ) (s : R.State)
      → uuid (suc drawn) ≢ token
      → now ≤ t
      → t < now + min 60 (session_ttl R uuid limits)
      → R.get t (session_prefix, token) (rotated token uid now drawn s) ≡ some (used uid)
  rotated_old token uid now t drawn s fresh later soon =
      let access = access_by_user revocation_prefix uid in
      let index = by_user session_prefix uid in
      let ttl = session_ttl R uuid limits in
      let k : EntryKey = (session_prefix, token) in
      let new : EntryKey = (session_prefix, uuid (suc drawn)) in
      let s1 =
        R.expire now access (limits.access_token_expire_minutes * 60)
          (R.sadd now access (uuid drawn) s) in
      let s2 = R.set now k (used uid) (min 60 ttl) s1 in
      let s3 = R.set now new (user uid) ttl s2 in
      R.get-expire now t index ttl k (R.sadd now index (uuid (suc drawn)) s3)
      ∙ R.get-sadd now t index (uuid (suc drawn)) k s3
      ∙ R.get-set_ne now t new k (user uid) ttl s2 (λ e. fresh (ap (λ (j : EntryKey). j.1) e))
      ∙ R.get-set_self now t k (used uid) (min 60 ttl) s1 later soon

  replay_up :
      (token : String) (uid now : ℕ) (a : Auth R)
      → R.get now (session_prefix, token) a.tokens.redis ≡ some (used uid)
      → let (r, a') = refresh R uuid limits token (up_at R uuid limits now a) in
        (r ≡ err (bad_refresh R uuid limits))
        × (a'.tokens.redis ≡ ended R uuid limits now uid a.tokens.redis)
  unfolding refresh get_entry
  replay_up token uid now a stored =
      rw (stored, end_sessions_up R uuid limits uid now a) (refl, refl)

  -- While Redis answers, the refresh token is stored for an account, the account's row is found and
  -- the new token drawn differs from the old one: refreshing returns a new pair for the account.
  -- When the old token is presented again within 60 seconds, and within the lifetime of refresh
  -- tokens, that is refused. From then on the new refresh token is refused too, and so is every
  -- refresh token that is tracked for the account; for 24 hours every access token whose identifier
  -- is tracked for the account is refused with status 401.
  pub refresh_replay :
      (token : String) (now t later day : ℕ) (account : User) (tracked : String) (claims : Claims)
      (a : Auth R)
      → R.get now (session_prefix, token) a.tokens.redis ≡ some (user account.id)
      → (get_by_id account.id a.server).0 ≡ ok (some account)
      → uuid (suc a.tokens.drawn) ≢ token
      → now ≤ t
      → t < now + min 60 (session_ttl R uuid limits)
      → t ≤ day
      → day < t + 24 * 60 * 60
      → let (first, a1) = refresh R uuid limits token (up_at R uuid limits now a) in
        let sessions = R.smembers t (by_user session_prefix account.id) a1.tokens.redis in
        contains tracked sessions ≡ true
        → contains claims.jti (
            R.smembers t
              (access_by_user revocation_prefix account.id)
              (deleted R session_prefix sessions a1.tokens.redis))
          ≡ true
        → let (second, a2) = refresh R uuid limits token (up_at R uuid limits t a1) in
          let new = uuid (suc a.tokens.drawn) in
          (first
            ≡ ok (record {
              access_token = record {
                sub = account.id;
                jti = uuid a.tokens.drawn;
                exp = now + limits.access_token_expire_minutes * 60;
              };
              refresh_token = new;
            }))
          × (second ≡ err (bad_refresh R uuid limits))
          × ((refresh R uuid limits new (up_at R uuid limits later a2)).0
              ≡ err (bad_refresh R uuid limits))
          × ((refresh R uuid limits tracked (up_at R uuid limits later a2)).0
              ≡ err (bad_refresh R uuid limits))
          × ((m : String) × ((current_user R uuid limits
                  (some claims)
                  (up_at R uuid limits day a2)).0
                ≡ err (http 401 m)))
  refresh_replay token now t later day account tracked claims a stored found fresh started soon
        after in_day =
      let uid = account.id in
      let drawn = a.tokens.drawn in
      let ttl = session_ttl R uuid limits in
      let index = by_user session_prefix uid in
      let s1 =
        R.expire now (access_by_user revocation_prefix uid)
          (limits.access_token_expire_minutes * 60)
          (R.sadd now (access_by_user revocation_prefix uid) (uuid drawn) a.tokens.redis) in
      let s2 = R.set now (session_prefix, token) (used uid) (min 60 ttl) s1 in
      let s3 = R.set now (session_prefix, uuid (suc drawn)) (user uid) ttl s2 in
      let a1 = rotation token uid now a in
      let a2 = (refresh R uuid limits token (up_at R uuid limits t a1)).1 in
      let (refused, end) =
        replay_up token uid t a1
          (rotated_old token uid now t drawn a.tokens.redis fresh started soon) in
      let s' = deleted R session_prefix (R.smembers t index a1.tokens.redis) a1.tokens.redis in
      let jtis = R.smembers t (access_by_user revocation_prefix uid) s' in
      let all_gone : (other : String)
          → contains other (R.smembers t index a1.tokens.redis) ≡ true
          → (refresh R uuid limits other (up_at R uuid limits later a2)).0
            ≡ err (bad_refresh R uuid limits) =
        λ other member.
          refresh_gone R uuid limits other (up_at R uuid limits later a2)
            (rw end (ended_tracked R uuid limits uid t later other a1.tokens.redis member)) in
      rw (refresh_up token now account a stored found) (λ member held. (
        refl,
        refused,
        all_gone (uuid (suc drawn))
            (R.smembers-track now t index (uuid (suc drawn)) ttl s3 started (omega arith)),
        all_gone tracked member,
        current_user_revoked R uuid limits claims (up_at R uuid limits day a2) (λ _.
            rw end
              (get-all_revoked R revocation_prefix jtis t day claims.jti s' after in_day held)),
      ))
