-- ===== src/Tests/Sessions.antt =====
-- Theorems on sessions and on signing in, applied.
use enterprise_fast_api_boil.Base.{
  ℕ, String, ◌≡◌, ◌≢◌, refl, Bool, true, false, none, some, List, [], ◌∷◌, ◌++◌, arith, eq_iff,
  ◌=s◌, ◌==◌, if◌then◌else◌,
}
use enterprise_fast_api_boil.Base.Dict.{pair_eq}
use enterprise_fast_api_boil.Base.Outcome.{ok, err, domain, unauthorized, http, store_unavailable}
use enterprise_fast_api_boil.Users.{authenticate, get_by_id, update_user}
use enterprise_fast_api_boil.Users.Lockout.{attempts, five_failures_lock}
use enterprise_fast_api_boil.Tokens.Redis.{user, by_user, access_by_user}
use enterprise_fast_api_boil.Tokens.Revocation.{offline}
use enterprise_fast_api_boil.Auth.{
  Auth, Claims, Limits, session_prefix, revocation_prefix, reset_prefix, bad_refresh, refresh,
  logout, current_user, confirm_password_reset,
}
use enterprise_fast_api_boil.Auth.Sessions.{
  up_at, logout_ends_session, offline_refuses, reset_token_single_use, password_reset_ends_sessions,
}
use enterprise_fast_api_boil.Tokens.Store.{get_entry, track_access_token, rotate_refresh_token}
use enterprise_fast_api_boil.Auth.Replay.{refresh_replay}
use enterprise_fast_api_boil.Tests.Data.{server, cy}
use enterprise_fast_api_boil.Tests.Memory.{in_memory, write, enter, Entries}

abbrev pub limits : Limits
limits = record {
  access_token_expire_minutes = 15;
  refresh_token_expire_days = 7;
  password_reset_token_ttl_minutes = 30;
  require_email_verification = true;
}

-- The tokens that are drawn.
abbrev pub tokens : ℕ → String
tokens n = if n == 0 then "t0" else if n == 1 then "t1" else "t"

-- The refresh token "old" and the reset token "forgot" are stored for the account, the refresh token
-- and the access token "jti" are tracked.
abbrev token_entries : Entries
token_entries = enter (by_user session_prefix 3) "old" (
    enter (access_by_user revocation_prefix 3) "jti" (
      write (session_prefix, "old") (some (user 3, 1000))
        (write (reset_prefix, "forgot") (some (user 3, 1000))
          (record { values = λ k. none; sets = λ k. [] }))))

abbrev pub auth : Auth in_memory
auth = record {
  server = server;
  tokens = record {
    redis = token_entries;
    memory = record { values = []; sets = λ k. [] };
    up = true;
    is_dev = false;
    now = 0;
    drawn = 0;
  };
}

abbrev claims : Claims
claims = record { sub = 3; jti = "jti"; exp = 910 }

distinct : tokens 1 ≢ "old"
distinct e = absurd (ground (arith, eq_iff "t1" "old"))

logout_ends_session_example :
    let a =
      up_at in_memory tokens limits 100
        (logout in_memory tokens limits "old" claims (up_at in_memory tokens limits 10 auth)).1 in
    ((refresh in_memory tokens limits "old" a).0 ≡ err (bad_refresh in_memory tokens limits))
    × ((m : String) × ((current_user in_memory tokens limits (some claims) a).0 ≡ err (http 401 m)))
logout_ends_session_example =
    logout_ends_session in_memory tokens limits "old" claims auth 10 100 (omega arith) (omega arith)

offline_refuses_example :
    let a = record auth { tokens = offline in_memory auth.tokens } in
    (refresh in_memory tokens limits "old" a ≡ (err store_unavailable, a))
    × (logout in_memory tokens limits "old" claims a ≡ (err store_unavailable, a))
    × (confirm_password_reset in_memory tokens limits (λ w. w) "old" "new" a
        ≡ (err store_unavailable, a))
    × (current_user in_memory tokens limits (some claims) a ≡ (err store_unavailable, a))
offline_refuses_example =
    offline_refuses in_memory tokens limits "old" "new" (λ w. w) claims auth (omega arith)

reset_token_single_use_example :
    (confirm_password_reset in_memory tokens limits
      (λ w. w)
      "forgot"
      "again"
      (up_at in_memory tokens limits 20
        (confirm_password_reset in_memory tokens limits
          (λ w. w)
          "forgot"
          "new"
          (up_at in_memory tokens limits 10 auth)).1)).0
    ≡ err (domain (unauthorized "Invalid or expired reset token"))
unfolding pair_eq
reset_token_single_use_example =
    reset_token_single_use in_memory tokens limits (λ w. w) "forgot" "new" "again" 3 10 20 auth refl

password_reset_ends_sessions_example :
    let (r, a) =
      confirm_password_reset in_memory tokens limits
        (λ w. w)
        "forgot"
        "new"
        (up_at in_memory tokens limits 10 auth) in
    (r ≡ ok tt)
    × (a.server.work.users
        ≡ update_user 3 (λ u. record u { hashed_password = "new" }) server.work.users)
    × ((refresh in_memory tokens limits "old" (up_at in_memory tokens limits 20 a)).0
        ≡ err (bad_refresh in_memory tokens limits))
    × ((m : String) × ((current_user in_memory tokens limits
            (some claims)
            (up_at in_memory tokens limits 20 a)).0
          ≡ err (http 401 m)))
unfolding get_by_id pair_eq
password_reset_ends_sessions_example =
    password_reset_ends_sessions in_memory tokens limits (λ w. w) "forgot" "new" 10 20 cy "old"
      claims auth refl refl (omega arith) (omega arith) refl refl

refresh_replay_example :
    let (first, a1) =
      refresh in_memory tokens limits "old" (up_at in_memory tokens limits 10 auth) in
    let (second, a2) =
      refresh in_memory tokens limits "old" (up_at in_memory tokens limits 40 a1) in
    (first
      ≡ ok (record {
        access_token = record { sub = 3; jti = "t0"; exp = 910 };
        refresh_token = "t1";
      }))
    × (second ≡ err (bad_refresh in_memory tokens limits))
    × ((refresh in_memory tokens limits "t1" (up_at in_memory tokens limits 50 a2)).0
        ≡ err (bad_refresh in_memory tokens limits))
    × ((refresh in_memory tokens limits "old" (up_at in_memory tokens limits 50 a2)).0
        ≡ err (bad_refresh in_memory tokens limits))
    × ((m : String) × ((current_user in_memory tokens limits
            (some claims)
            (up_at in_memory tokens limits 60 a2)).0
          ≡ err (http 401 m)))
unfolding get_by_id pair_eq refresh get_entry track_access_token rotate_refresh_token
refresh_replay_example =
    refresh_replay in_memory tokens limits "old" 10 40 50 60 cy "old" claims auth refl refl distinct
      (omega arith) (omega arith) (omega arith) (omega arith) refl refl

abbrev same : String → String → Bool
same p h = p =s h

abbrev wrong_four : List (ℕ × String)
wrong_four = (1, "a") ∷ (2, "b") ∷ (3, "c") ∷ (4, "d") ∷ []

five_failures_lock_example :
    (attempts same "cy@example.org" (wrong_four ++ (5, "e") ∷ (6, "secret") ∷ []) server
      ≡ attempts same "cy@example.org" (wrong_four ++ (5, "e") ∷ []) server)
    × ((authenticate same 7 "cy@example.org" "secret"
          (attempts same "cy@example.org" (wrong_four ++ (5, "e") ∷ (6, "secret") ∷ []) server)).0
        ≡ ok none)
five_failures_lock_example =
    five_failures_lock same "cy@example.org" wrong_four ((6, "secret") ∷ []) 5 7 "e" "secret" cy
      server refl refl refl refl (refl, (refl, (refl, (refl, tt)))) refl (omega arith, tt)
      (omega arith)
