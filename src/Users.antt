-- ===== src/Users.antt =====
-- The users: backend/domain/users/repository.py, the queries of backend/common/base_repository.py
-- on them, and backend/domain/users/service.py. Hashing and checking a password are bcrypt's, and
-- are arguments; the clock is an argument.
pub mod Hashing
pub mod Rows
pub mod Lockout
pub mod Public
use enterprise_fast_api_boil.Base.{
  ℕ, ◌+◌, String, Bool, true, false, not, ◌&&◌, Option, none, some, List, [], ◌∷◌, length, select,
  take, drop, is_some, ltb, leb, ◌==◌, ◌=s◌, if◌then◌else◌,
}
use enterprise_fast_api_boil.Base.Outcome.{
  Outcome, ok, err, Exec, pure, lift, gets, scalar_one_or_none, ◌>>=◌, ◌>>◌,
}
use enterprise_fast_api_boil.Database.{User, Db}
use enterprise_fast_api_boil.Server.{Server, edit, commit_now}

-- `deleted_at IS NULL`
abbrev pub is_live : User → Bool
is_live u = not (is_some u.deleted_at)

abbrev pub has_id : ℕ → User → Bool
has_id i u = u.id == i && is_live u

abbrev pub has_email : String → User → Bool
has_email e u = u.email =s e && is_live u

abbrev pub has_username : String → User → Bool
has_username n u = u.username =s n && is_live u

unfoldable pub get_by_id : ℕ → Exec Server (Option User)
get_by_id i s = (scalar_one_or_none (select (has_id i) s.work.users), s)

unfoldable pub get_by_email : String → Exec Server (Option User)
get_by_email e s = (scalar_one_or_none (select (has_email e) s.work.users), s)

unfoldable pub get_by_username : String → Exec Server (Option User)
get_by_username n s = (scalar_one_or_none (select (has_username n) s.work.users), s)

-- `BaseRepository.list` and `count` on users.
unfoldable pub list_users : ℕ → ℕ → Exec Server (List User)
list_users skip limit s =
    (ok (take limit (drop skip (s.row_order skip limit (select is_live s.work.users)))), s)

unfoldable pub count_users : Exec Server ℕ
count_users s = (ok (length (select is_live s.work.users)), s)

-- A flushed change of the attributes of the row with a given primary key.
unfoldable pub update_user : ℕ → (User → User) → List User → List User
update_user i f [] = []
update_user i f (u ∷ us) = if u.id == i then f u ∷ update_user i f us else u ∷ update_user i f us

abbrev pub save_user : ℕ → (User → User) → Exec Server (Unit {0})
save_user i f = edit (λ db. record db { users = update_user i f db.users })

-- `UserService.delete`: a soft delete.
unfoldable pub delete_user_row : ℕ → User → Exec Server (Unit {0})
delete_user_row now user =
    save_user user.id (λ u. record u { deleted_at = some now; updated_at = now })

-- `UserService.mark_verified`
unfoldable pub mark_verified : ℕ → User → Exec Server (Unit {0})
mark_verified now user = save_user user.id (λ u. record u { is_verified = true; updated_at = now })

-- `locked_until and locked_until > now`
abbrev pub is_locked : ℕ → User → Bool
is_locked now u = elim u.locked_until [ none ↦ false | some t ↦ ltb now t ]

-- timedelta(minutes=15)
abbrev pub lock_seconds : ℕ
lock_seconds = 900

abbrev pub max_failures : ℕ
max_failures = 5

-- The row after a wrong password.
abbrev pub record_failure : ℕ → User → User
record_failure now u = record u {
  failed_login_attempts = u.failed_login_attempts + 1;
  locked_until =
      if leb max_failures (u.failed_login_attempts + 1)
      then some (now + lock_seconds)
      else u.locked_until;
}

-- The row after the right password.
abbrev pub record_login : User → User
record_login u = record u { failed_login_attempts = 0; locked_until = none }

module _ (verify_password : String → String → Bool) where
  abbrev check_user : ℕ → String → Option User → Exec Server (Option User)
  check_user now password none = pure none
  check_user now password (some user) =
      if is_locked now user
      then pure none
      else if verify_password password user.hashed_password
      then (do save_user user.id record_login; commit_now; pure (some (record_login user)))
      else (do save_user user.id (record_failure now); commit_now; pure none)

  -- `UserService.authenticate`. An unknown address costs a comparison with a dummy hash, which
  -- only takes time.
  unfoldable pub authenticate : ℕ → String → String → Exec Server (Option User)
  unfolding get_by_email
  authenticate now email password = do user ← get_by_email email; check_user now password user
