-- ===== src/Profile/Privileges.antt =====
-- What PUT /users/{user_id} cannot change: backend/application/users/use_cases.py.
use enterprise_fast_api_boil.Base.{
  ℕ, String, ◌≡◌, ◌∙◌, refl, ap, arith, Bool, false, Bool-cases, inl, inr, List, [], ◌∷◌, map,
  select, Option, none, some, if◌then◌else◌, ◌==◌, ◌=s◌,
}
use enterprise_fast_api_boil.Base.Outcome.{
  Outcome, Error, domain, not_found, pure, ok, err, Exec, or_raise, continue, ◌>>=◌, ◌>>◌,
  scalar_one_or_none, as_http,
}
use enterprise_fast_api_boil.Database.{User}
use enterprise_fast_api_boil.Server.{log}
use enterprise_fast_api_boil.Users.{get_by_id, get_by_email, get_by_username}
use enterprise_fast_api_boil.Users as Users
use enterprise_fast_api_boil.Tokens.Redis.{Redis}
use enterprise_fast_api_boil.Rbac.Queries.{Actor}
use enterprise_fast_api_boil.Profile.Fields.{
  Field, unset, null, given, UserUpdate, own_fields, with_fields, is_empty, wanted,
}
use enterprise_fast_api_boil.Profile.{
  Desk, in_session, ensure_email_free, ensure_username_free, set_password, set_fields, update_row,
  update_own, update_found, update_profile, update_user,
}

-- The columns that decide what an account may do and whether it can sign in.
pub record Privileges : Type 0 where
  pub id : ℕ
  pub role : String
  pub permissions : List String
  pub is_superuser : Bool
  pub is_active : Bool
  pub is_verified : Bool
  pub locked_until : Option ℕ
  pub deleted_at : Option ℕ

abbrev pub privileges : User → Privileges
privileges u = record {
  id = u.id;
  role = u.role;
  permissions = u.permissions;
  is_superuser = u.is_superuser;
  is_active = u.is_active;
  is_verified = u.is_verified;
  locked_until = u.locked_until;
  deleted_at = u.deleted_at;
}

module _ (mine : ℕ) where
  -- The row of another account as it is, and of one's own account the privileges.
  abbrev pub protected : User → Privileges × Option User
  protected u = (privileges u, if u.id == mine then none else some u)

  protected-update :
      (i : ℕ) (f : User → User) (us : List User)
      → i ≡ mine
      → ((u : User) → privileges (f u) ≡ privileges u)
      → map protected (Users.update_user i f us) ≡ map protected us
  unfolding Users.update_user
  protected-update i f [] e keep = refl
  protected-update i f (u ∷ us) e keep =
      ground (arith, ap (λ p. p.id) (keep u), keep u, protected-update i f us e keep)

module _ (R : Redis) (mine : ℕ) where
  abbrev pub protected_of : Desk R → List (Privileges × Option User)
  protected_of d = map (protected mine) d.auth.server.work.users

  -- A call that leaves the privileges of every row as they are, whether it returns or raises.
  abbrev Keeps : {A : Type 0} → Exec (Desk R) A → Type 0
  Keeps m = (d : Desk R) → protected_of (m d).1 ≡ protected_of d

  continue-keeps :
      {A B : Type 0} (r : Outcome A) (f : A → Exec (Desk R) B) (d : Desk R)
      → ((a : A) → protected_of (f a d).1 ≡ protected_of d)
      → protected_of (continue r f d).1 ≡ protected_of d
  continue-keeps (ok a) f d keep = keep a
  continue-keeps (err e) f d keep = refl

  bind-Keeps :
      {A B : Type 0} (m : Exec (Desk R) A) (f : A → Exec (Desk R) B)
      → Keeps m
      → ((a : A) → Keeps (f a))
      → Keeps (m >>= f)
  bind-Keeps m f km kf d = continue-keeps (m d).0 f (m d).1 (λ a. kf a (m d).1) ∙ km d

  or_raise-Keeps : {A : Type 0} (o : Option A) (e : Error) → Keeps (or_raise o e)
  or_raise-Keeps none e d = refl
  or_raise-Keeps (some a) e d = refl

  ensure_email_free-Keeps : (o : Option String) → Keeps (in_session R (ensure_email_free o))
  unfolding get_by_email
  ensure_email_free-Keeps none d = refl
  ensure_email_free-Keeps (some e) d = ground arith

  ensure_username_free-Keeps : (o : Option String) → Keeps (in_session R (ensure_username_free o))
  unfolding get_by_username
  ensure_username_free-Keeps none d = refl
  ensure_username_free-Keeps (some e) d = ground arith

  save_user-Keeps :
      (i : ℕ) (f : User → User)
      → i ≡ mine
      → ((u : User) → privileges (f u) ≡ privileges u)
      → Keeps (in_session R (Users.save_user i f))
  save_user-Keeps i f e keep d = protected-update mine i f d.auth.server.work.users e keep

  module _ (hash_password : String → String) (user : User) (e : user.id ≡ mine) where
    set_password-Keeps : (f : Field String) → Keeps (set_password R hash_password user f)
    set_password-Keeps unset = λ d. refl
    set_password-Keeps null = λ d. refl
    set_password-Keeps (given password) = elim (Bool-cases (password =s "")) [
      | inl h ↦ λ d. rw h refl
      | inr h ↦ λ d. rw h (
          save_user-Keeps user.id (λ u. record u { hashed_password = hash_password password }) e
            (λ u. refl) d)
    ]

    set_fields-Keeps :
        (now : ℕ) (p : UserUpdate) → Keeps (in_session R (set_fields now user (own_fields p)))
    set_fields-Keeps now p d = ground (
      arith,
      protected-update mine user.id (with_fields now (own_fields p)) d.auth.server.work.users e
          (λ u. refl),
    )

    update_row-Keeps :
        (now : ℕ) (p : UserUpdate) → Keeps (update_row R hash_password now user (own_fields p))
    unfolding update_row
    update_row-Keeps now p =
        bind-Keeps (set_password R hash_password user p.password) _ (set_password-Keeps p.password)
          (λ _.
            bind-Keeps (in_session R (set_fields now user (own_fields p))) _
              (set_fields-Keeps now p) (λ _ d. refl))

    update_own-Keeps : (now : ℕ) (p : UserUpdate) → Keeps (update_own R hash_password now user p)
    unfolding update_own
    update_own-Keeps now p d = elim (Bool-cases (is_empty (own_fields p))) [
      | inl h ↦ rw h refl
      | inr h ↦ rw h (update_row-Keeps now p d)
    ]

    -- What is done with one's own row, by somebody who is not a superuser.
    allowed-Keeps :
        (now : ℕ) (p : UserUpdate)
        → Keeps (
            in_session R (ensure_email_free (wanted p.email user.email))
            >> (in_session R (ensure_username_free (wanted p.username user.username))
                >> update_own R hash_password now user p))
    allowed-Keeps now p =
        bind-Keeps (in_session R (ensure_email_free (wanted p.email user.email)))
          (λ _.
            in_session R (ensure_username_free (wanted p.username user.username))
            >> update_own R hash_password now user p)
          (ensure_email_free-Keeps (wanted p.email user.email))
          (λ _.
            bind-Keeps (in_session R (ensure_username_free (wanted p.username user.username)))
              (λ _. update_own R hash_password now user p)
              (ensure_username_free-Keeps (wanted p.username user.username))
              (λ _. update_own-Keeps now p))

module _ (R : Redis) (hash_password : String → String) (now : ℕ) (actor : Actor)
    (payload : UserUpdate) (h : actor.is_superuser ≡ false) where
  update_found-Keeps :
      (user : User) (d : Desk R)
      → protected_of R actor.id (update_found R hash_password now actor payload user d).1
        ≡ protected_of R actor.id d
  update_found-Keeps user d = elim (Bool-cases (user.id == actor.id)) [
    | inl own ↦
        rw (own, h)
          (allowed-Keeps R actor.id hash_password user (ground (arith, own)) now payload d)
    | inr other ↦ rw (other, h) refl
  ]

  look_up-Keeps :
      (r : Outcome (Option User)) (d : Desk R)
      → protected_of R actor.id
          (continue r
            (λ o.
              or_raise o (domain (not_found "user not found"))
              >>= update_found R hash_password now actor payload)
            d).1
        ≡ protected_of R actor.id d
  look_up-Keeps (err e) d = refl
  look_up-Keeps (ok none) d = refl
  look_up-Keeps (ok (some user)) d = update_found-Keeps user d

  update_profile-Keeps :
      (user_id : ℕ) (d : Desk R)
      → protected_of R actor.id (update_profile R hash_password now actor user_id payload d).1
        ≡ protected_of R actor.id d
  unfolding update_profile get_by_id
  update_profile-Keeps user_id d =
      look_up-Keeps (scalar_one_or_none (select (Users.has_id user_id) d.auth.server.work.users)) d

  -- PUT /users/{user_id} of a user who is not a superuser, whatever it carries and whether it
  -- succeeds, changes no row but the user's own, and in that one leaves the role, the permissions,
  -- the flags, the lock and the deletion as they are.
  pub update_user_keeps_privileges :
      (user_id : ℕ) (d : Desk R)
      → protected_of R actor.id (update_user R hash_password now actor user_id payload d).1
        ≡ protected_of R actor.id d
  unfolding update_user
  update_user_keeps_privileges user_id d =
      continue-keeps R actor.id
        (as_http (update_profile R hash_password now actor user_id payload d).0)
        (λ out. in_session R (log "user.updated") >> pure out)
        (update_profile R hash_password now actor user_id payload d).1 (λ out. refl)
      ∙ update_profile-Keeps user_id d
