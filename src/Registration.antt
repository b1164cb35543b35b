-- ===== src/Registration.antt =====
-- Self-registration: `RegisterUserUseCase` of backend/application/users/use_cases.py with
-- `UserService.create`, and POST /users/ of backend/app/api/v1/users/router.py. Hashing a password
-- is bcrypt's; the notification port is an argument, which sends or raises.
pub mod Accepted
pub mod Stores
pub mod Route
pub mod Replay
use enterprise_fast_api_boil.Base.{
  ℕ, ◌+◌, String, Bool, true, false, ◌&&◌, ◌||◌, Option, none, some, List, [], ◌∷◌, ◌++◌, map, find,
  any, is_some, ◌==◌, ◌=s◌, if◌then◌else◌,
}
use enterprise_fast_api_boil.Base.Outcome.{
  Error, domain, duplicate, integrity, Outcome, ok, err, Exec, pure, lift, gets, raise_if, ◌>>=◌,
  ◌>>◌,
}
use enterprise_fast_api_boil.Database.{User, Plan, Db}
use enterprise_fast_api_boil.Server.{Server, edit}
use enterprise_fast_api_boil.Users.{get_by_email, get_by_username}
use enterprise_fast_api_boil.Users.Public.{UserOut, to_public}
use enterprise_fast_api_boil.Billing.Subscriptions.{add_subscription}
use enterprise_fast_api_boil.Events.{DomainEvent, text, number, event_bus, publish}

-- The payload, after its address is normalised and its password is found strong enough.
pub record UserCreate : Type 0 where
  pub email : String
  pub username : String
  pub password : String

-- The unique columns of the users table, deleted rows included.
abbrev pub is_taken : String → String → User → Bool
is_taken email username u = u.email =s email || u.username =s username

module _ (hash_password : String → String) where
  abbrev pub new_user : ℕ → ℕ → UserCreate → User
  new_user new_id now payload = record {
    id = new_id;
    email = payload.email;
    username = payload.username;
    hashed_password = hash_password payload.password;
    is_active = true;
    is_verified = false;
    is_superuser = false;
    failed_login_attempts = 0;
    locked_until = none;
    role = "user";
    permissions = [];
    updated_at = now;
    deleted_at = none;
  }

  -- `UserService.create`: the flush fails on an address or a name of any row.
  unfoldable pub create_user_row : ℕ → UserCreate → Exec Server User
  create_user_row now payload = do
    new_id ← gets (λ s. s.assign_id (map (λ u. u.id) s.work.users))
    taken ← gets (λ s. any (is_taken payload.email payload.username) s.work.users)
    raise_if taken integrity
    edit (λ db. record db { users = db.users ++ (new_user new_id now payload ∷ []) })
    pure (new_user new_id now payload)

abbrev pub is_free : Plan → Bool
is_free p = p.key =s "free"

abbrev pub new_free_plan : ℕ → Plan
new_free_plan new_id = record {
  id = new_id;
  key = "free";
  name = "Free";
  price_cents = 0;
  billing_interval = "month";
  is_active = true;
}

abbrev pub or_create : Option Plan → Exec Server Plan
or_create (some plan) = pure plan
or_create none = do
  new_id ← gets (λ s. s.assign_id (map (λ p. p.id) s.work.plans))
  edit (λ db. record db { plans = db.plans ++ (new_free_plan new_id ∷ []) })
  pure (new_free_plan new_id)

-- The plan with the key "free", created where it is missing.
unfoldable pub free_plan : Exec Server Plan
free_plan = do found ← gets (λ s. find is_free s.work.plans); or_create found

-- The subscription to the free plan, unless there is one.
unfoldable pub subscribe_free : User → Plan → Exec Server (Unit {0})
subscribe_free user plan = do
  existing ←
      gets (λ s. any (λ sub. sub.user_id == user.id && sub.plan_id == plan.id) s.work.subscriptions)
  new_id ← gets (λ s. s.assign_id (map (λ sub. sub.id) s.work.subscriptions))
  if existing then pure tt else edit (add_subscription new_id user.id plan.id "active" "manual")

abbrev pub registered : User → DomainEvent
registered user = record {
  payload =
      ("event_type", text "user.registered")
      ∷ ("user_id", number user.id)
      ∷ ("email", text user.email)
      ∷ [];
}

-- `NotificationPort`: what `send` does with the recipient, the subject and the name that the body
-- greets.
abbrev pub NotificationPort : Type 0
NotificationPort = String → String → String → Outcome (Unit {0})

abbrev pub welcome : Option NotificationPort → User → Outcome (Unit {0})
welcome none user = ok tt
welcome (some send) user = send user.email "Welcome" user.username

-- `RegisterUserUseCase.execute`
unfoldable pub register :
    (String → String) → Option NotificationPort → ℕ → UserCreate → Exec Server UserOut
unfolding get_by_email get_by_username create_user_row free_plan subscribe_free publish
register hash_password port now payload = do
  by_email ← get_by_email payload.email
  raise_if (is_some by_email) (domain (duplicate "Email already registered"))
  by_username ← get_by_username payload.username
  raise_if (is_some by_username) (domain (duplicate "Username already taken"))
  user ← create_user_row hash_password now payload
  plan ← free_plan
  subscribe_free user plan
  publish event_bus (registered user)
  lift (welcome port user)
  pure (to_public user)
