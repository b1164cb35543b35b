-- ===== src/Registration/Route.antt =====
-- POST /users/ of backend/app/api/v1/users/router.py, with any idempotency store of
-- backend/resilience/idempotency.py: the answer that is kept under a key.
use enterprise_fast_api_boil.Base.{ℕ, ◌*◌, String, Option, none, some, ◌=s◌, if◌then◌else◌}
use enterprise_fast_api_boil.Base.Outcome.{ok, Exec, pure, gets, as_http, ◌>>=◌, ◌>>◌}
use enterprise_fast_api_boil.Server.{Server, log}
use enterprise_fast_api_boil.Users.Public.{UserOut}
use enterprise_fast_api_boil.Resilience.RateLimit.Guard.{
  Guarded, on_inner, limited, too_many_requests,
}
use enterprise_fast_api_boil.Registration.Stores.{IdempotencyStore}
use enterprise_fast_api_boil.Registration.{UserCreate, NotificationPort, register}

-- The session, and `IDEMPOTENCY_STORE`, whose keys stand here without their prefix "users:create:".
pub record Desk (store : IdempotencyStore) : Type 0 where
  pub server : Server
  pub responses : store.State

-- `if idempotency_key:`, an empty header being none
abbrev pub key_of : Option String → Option String
key_of none = none
key_of (some key) = if key =s "" then none else some key

-- `ttl_seconds` of `set`
abbrev pub ttl_seconds : ℕ
ttl_seconds = 86_400

abbrev pub write_rate_limit : ℕ
write_rate_limit = 5

module _ (store : IdempotencyStore) where
  abbrev pub at_desk : {A : Type 0} → Exec Server A → Exec (Guarded (Desk store)) A
  at_desk m = on_inner (λ d. let (r, s) = m d.server in (r, record d { server = s }))

  -- `IDEMPOTENCY_STORE.get`
  abbrev pub cached : ℕ → Option String → Desk store → Option UserOut
  cached now none d = none
  cached now (some key) d = store.get now key d.responses

  -- `IDEMPOTENCY_STORE.set`
  abbrev pub keep : ℕ → Option String → UserOut → Desk store → Desk store
  keep now none out d = d
  keep now (some key) out d = record d { responses = store.set now key out ttl_seconds d.responses }

module _ (store : IdempotencyStore) (hash_password normalize : String → String)
    (port : Option NotificationPort) where
  abbrev pub create_account : ℕ → Option String → UserCreate → Exec (Guarded (Desk store)) UserOut
  create_account now key payload = do
    out ←
        at_desk store
          (λ s. let (r, s') = register hash_password port now payload s in (as_http r, s'))
    at_desk store (log "user.created")
    on_inner (λ d. (ok tt, keep store now key out d))
    pure out

  abbrev pub or_create_account :
      ℕ → Option String → UserCreate → Option UserOut → Exec (Guarded (Desk store)) UserOut
  or_create_account now key payload (some out) = pure out
  or_create_account now key payload none = create_account now key payload

  -- The handler behind its limits.
  abbrev pub answer_for : ℕ → Option String → UserCreate → Exec (Guarded (Desk store)) UserOut
  answer_for now key payload = do
    answer ← gets (λ g. cached store now key g.inner)
    or_create_account now key payload answer

  -- The handler: `clock` in microseconds for the limiter, `now` in seconds.
  unfoldable pub create_user :
      ℕ → ℕ → String → Option String → UserCreate → Exec (Guarded (Desk store)) UserOut
  unfolding limited register
  create_user clock now client_ip idempotency_key payload = do
    limited clock (normalize payload.email, "users:create:email") write_rate_limit too_many_requests
    limited clock (client_ip, "users:create:ip") (write_rate_limit * 2) too_many_requests
    answer_for now (key_of idempotency_key) payload
