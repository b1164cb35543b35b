-- ===== src/Server.antt =====
-- The state of one server process: the database as the open session sees it
-- (backend/database/session.py), the module globals of the services, the mutable part of the
-- settings, and what has been handed to the job queue and to the audit log.
use enterprise_fast_api_boil.Base.{ℕ, String, Bool, List, [], ◌∷◌, ◌++◌}
use enterprise_fast_api_boil.Base.Dict.{Dict}
use enterprise_fast_api_boil.Base.Outcome.{Outcome, ok, err, Exec}
use enterprise_fast_api_boil.Database.{User, Db}

-- The mutable settings that the billing rules read.
pub record Settings : Type 0 where
  pub subscriptions_enabled : Bool
  pub payment_providers_enabled : List String
  pub disabled_features : List String
  pub is_dev : Bool

-- What the server puts on its job queue.
pub data Job : Type 0 where
  -- user, kind
  billing_notification : ℕ → String → Job
  -- delivery
  deliver_webhook : ℕ → Job
  -- recipient, token
  send_verification_email send_password_reset_email : String → String → Job
  -- message
  log_info : String → Job

pub record Server : Type 0 where
  -- what is committed
  pub durable : Db
  -- what the session sees: flushed rows and changed attributes included
  pub work : Db
  -- `_rbac_seed_initialized` and `_billing_seed_initialized`
  pub rbac_seeded : Bool
  pub billing_seeded : Bool
  pub settings : Settings
  pub jobs : List Job
  -- the actions that were logged, in order
  pub audit : List String
  -- `InMemoryIdempotencyStore._store`: the keys, each with the identifier that was kept
  pub idempotency : Dict String String
  -- the primary key that the database gives to a new row, from those in use
  pub assign_id : List ℕ → ℕ
  -- the order in which the database gives the rows of a query without ORDER BY, for its OFFSET and LIMIT
  pub row_order : ℕ → ℕ → List User → List User

-- `session.commit()`
abbrev pub commit : Server → Server
commit s = record s { durable = s.work }

-- `session.rollback()`
abbrev pub rollback : Server → Server
rollback s = record s { work = s.durable }

abbrev pub close_session {ℓ} : {A : Type ℓ} → Outcome A → Server → Outcome A × Server
close_session (ok a) s = (ok a, commit s)
close_session (err e) s = (err e, rollback s)

-- `get_db` around a handler: commit when it returns, roll back when it raises.
unfoldable pub get_db : {A : Type 0} → Exec Server A → Exec Server A
get_db handler s = let (r, s') = handler s in close_session r s'

-- A change of the session's rows.
abbrev pub edit : (Db → Db) → Exec Server (Unit {0})
edit f s = (ok tt, record s { work = f s.work })

abbrev pub commit_now : Exec Server (Unit {0})
commit_now s = (ok tt, commit s)

-- A read of the session's rows.
abbrev pub query : {A : Type 0} → (Db → Outcome A) → Exec Server A
query f s = (f s.work, s)

-- `job_queue.enqueue`
abbrev pub enqueue : Job → Exec Server (Unit {0})
enqueue job s = (ok tt, record s { jobs = s.jobs ++ (job ∷ []) })

-- `audit_logger.log`
abbrev pub log : String → Exec Server (Unit {0})
log action s = (ok tt, record s { audit = s.audit ++ (action ∷ []) })
