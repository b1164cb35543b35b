-- ===== src/Lib.antt =====
-- Enterprise-FastAPI-Boilerplate: a model of the core logic of the server, and what it guarantees.
--
-- The program is an HTTP server. A request is handled by a route (backend/app/api/v1), which
-- checks the caller (backend/core/security), calls a use case (backend/application) or a service
-- (backend/domain) and works on the rows of one database session (backend/database/session.py).
-- Tokens live in Redis (backend/core/security/token_store.py), the rate limiter and the
-- idempotency store in the process or in Redis, and slow work goes to a queue
-- (backend/common/background_jobs.py).
--
-- A handler is a function of the state that returns an outcome and the state after it, also where it
-- raises (`Exec` of Base/Outcome.antt). The files, and the code that they follow:
--   Base             lists, dictionaries, signed numbers, exceptions (backend/web/exceptions.py)
--   Database         the rows of the tables (backend/domain/*/model.py, models.py)
--   Server           session, settings, job queue and audit log of one process
--   Users            UserService and the repositories; Users/Lockout: wrong passwords; Users/Hashing: the
--                    hash of a server without bcrypt
--   Rbac             RbacService, the permission checks, AuthorizationPolicy and the routes;
--                    Rbac/Permission, Rbac/Escalation: what they guarantee
--   Admin            the administration routes; Admin/LastAdmin, Admin/SetRole: an administrator stays
--   Resilience       the rate limiter, retries and the circuit breaker; Resilience/RateLimit/Window:
--                    the bound of the limiter; Resilience/RateLimit/Redis, Resilience/RateLimit/Sliding: the
--                    limiter over Redis, which is a record of commands and documented laws
--   Billing          entitlement, plans, subscriptions, the trial job and the payment webhook;
--                    Billing/Features, Billing/Proration, Billing/PaymentWebhook/Once: their rules;
--                    Billing/Adapters, Billing/Signature: backend/integrations for the two providers
--   Tokens           TokenStore over Redis, which is a record of operations and documented laws
--   Auth             the authentication use cases, POST /auth/logout and get_current_user;
--                    Auth/Sessions, Auth/Replay: the end of a session; Auth/Routes, Auth/Failures: the
--                    routes with their limits, and sign-ins that fail
--   ApiKeys          keys from their issue to their revocation, and the header X-API-Key
--   Webhooks         endpoints, dispatch and delivery of outgoing webhooks
--   Events           the event bus of backend/domain/events with the handlers of a started server
--   Registration     RegisterUserUseCase and UserService.create; Registration/Route: POST /users/ with its
--                    limits and idempotency key; Registration/Stores: the two stores;
--                    Registration/Accepted, Registration/Replay: their rules
--   Profile          UpdateUserUseCase and UserService.update; Profile/Routes: the other handlers of
--                    backend/app/api/v1/users/router.py; Profile/Privileges, Profile/Pages: their rules
--   Jobs             BackgroundJobManager and its queue as operations and as a step relation; Jobs/Idle,
--                    Jobs/Drain: when it is idle; Jobs/Registry: the kinds of jobs
--   RequestSize      RequestSizeLimitMiddleware in front of any ASGI application
--   Products         repository, service, use cases and routes of the products
--   AuditLog         the entries of the audit log, their storage and their search
--   Metrics          MetricsCollector
--   RequestContext   add_request_context of backend/main.py, the middleware around every request
--   Config           lists written as one text and the validators of backend/core/config.py;
--                    Config/Environment, Config/Settings, Config/Precedence: files of variables and
--                    secrets; Config/Passwords, Config/PasswordRules: the pattern of backend/common/schema.py
--   Uploads          the routes, the storages (backend/infrastructure/upload_storage.py) and the clean-up;
--                    Uploads/Transfer, Uploads/Access, Uploads/Cleanup: their rules
--   Email            transports and messages of backend/infrastructure/email; Email/Outage: a server down
--   Migration        alembic/versions over any database engine; Migration/Accounts, Migration/Billing and
--                    Migration/Initial: the operations; Migration/Repeat: what a downgrade leaves
--   Startup          lifespan, hooks and seeds of a server; Startup/Seeds: the rows that it then has
--   Tests            the theorems at concrete inputs, and runs
--
-- A definition is named like the function it follows. The database is the list of its rows in the
-- order of insertion: `scalar_one_or_none` fails on two rows, `order_by(id.desc()).limit(1)` is
-- the last row. Unique and primary keys are checked where the code can meet them, foreign keys are
-- not. The session's identity map is not modelled: a changed attribute is a changed row. A loop of
-- the code runs over a list or a given number of times and is a recursion on that, so no fuel is
-- needed. The endless loop of the job manager is a number of turns, and `worker_drains` says how
-- many are enough; jobs and requests that run at the same time are sequences of the steps of
-- `Jobs.Steps.Step`.
--
-- Parameters, since their code is elsewhere: bcrypt (`verify_password`, `hash_password`), `uuid4`
-- (the tokens drawn, in order), `token_urlsafe`, `strip().lower()`, the answers of webhook
-- endpoints, the check of a webhook's signature, Redis, the ASGI application behind a middleware,
-- `ilike`, `ORDER BY` and the order of rows without it in the pages of users, `json.loads` and
-- `json.dumps`, the notification port, the mail server, HMAC-SHA256, PBKDF2, `int` and `lower` of
-- a text, white space, the files of the server, pydantic's reading of the variables, and the
-- database engine of the migration with the laws of CREATE TABLE and DROP TABLE. The row of an
-- upload is a parameter too, because backend/domain/uploads/model.py, which the routes import, is
-- not in the repository. A JWT is its claims. The keys of tokens and the keys of indices are two
-- types here, while in Redis they share one space: a token that begins with `by-user:` or
-- `access-by-user:` is outside of the model.
--
-- Not modelled: RedisJobQueue and its worker, which never reach Redis (they call an asynchronous
-- client without awaiting it); the clients of S3 and Azure, whose objects are a list; the events
-- of Socket.IO but for its connection (Auth/Sockets); logging, tracing, health checks and the
-- exporter, which are calls of libraries and services; the script that fills a database;
-- alembic/env.py; pydantic's own validation of requests but for the password pattern; a Redis that
-- does not answer, but for the tokens and the limiter around every request; RedisRateLimiter in
-- front of single routes, whose limits are those of the process; RedisIdempotencyStore in front of
-- the payment webhook.
pub mod Base
pub mod Database
pub mod Server
pub mod Users
pub mod Rbac
pub mod Admin
pub mod Resilience
pub mod Billing
pub mod Tokens
pub mod Auth
pub mod ApiKeys
pub mod Webhooks
pub mod Events
pub mod Registration
pub mod Profile
pub mod Jobs
pub mod RequestSize
pub mod Products
pub mod AuditLog
pub mod Metrics
pub mod RequestContext
pub mod Config
pub mod Migration
pub mod Uploads
pub mod Email
pub mod Startup
pub mod Tests
