-- ===== src/Tests/Data.antt =====
-- A small server: two administrators, a staff role with one permission, and an open account.
use enterprise_fast_api_boil.Base.{ℕ, String, true, false, none, List, [], ◌∷◌, max, ◌+◌}
use enterprise_fast_api_boil.Database.{User, Role, Permission, Db}
use enterprise_fast_api_boil.Server.{Server}
use enterprise_fast_api_boil.Rbac.Queries.{Actor}

abbrev pub account : ℕ → String → String → User
account id email role = record {
  id = id;
  email = email;
  username = email;
  hashed_password = "secret";
  is_active = true;
  is_verified = true;
  is_superuser = false;
  failed_login_attempts = 0;
  locked_until = none;
  role = role;
  permissions = [];
  updated_at = 0;
  deleted_at = none;
}

abbrev pub ann : User
ann = record (account 1 "ann@example.org" "admin") { permissions = "rbac.manage" ∷ [] }

abbrev pub bob : User
bob = account 2 "bob@example.org" "admin"

abbrev pub cy : User
cy = account 3 "cy@example.org" "user"

abbrev pub as_actor : User → Actor
as_actor u = record { user = u; api_key_scopes = none }

abbrev pub role : ℕ → String → Role
role id key = record { id = id; key = key; name = key; description = none; is_system = true }

abbrev pub permission : ℕ → String → Permission
permission id key = record { id = id; key = key; name = key; description = none }

abbrev pub tables : Db
tables = record {
  users = ann ∷ bob ∷ cy ∷ [];
  roles = role 1 "admin" ∷ role 2 "user" ∷ role 3 "staff" ∷ [];
  permissions = permission 1 "rbac.manage" ∷ permission 2 "audit.view" ∷ [];
  role_permissions =
      record { role_id = 1; permission_id = 1 } ∷ record { role_id = 3; permission_id = 1 } ∷ [];
  user_roles = record { user_id = 2; role_id = 1 } ∷ record { user_id = 2; role_id = 3 } ∷ [];
  api_keys = [];
  plans = [];
  features = [];
  plan_features = [];
  subscriptions = [];
  invoices = [];
  notifications = [];
  payment_events = [];
  webhook_endpoints = [];
  webhook_deliveries = [];
  products = [];
  audit_log_entries = [];
}

abbrev largest : List ℕ → ℕ
largest [] = 0
largest (x ∷ xs) = max x (largest xs)

abbrev pub server : Server
server = record {
  durable = tables;
  work = tables;
  rbac_seeded = true;
  billing_seeded = true;
  settings = record {
    subscriptions_enabled = true;
    payment_providers_enabled = "stripe" ∷ [];
    disabled_features = [];
    is_dev = false;
  };
  jobs = [];
  audit = [];
  idempotency = [];
  assign_id = λ ids. largest ids + 1;
  row_order = λ skip limit rows. rows;
}
