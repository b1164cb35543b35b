-- ===== src/Migration/Accounts.antt =====
-- The tables of accounts, roles, products, keys and outgoing webhooks, as alembic/versions/20260704_initial_schema.py creates them.
use enterprise_fast_api_boil.Base.{true, false, List, [], ◌∷◌}
use enterprise_fast_api_boil.Migration.{
  integer, boolean, date_time, json, string, literal, sql, required, optional, unique_column,
  defaulted, Table, Operation, create_table, create_index,
}

abbrev pub users_table : Table
users_table = record {
  name = "users";
  columns =
      (required "id" integer
        ∷ required "email" (string 255)
        ∷ required "username" (string 100)
        ∷ required "hashed_password" (string 255)
        ∷ defaulted "is_active" boolean (literal "true")
        ∷ defaulted "is_verified" boolean (literal "false")
        ∷ defaulted "is_superuser" boolean (literal "false")
        ∷ defaulted "failed_login_attempts" integer (literal "0")
        ∷ optional "locked_until" date_time
        ∷ defaulted "role" (string 50) (literal "user")
        ∷ defaulted "permissions" json (sql "'[]'")
        ∷ defaulted "created_at" date_time (sql "CURRENT_TIMESTAMP")
        ∷ defaulted "updated_at" date_time (sql "CURRENT_TIMESTAMP")
        ∷ optional "deleted_at" date_time
        ∷ []);
  foreign_keys = ([]);
  primary_key = ("id" ∷ []);
  unique_constraints = ([]);
}

abbrev pub create_users : List Operation
create_users =
    (create_table users_table
      ∷ create_index "ix_users_id" "users" "id" false
      ∷ create_index "ix_users_email" "users" "email" true
      ∷ create_index "ix_users_username" "users" "username" true
      ∷ [])

abbrev pub api_keys_table : Table
api_keys_table = record {
  name = "api_keys";
  columns =
      (required "id" integer
        ∷ required "owner_id" integer
        ∷ required "name" (string 150)
        ∷ required "key_prefix" (string 50)
        ∷ required "hashed_secret" (string 255)
        ∷ defaulted "scopes" json (sql "'[]'")
        ∷ optional "expires_at" date_time
        ∷ optional "last_used_at" date_time
        ∷ optional "revoked_at" date_time
        ∷ defaulted "created_at" date_time (sql "CURRENT_TIMESTAMP")
        ∷ []);
  foreign_keys = (record { column = "owner_id"; table = "users"; target = "id" } ∷ []);
  primary_key = ("id" ∷ []);
  unique_constraints = ([]);
}

abbrev pub create_api_keys : List Operation
create_api_keys =
    (create_table api_keys_table
      ∷ create_index "ix_api_keys_id" "api_keys" "id" false
      ∷ create_index "ix_api_keys_owner_id" "api_keys" "owner_id" false
      ∷ create_index "ix_api_keys_key_prefix" "api_keys" "key_prefix" false
      ∷ [])

abbrev pub audit_log_entries_table : Table
audit_log_entries_table = record {
  name = "audit_log_entries";
  columns =
      (required "id" integer
        ∷ optional "actor_id" integer
        ∷ optional "actor_username" (string 150)
        ∷ required "action" (string 200)
        ∷ required "resource" (string 200)
        ∷ defaulted "details" json (sql "'{}'")
        ∷ optional "request_id" (string 100)
        ∷ optional "trace_id" (string 100)
        ∷ optional "method" (string 20)
        ∷ optional "path" (string 500)
        ∷ optional "status_code" integer
        ∷ defaulted "success" boolean (literal "false")
        ∷ optional "error" (string 400)
        ∷ defaulted "created_at" date_time (sql "CURRENT_TIMESTAMP")
        ∷ []);
  foreign_keys = (record { column = "actor_id"; table = "users"; target = "id" } ∷ []);
  primary_key = ("id" ∷ []);
  unique_constraints = ([]);
}

abbrev pub create_audit_log_entries : List Operation
create_audit_log_entries =
    (create_table audit_log_entries_table
      ∷ create_index "ix_audit_log_entries_id" "audit_log_entries" "id" false
      ∷ create_index "ix_audit_log_entries_actor_id" "audit_log_entries" "actor_id" false
      ∷ create_index "ix_audit_log_entries_action" "audit_log_entries" "action" false
      ∷ create_index "ix_audit_log_entries_resource" "audit_log_entries" "resource" false
      ∷ [])

abbrev pub webhook_endpoints_table : Table
webhook_endpoints_table = record {
  name = "webhook_endpoints";
  columns =
      (required "id" integer
        ∷ required "owner_id" integer
        ∷ required "name" (string 150)
        ∷ required "url" (string 2000)
        ∷ defaulted "subscribed_events" json (sql "'[]'")
        ∷ required "signing_secret" (string 255)
        ∷ defaulted "is_active" boolean (literal "true")
        ∷ defaulted "created_at" date_time (sql "CURRENT_TIMESTAMP")
        ∷ []);
  foreign_keys = (record { column = "owner_id"; table = "users"; target = "id" } ∷ []);
  primary_key = ("id" ∷ []);
  unique_constraints = ([]);
}

abbrev pub create_webhook_endpoints : List Operation
create_webhook_endpoints =
    (create_table webhook_endpoints_table
      ∷ create_index "ix_webhook_endpoints_id" "webhook_endpoints" "id" false
      ∷ create_index "ix_webhook_endpoints_owner_id" "webhook_endpoints" "owner_id" false
      ∷ [])

abbrev pub webhook_deliveries_table : Table
webhook_deliveries_table = record {
  name = "webhook_deliveries";
  columns =
      (required "id" integer
        ∷ required "endpoint_id" integer
        ∷ required "event_type" (string 100)
        ∷ required "payload" json
        ∷ defaulted "attempt_count" integer (literal "0")
        ∷ optional "last_attempt_at" date_time
        ∷ optional "last_status_code" integer
        ∷ optional "delivered_at" date_time
        ∷ defaulted "created_at" date_time (sql "CURRENT_TIMESTAMP")
        ∷ []);
  foreign_keys =
      (record { column = "endpoint_id"; table = "webhook_endpoints"; target = "id" } ∷ []);
  primary_key = ("id" ∷ []);
  unique_constraints = ([]);
}

abbrev pub create_webhook_deliveries : List Operation
create_webhook_deliveries =
    (create_table webhook_deliveries_table
      ∷ create_index "ix_webhook_deliveries_id" "webhook_deliveries" "id" false
      ∷ create_index "ix_webhook_deliveries_endpoint_id" "webhook_deliveries" "endpoint_id" false
      ∷ [])

abbrev pub products_table : Table
products_table = record {
  name = "products";
  columns =
      (required "id" integer
        ∷ required "name" (string 255)
        ∷ optional "description" (string 500)
        ∷ defaulted "price_cents" integer (literal "0")
        ∷ defaulted "created_at" date_time (sql "CURRENT_TIMESTAMP")
        ∷ defaulted "updated_at" date_time (sql "CURRENT_TIMESTAMP")
        ∷ optional "deleted_at" date_time
        ∷ []);
  foreign_keys = ([]);
  primary_key = ("id" ∷ []);
  unique_constraints = ([]);
}

abbrev pub create_products : List Operation
create_products =
    (create_table products_table
      ∷ create_index "ix_products_id" "products" "id" false
      ∷ create_index "ix_products_name" "products" "name" true
      ∷ [])

abbrev pub roles_table : Table
roles_table = record {
  name = "roles";
  columns =
      (required "id" integer
        ∷ unique_column "key" (string 100)
        ∷ required "name" (string 150)
        ∷ optional "description" (string 255)
        ∷ defaulted "is_system" boolean (literal "false")
        ∷ defaulted "created_at" date_time (sql "CURRENT_TIMESTAMP")
        ∷ defaulted "updated_at" date_time (sql "CURRENT_TIMESTAMP")
        ∷ []);
  foreign_keys = ([]);
  primary_key = ("id" ∷ []);
  unique_constraints = ([]);
}

abbrev pub create_roles : List Operation
create_roles =
    (create_table roles_table
      ∷ create_index "ix_roles_id" "roles" "id" false
      ∷ create_index "ix_roles_key" "roles" "key" false
      ∷ [])

abbrev pub permissions_table : Table
permissions_table = record {
  name = "permissions";
  columns =
      (required "id" integer
        ∷ unique_column "key" (string 100)
        ∷ required "name" (string 150)
        ∷ optional "description" (string 255)
        ∷ defaulted "created_at" date_time (sql "CURRENT_TIMESTAMP")
        ∷ defaulted "updated_at" date_time (sql "CURRENT_TIMESTAMP")
        ∷ []);
  foreign_keys = ([]);
  primary_key = ("id" ∷ []);
  unique_constraints = ([]);
}

abbrev pub create_permissions : List Operation
create_permissions =
    (create_table permissions_table
      ∷ create_index "ix_permissions_id" "permissions" "id" false
      ∷ create_index "ix_permissions_key" "permissions" "key" false
      ∷ [])

abbrev pub role_permissions_table : Table
role_permissions_table = record {
  name = "role_permissions";
  columns = (required "role_id" integer ∷ required "permission_id" integer ∷ []);
  foreign_keys =
      (record { column = "role_id"; table = "roles"; target = "id" }
        ∷ record { column = "permission_id"; table = "permissions"; target = "id" }
        ∷ []);
  primary_key = ("role_id" ∷ "permission_id" ∷ []);
  unique_constraints = ([]);
}

abbrev pub create_role_permissions : List Operation
create_role_permissions = (create_table role_permissions_table ∷ [])

abbrev pub user_roles_table : Table
user_roles_table = record {
  name = "user_roles";
  columns = (required "user_id" integer ∷ required "role_id" integer ∷ []);
  foreign_keys =
      (record { column = "user_id"; table = "users"; target = "id" }
        ∷ record { column = "role_id"; table = "roles"; target = "id" }
        ∷ []);
  primary_key = ("user_id" ∷ "role_id" ∷ []);
  unique_constraints = ([]);
}

abbrev pub create_user_roles : List Operation
create_user_roles = (create_table user_roles_table ∷ [])
