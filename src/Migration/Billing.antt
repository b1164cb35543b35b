-- ===== src/Migration/Billing.antt =====
-- The tables of plans, subscriptions, payments and notifications, as alembic/versions/20260704_initial_schema.py creates them.
use enterprise_fast_api_boil.Base.{false, List, [], ◌∷◌}
use enterprise_fast_api_boil.Migration.{
  integer, boolean, date_time, string, literal, sql, required, optional, unique_column, defaulted,
  Table, Operation, create_table, create_index,
}

abbrev pub plans_table : Table
plans_table = record {
  name = "plans";
  columns =
      (required "id" integer
        ∷ unique_column "key" (string 100)
        ∷ required "name" (string 150)
        ∷ defaulted "price_cents" integer (literal "0")
        ∷ defaulted "billing_interval" (string 20) (literal "month")
        ∷ defaulted "is_active" boolean (literal "true")
        ∷ defaulted "created_at" date_time (sql "CURRENT_TIMESTAMP")
        ∷ defaulted "updated_at" date_time (sql "CURRENT_TIMESTAMP")
        ∷ []);
  foreign_keys = ([]);
  primary_key = ("id" ∷ []);
  unique_constraints = ([]);
}

abbrev pub create_plans : List Operation
create_plans = (create_table plans_table ∷ create_index "ix_plans_id" "plans" "id" false ∷ [])

abbrev pub features_table : Table
features_table = record {
  name = "features";
  columns =
      (required "id" integer
        ∷ unique_column "key" (string 100)
        ∷ required "name" (string 150)
        ∷ optional "description" (string 255)
        ∷ defaulted "created_at" date_time (sql "CURRENT_TIMESTAMP")
        ∷ defaulted "updated_at" date_time (sql "CURRENT_TIMESTAMP")
        ∷ []);
  foreign_keys = ([]);
  primary_key = ("id" ∷ []);
  unique_constraints = ([]);
}

abbrev pub create_features : List Operation
create_features =
    (create_table features_table ∷ create_index "ix_features_id" "features" "id" false ∷ [])

abbrev pub plan_features_table : Table
plan_features_table = record {
  name = "plan_features";
  columns = (required "plan_id" integer ∷ required "feature_id" integer ∷ []);
  foreign_keys =
      (record { column = "plan_id"; table = "plans"; target = "id" }
        ∷ record { column = "feature_id"; table = "features"; target = "id" }
        ∷ []);
  primary_key = ("plan_id" ∷ "feature_id" ∷ []);
  unique_constraints = ([]);
}

abbrev pub create_plan_features : List Operation
create_plan_features = (create_table plan_features_table ∷ [])

abbrev pub subscriptions_table : Table
subscriptions_table = record {
  name = "subscriptions";
  columns =
      (required "id" integer
        ∷ required "user_id" integer
        ∷ required "plan_id" integer
        ∷ defaulted "status" (string 50) (literal "active")
        ∷ defaulted "provider" (string 50) (literal "manual")
        ∷ optional "trial_ends_at" date_time
        ∷ defaulted "created_at" date_time (sql "CURRENT_TIMESTAMP")
        ∷ defaulted "updated_at" date_time (sql "CURRENT_TIMESTAMP")
        ∷ []);
  foreign_keys =
      (record { column = "user_id"; table = "users"; target = "id" }
        ∷ record { column = "plan_id"; table = "plans"; target = "id" }
        ∷ []);
  primary_key = ("id" ∷ []);
  unique_constraints = ([]);
}

abbrev pub create_subscriptions : List Operation
create_subscriptions =
    (create_table subscriptions_table
      ∷ create_index "ix_subscriptions_id" "subscriptions" "id" false
      ∷ [])

abbrev pub payment_events_table : Table
payment_events_table = record {
  name = "payment_events";
  columns =
      (required "id" integer
        ∷ required "provider" (string 50)
        ∷ required "provider_event_id" (string 255)
        ∷ required "event_type" (string 100)
        ∷ required "payload" (string 4000)
        ∷ optional "processed_at" date_time
        ∷ defaulted "created_at" date_time (sql "CURRENT_TIMESTAMP")
        ∷ defaulted "updated_at" date_time (sql "CURRENT_TIMESTAMP")
        ∷ []);
  foreign_keys = ([]);
  primary_key = ("id" ∷ []);
  unique_constraints = (("provider" ∷ "provider_event_id" ∷ []) ∷ []);
}

abbrev pub create_payment_events : List Operation
create_payment_events =
    (create_table payment_events_table
      ∷ create_index "ix_payment_events_id" "payment_events" "id" false
      ∷ create_index "ix_payment_events_provider_event_id" "payment_events" "provider_event_id"
          false
      ∷ [])

abbrev pub notifications_table : Table
notifications_table = record {
  name = "notifications";
  columns =
      (required "id" integer
        ∷ required "user_id" integer
        ∷ defaulted "channel" (string 30) (literal "in_app")
        ∷ required "kind" (string 50)
        ∷ required "title" (string 150)
        ∷ required "body" (string 500)
        ∷ defaulted "is_read" boolean (literal "false")
        ∷ defaulted "created_at" date_time (sql "CURRENT_TIMESTAMP")
        ∷ defaulted "updated_at" date_time (sql "CURRENT_TIMESTAMP")
        ∷ []);
  foreign_keys = (record { column = "user_id"; table = "users"; target = "id" } ∷ []);
  primary_key = ("id" ∷ []);
  unique_constraints = ([]);
}

abbrev pub create_notifications : List Operation
create_notifications =
    (create_table notifications_table
      ∷ create_index "ix_notifications_id" "notifications" "id" false
      ∷ create_index "ix_notifications_user_id" "notifications" "user_id" false
      ∷ [])

abbrev pub invoices_table : Table
invoices_table = record {
  name = "invoices";
  columns =
      (required "id" integer
        ∷ optional "subscription_id" integer
        ∷ required "user_id" integer
        ∷ required "plan_id" integer
        ∷ defaulted "amount_cents" integer (literal "0")
        ∷ defaulted "currency" (string 3) (literal "usd")
        ∷ defaulted "status" (string 30) (literal "issued")
        ∷ optional "description" (string 255)
        ∷ defaulted "issued_at" date_time (sql "CURRENT_TIMESTAMP")
        ∷ defaulted "created_at" date_time (sql "CURRENT_TIMESTAMP")
        ∷ defaulted "updated_at" date_time (sql "CURRENT_TIMESTAMP")
        ∷ []);
  foreign_keys =
      (record { column = "subscription_id"; table = "subscriptions"; target = "id" }
        ∷ record { column = "user_id"; table = "users"; target = "id" }
        ∷ record { column = "plan_id"; table = "plans"; target = "id" }
        ∷ []);
  primary_key = ("id" ∷ []);
  unique_constraints = ([]);
}

abbrev pub create_invoices : List Operation
create_invoices =
    (create_table invoices_table
      ∷ create_index "ix_invoices_id" "invoices" "id" false
      ∷ create_index "ix_invoices_subscription_id" "invoices" "subscription_id" false
      ∷ create_index "ix_invoices_user_id" "invoices" "user_id" false
      ∷ create_index "ix_invoices_plan_id" "invoices" "plan_id" false
      ∷ [])
