-- ===== src/Migration/Initial.antt =====
-- `upgrade` and `downgrade` of alembic/versions/20260704_initial_schema.py.
use enterprise_fast_api_boil.Base.{List, [], ◌∷◌, ◌++◌}
use enterprise_fast_api_boil.Migration.{Operation, execute, drop_index, drop_table}
use enterprise_fast_api_boil.Migration.Accounts.{
  create_users, create_api_keys, create_audit_log_entries, create_webhook_endpoints,
  create_webhook_deliveries, create_products, create_roles, create_permissions,
  create_role_permissions, create_user_roles,
}
use enterprise_fast_api_boil.Migration.Billing.{
  create_plans, create_features, create_plan_features, create_subscriptions, create_payment_events,
  create_notifications, create_invoices,
}

abbrev pub insert_seed : List Operation
insert_seed =
    (execute
        "INSERT INTO roles (key, name, description, is_system) VALUES ('user', 'User', 'Default user role', 1), ('staff', 'Staff', 'Staff role', 1), ('admin', 'Admin', 'Administrative role', 1)"
      ∷ execute
          "INSERT INTO permissions (key, name, description) VALUES ('rbac.manage', 'Manage RBAC', 'Manage roles and permissions'), ('billing.manage', 'Manage Billing', 'Manage billing configuration'), ('system.billing_toggle', 'Toggle Billing System', 'Toggle billing system availability')"
      ∷ execute
          "INSERT INTO plans (key, name, price_cents, billing_interval, is_active) VALUES ('free', 'Free', 0, 'month', 1)"
      ∷ [])

-- `upgrade`
abbrev pub upgrade : List Operation
upgrade =
    create_users
    ++ (create_api_keys
        ++ (create_audit_log_entries
            ++ (create_webhook_endpoints
                ++ (create_webhook_deliveries
                    ++ (create_products
                        ++ (create_roles
                            ++ (create_permissions
                                ++ (create_role_permissions
                                    ++ (create_user_roles
                                        ++ (create_plans
                                            ++ (create_features
                                                ++ (create_plan_features
                                                    ++ (create_subscriptions
                                                        ++ (create_payment_events
                                                            ++ (create_notifications
                                                            ++ (create_invoices
                                                            ++ (insert_seed)))))))))))))))))

-- `downgrade`
abbrev pub downgrade : List Operation
downgrade =
    (drop_index "ix_notifications_user_id" "notifications"
      ∷ drop_index "ix_notifications_id" "notifications"
      ∷ drop_table "notifications"
      ∷ drop_index "ix_invoices_plan_id" "invoices"
      ∷ drop_index "ix_invoices_user_id" "invoices"
      ∷ drop_index "ix_invoices_subscription_id" "invoices"
      ∷ drop_index "ix_invoices_id" "invoices"
      ∷ drop_table "invoices"
      ∷ drop_index "ix_payment_events_provider_event_id" "payment_events"
      ∷ drop_index "ix_payment_events_id" "payment_events"
      ∷ drop_table "payment_events"
      ∷ drop_index "ix_subscriptions_id" "subscriptions"
      ∷ drop_table "subscriptions"
      ∷ drop_table "plan_features"
      ∷ drop_index "ix_features_id" "features"
      ∷ drop_table "features"
      ∷ drop_index "ix_plans_id" "plans"
      ∷ drop_table "plans"
      ∷ drop_table "user_roles"
      ∷ drop_table "role_permissions"
      ∷ drop_index "ix_permissions_key" "permissions"
      ∷ drop_index "ix_permissions_id" "permissions"
      ∷ drop_table "permissions"
      ∷ drop_index "ix_roles_key" "roles"
      ∷ drop_index "ix_roles_id" "roles"
      ∷ drop_table "roles"
      ∷ drop_index "ix_products_name" "products"
      ∷ drop_index "ix_products_id" "products"
      ∷ drop_table "products"
      ∷ drop_index "ix_users_username" "users"
      ∷ drop_index "ix_users_email" "users"
      ∷ drop_index "ix_users_id" "users"
      ∷ drop_table "users"
      ∷ [])
