-- ===== src/Tests/Schema.antt =====
-- Databases that know only the names of their tables, and the migration run on them.
use enterprise_fast_api_boil.Base.{
  String, ◌≡◌, refl, Bool, true, false, not, ◌&&◌, Option, none, some, List, [], ◌∷◌, any, select,
  All, arith, eq_iff, ◌=s◌, if◌then◌else◌,
}
use enterprise_fast_api_boil.Migration.{
  Operation, Table, create_table, create_index, execute, drop_index, drop_table, exists_after,
  Engine, run,
}
use enterprise_fast_api_boil.Migration.Initial.{upgrade, downgrade}
use enterprise_fast_api_boil.Migration.Repeat.{left_over, dropped, upgrade_again}

abbrev has_name : String → List String → Bool
has_name n tables = any (λ m. m =s n) tables

abbrev apply_names : Operation → List String → Option (List String)
apply_names (create_table t) tables =
    if has_name t.name tables then none else some (t.name ∷ tables)
apply_names (drop_table m) tables =
    if has_name m tables then some (select (λ k. not (m =s k)) tables) else none
apply_names (create_index _ _ _ _) tables = some tables
apply_names (execute _) tables = some tables
apply_names (drop_index _ _) tables = some tables

has_name-select :
    (m n : String) (tables : List String)
    → has_name n (select (λ k. not (m =s k)) tables) ≡ (not (m =s n) && has_name n tables)
has_name-select m n [] = ground arith
has_name-select m n (k ∷ tables) =
    ground (arith, eq_iff m k, eq_iff k n, eq_iff m n, has_name-select m n tables)

has_name-apply :
    (op : Operation) (n : String) (s s' : List String)
    → apply_names op s ≡ some s'
    → has_name n s' ≡ exists_after op n (has_name n s)
has_name-apply (create_table t) n s s' h = ground arith
has_name-apply (drop_table m) n s s' h = ground (arith, has_name-select m n s)
has_name-apply (create_index _ _ _ _) n s s' h = ground arith
has_name-apply (execute _) n s s' h = ground arith
has_name-apply (drop_index _ _) n s s' h = ground arith

create-has_name :
    (t : Table) (s : List String) → has_name t.name s ≡ true → apply_names (create_table t) s ≡ none
create-has_name t s h = ground arith

abbrev names_only : Engine
names_only = record {
  State = List String;
  has_table = has_name;
  apply = apply_names;
  create_existing = create-has_name;
  has_table-apply = has_name-apply;
}

abbrev upgraded : List String
upgraded =
    "invoices" ∷ "notifications" ∷ "payment_events" ∷ "subscriptions" ∷ "plan_features" ∷ "features"
    ∷ "plans" ∷ "user_roles" ∷ "role_permissions" ∷ "permissions" ∷ "roles" ∷ "products"
    ∷ "webhook_deliveries" ∷ "webhook_endpoints" ∷ "audit_log_entries" ∷ "api_keys" ∷ "users" ∷ []

abbrev downgraded : List String
downgraded = "webhook_deliveries" ∷ "webhook_endpoints" ∷ "audit_log_entries" ∷ "api_keys" ∷ []

upgrade_empty : run names_only upgrade [] ≡ some upgraded
unfolding run
upgrade_empty = refl

downgrade_names : run names_only downgrade upgraded ≡ some downgraded
unfolding run
downgrade_names = refl

upgrade_again_example :
    All (λ n. has_name n downgraded ≡ true) left_over
    × All (λ n. has_name n downgraded ≡ false) dropped
    × (run names_only upgrade downgraded ≡ none)
upgrade_again_example =
    upgrade_again names_only [] upgraded downgraded upgrade_empty downgrade_names
