-- ===== src/Profile/Routes.antt =====
-- The reading and deleting handlers of backend/app/api/v1/users/router.py, and the page numbers of
-- `PaginatedResponse` of backend/common/schema.py.
use enterprise_fast_api_boil.Base.{
  ℕ, ◌+◌, ◌-◌, ◌/◌, not, ◌&&◌, List, [], ◌∷◌, ◌++◌, map, select, ◌==◌, if◌then◌else◌,
}
use enterprise_fast_api_boil.Base.Outcome.{http, Exec, pure, gets, raise_if, or_raise, ◌>>=◌, ◌>>◌}
use enterprise_fast_api_boil.Database.{Subscription}
use enterprise_fast_api_boil.Server.{Server, log}
use enterprise_fast_api_boil.Users.{get_by_id, list_users, count_users, delete_user_row}
use enterprise_fast_api_boil.Users.Public.{UserOut, to_public}
use enterprise_fast_api_boil.Rbac.Queries.{Actor}
use enterprise_fast_api_boil.Admin.{require_role, admin_only}

pub record PaginationMeta : Type 0 where
  pub page : ℕ
  pub size : ℕ
  pub total : ℕ
  pub pages : ℕ

pub record PaginatedResponse (A : Type 0) : Type 0 where
  pub items : List A
  pub meta : PaginationMeta

-- `(skip // limit) + 1 if limit else 1` and `(total + limit - 1) // limit if limit else 1`
unfoldable pub page_meta : ℕ → ℕ → ℕ → PaginationMeta
page_meta skip limit total = record {
  page = if limit == 0 then 1 else skip / limit + 1;
  size = limit;
  total = total;
  pages = if limit == 0 then 1 else (total + limit - 1) / limit;
}

-- GET /users/
unfoldable pub list_user_page : ℕ → ℕ → Actor → Exec Server (PaginatedResponse UserOut)
unfolding require_role list_users count_users page_meta
list_user_page skip limit actor = do
  require_role actor admin_only
  users ← list_users skip limit
  total ← count_users
  log "user.list_viewed"
  pure (record { items = map to_public users; meta = page_meta skip limit total })

-- GET /users/{user_id}
unfoldable pub read_user : Actor → ℕ → Exec Server UserOut
unfolding get_by_id
read_user actor user_id = do
  found ← get_by_id user_id
  user ← or_raise found (http 404 "user not found")
  raise_if (not (user_id == actor.id) && not actor.is_superuser)
      (http 403 "Not authorized to view this user")
  pure (to_public user)

-- GET /users/me
abbrev pub read_current_user : Actor → Exec Server UserOut
read_current_user actor = pure (to_public actor.user)

pub record Export : Type 0 where
  pub user : UserOut
  pub subscriptions : List Subscription

abbrev pub reverse : {A : Type 0} → List A → List A
reverse [] = []
reverse (x ∷ xs) = reverse xs ++ (x ∷ [])

-- GET /users/me/export, the rows being stored in the order of their keys
unfoldable pub export_user_data : Actor → Exec Server Export
export_user_data actor = do
  rows ← gets (λ s. select (λ sub. sub.user_id == actor.id) s.work.subscriptions)
  pure (record { user = to_public actor.user; subscriptions = reverse rows })

-- DELETE /users/{user_id}
unfoldable pub delete_user : ℕ → Actor → ℕ → Exec Server (Unit {0})
unfolding get_by_id delete_user_row
delete_user now actor user_id = do
  found ← get_by_id user_id
  user ← or_raise found (http 404 "user not found")
  raise_if (not (user.id == actor.id) && not actor.is_superuser)
      (http 403 "Not authorized to delete this user")
  delete_user_row now user
  log "user.deleted"
