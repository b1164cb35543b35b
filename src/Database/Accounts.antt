-- ===== src/Database/Accounts.antt =====
-- The rows of backend/domain/users/model.py, backend/domain/rbac/models.py and
-- backend/domain/api_keys/model.py. Times are numbers of seconds; `created_at`, which the database
-- fills in and no rule reads, is left out.
use enterprise_fast_api_boil.Base.{ℕ, String, Bool, Option, List}

pub record User : Type 0 where
  pub id : ℕ
  pub email : String
  pub username : String
  pub hashed_password : String
  pub is_active : Bool
  pub is_verified : Bool
  pub is_superuser : Bool
  pub failed_login_attempts : ℕ
  pub locked_until : Option ℕ
  pub role : String
  pub permissions : List String
  pub updated_at : ℕ
  pub deleted_at : Option ℕ

pub record Role : Type 0 where
  pub id : ℕ
  pub key : String
  pub name : String
  pub description : Option String
  pub is_system : Bool

pub record Permission : Type 0 where
  pub id : ℕ
  pub key : String
  pub name : String
  pub description : Option String

pub record RolePermission : Type 0 where
  pub role_id : ℕ
  pub permission_id : ℕ

pub record UserRole : Type 0 where
  pub user_id : ℕ
  pub role_id : ℕ

pub record ApiKey : Type 0 where
  pub id : ℕ
  pub owner_id : ℕ
  pub name : String
  pub key_prefix : String
  pub hashed_secret : String
  pub scopes : List String
  pub expires_at : Option ℕ
  pub last_used_at : Option ℕ
  pub revoked_at : Option ℕ
