-- ===== src/Users/Public.antt =====
-- `UserOut` of backend/common/schema.py and `UserService.to_public`.
use enterprise_fast_api_boil.Base.{ℕ, String, Bool, List}
use enterprise_fast_api_boil.Database.{User}

pub record UserOut : Type 0 where
  pub id : ℕ
  pub email : String
  pub username : String
  pub is_active : Bool
  pub is_verified : Bool
  pub is_superuser : Bool
  pub role : String
  pub permissions : List String

abbrev pub to_public : User → UserOut
to_public u = record {
  id = u.id;
  email = u.email;
  username = u.username;
  is_active = u.is_active;
  is_verified = u.is_verified;
  is_superuser = u.is_superuser;
  role = u.role;
  permissions = u.permissions;
}
