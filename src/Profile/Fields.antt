-- ===== src/Profile/Fields.antt =====
-- `UserUpdate` of backend/common/schema.py, after validation: which fields the request carries.
use enterprise_fast_api_boil.Base.{
  ℕ, String, Bool, true, false, ◌&&◌, ◌||◌, Option, none, some, List, ◌=s◌, if◌then◌else◌,
}
use enterprise_fast_api_boil.Database.{User}

pub data Field (A : Type 0) : Type 0 where
  unset null : Field A
  given : A → Field A

pub record UserUpdate : Type 0 where
  pub email : Field String
  pub username : Field String
  pub password : Field String
  pub is_superuser : Field Bool
  pub is_active : Field Bool
  pub role : Field String
  pub permissions : Field (List String)

module _ {A : Type 0} where
  abbrev pub is_unset : Field A → Bool
  is_unset unset = true
  is_unset null = false
  is_unset (given _) = false

  abbrev pub is_null : Field A → Bool
  is_null unset = false
  is_null null = true
  is_null (given _) = false

  -- The value of the column after `setattr`, for a value that the column takes.
  abbrev pub value_or : A → Field A → A
  value_or old unset = old
  value_or old null = old
  value_or old (given new) = new

-- A null in a column that is not nullable.
unfoldable pub has_null : UserUpdate → Bool
has_null p =
    is_null p.email
    || is_null p.username
    || is_null p.is_superuser
    || is_null p.is_active
    || is_null p.role

-- `not update_data`
unfoldable pub is_empty : UserUpdate → Bool
is_empty p =
    is_unset p.email
    && is_unset p.username
    && is_unset p.password
    && is_unset p.is_superuser
    && is_unset p.is_active
    && is_unset p.role
    && is_unset p.permissions

-- `update_data.pop(field, None)` for the fields that only a superuser may set
abbrev pub own_fields : UserUpdate → UserUpdate
own_fields p = record p {
  is_superuser = unset;
  is_active = unset;
  role = unset;
  permissions = unset;
}

-- `for field, value in update_data.items(): setattr(db_obj, field, value)`
abbrev pub with_fields : ℕ → UserUpdate → User → User
with_fields now p u = record u {
  email = value_or u.email p.email;
  username = value_or u.username p.username;
  is_superuser = value_or u.is_superuser p.is_superuser;
  is_active = value_or u.is_active p.is_active;
  role = value_or u.role p.role;
  permissions = value_or u.permissions p.permissions;
  updated_at = now;
}

-- `payload.email and payload.email != user.email`
abbrev pub wanted : Field String → String → Option String
wanted unset old = none
wanted null old = none
wanted (given new) old = if new =s "" || new =s old then none else some new
