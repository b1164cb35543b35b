-- ===== src/ApiKeys/Routes.antt =====
-- The routes of backend/app/api/v1/api_keys/router.py, with what they show of a key
-- (backend/contracts/api_keys_contracts.py): its hash is never shown, its secret once. The time of
-- its creation is not kept in the model.
use enterprise_fast_api_boil.Base.{ℕ, String, Option, List, map}
use enterprise_fast_api_boil.Base.Outcome.{
  value_error, http, Outcome, err, as_http, Exec, pure, ◌>>=◌,
}
use enterprise_fast_api_boil.Database.{User, ApiKey}
use enterprise_fast_api_boil.Server.{Server}
use enterprise_fast_api_boil.ApiKeys.{list_for_owner, issue_key, revoke_key}

pub record ApiKeyCreate : Type 0 where
  pub name : String
  pub scopes : List String
  pub expires_at : Option ℕ

pub record ApiKeyCreated : Type 0 where
  pub id : ℕ
  pub owner_id : ℕ
  pub name : String
  pub key_prefix : String
  pub raw_secret : String
  pub scopes : List String
  pub expires_at : Option ℕ

pub record ApiKeyOut : Type 0 where
  pub id : ℕ
  pub owner_id : ℕ
  pub name : String
  pub key_prefix : String
  pub scopes : List String
  pub expires_at : Option ℕ
  pub last_used_at : Option ℕ
  pub revoked_at : Option ℕ

abbrev pub key_created : ApiKey → String → ApiKeyCreated
key_created k raw_secret = record {
  id = k.id;
  owner_id = k.owner_id;
  name = k.name;
  key_prefix = k.key_prefix;
  raw_secret = raw_secret;
  scopes = k.scopes;
  expires_at = k.expires_at;
}

abbrev pub key_out : ApiKey → ApiKeyOut
key_out k = record {
  id = k.id;
  owner_id = k.owner_id;
  name = k.name;
  key_prefix = k.key_prefix;
  scopes = k.scopes;
  expires_at = k.expires_at;
  last_used_at = k.last_used_at;
  revoked_at = k.revoked_at;
}

-- POST /api-keys/
unfoldable pub post_key :
    (String → String) → String → User → ApiKeyCreate → Exec Server ApiKeyCreated
unfolding issue_key
post_key hash drawn user payload s =
    let (r, s') =
      (do
        issued ← issue_key hash drawn user payload.name payload.scopes payload.expires_at
        pure (key_created issued.0 issued.1))
        s in
    (as_http r, s')

-- GET /api-keys/
unfoldable pub get_keys : User → Exec Server (List ApiKeyOut)
unfolding list_for_owner
get_keys user = do keys ← list_for_owner user.id; pure (map key_out keys)

-- `except ValueError`, and then `except DomainError`
abbrev pub key_errors : {A : Type 0} → Outcome A → Outcome A
key_errors (err (value_error m)) = err (http 404 m)
key_errors r = as_http r

-- DELETE /api-keys/{key_id}
unfoldable pub delete_key : ℕ → ℕ → User → Exec Server (Unit {0})
unfolding revoke_key
delete_key now key_id user s = let (r, s') = revoke_key now key_id user s in (key_errors r, s')
