-- ===== src/ApiKeys.antt =====
-- API keys: backend/domain/api_keys/service.py, backend/domain/api_keys/repository.py,
-- backend/application/api_keys/use_cases.py, backend/app/api/v1/api_keys/router.py and the branch of
-- `get_current_user` for the header X-API-Key. `hash` and `check` are bcrypt's, and the secret that
-- `secrets.token_urlsafe` draws is an argument.
pub mod Issued
pub mod Routes
use Prim.Native.String.{[] as end, ◌∷◌ as ◌+>◌}
use enterprise_fast_api_boil.Base.{
  ℕ, zero, suc, String, Bool, true, false, not, ◌&&◌, Option, none, some, List, [], ◌∷◌, ◌++◌, map,
  select, take, leb, ◌==◌, ◌=s◌, if◌then◌else◌,
}
use enterprise_fast_api_boil.Base.Outcome.{
  http, value_error, Error, Outcome, ok, err, Exec, pure, raise, raise_if, gets, or_raise,
  scalar_one_or_none, ◌>>=◌, ◌>>◌,
}
use enterprise_fast_api_boil.Database.{User, ApiKey, Db}
use enterprise_fast_api_boil.Server.{Server, edit, log}
use enterprise_fast_api_boil.Users.{get_by_id}
use enterprise_fast_api_boil.Rbac.Queries.{Actor}

-- `raw_key[:n]`
abbrev pub first : ℕ → String → String
first zero s = ""
first (suc n) end = ""
first (suc n) (c +> s) = c +> first n s

abbrev pub key_prefix_of : String → String
key_prefix_of raw_key = first 8 raw_key

abbrev pub has_prefix : String → ApiKey → Bool
has_prefix prefix k = k.key_prefix =s prefix

unfoldable pub get_by_prefix : String → Exec Server (Option ApiKey)
get_by_prefix prefix s = (scalar_one_or_none (select (has_prefix prefix) s.work.api_keys), s)

-- A change of the attributes of one key.
unfoldable pub update_key : ℕ → (ApiKey → ApiKey) → List ApiKey → List ApiKey
update_key i f [] = []
update_key i f (k ∷ ks) = if k.id == i then f k ∷ update_key i f ks else k ∷ update_key i f ks

abbrev pub save_key : ℕ → (ApiKey → ApiKey) → Exec Server (Unit {0})
save_key i f = edit (λ db. record db { api_keys = update_key i f db.api_keys })

-- `ApiKeyRepository.list_for_owner` with its defaults.
unfoldable pub list_for_owner : ℕ → Exec Server (List ApiKey)
list_for_owner owner_id = gets (λ s. take 100 (
    select (λ k. k.owner_id == owner_id && (elim k.revoked_at [ none ↦ true | some t ↦ false ]))
      s.work.api_keys))

abbrev pub is_revoked_key : ApiKey → Bool
is_revoked_key k = elim k.revoked_at [ none ↦ false | some t ↦ true ]

abbrev pub is_expired : ℕ → ApiKey → Bool
is_expired now k = elim k.expires_at [ none ↦ false | some t ↦ leb t now ]

module _ (hash : String → String) where
  abbrev pub new_key : ℕ → ℕ → String → List String → Option ℕ → String → ApiKey
  new_key id owner_id name scopes expires_at raw_secret = record {
    id = id;
    owner_id = owner_id;
    name = name;
    key_prefix = key_prefix_of raw_secret;
    hashed_secret = hash raw_secret;
    scopes = scopes;
    expires_at = expires_at;
    last_used_at = none;
    revoked_at = none;
  }

  -- `ApiKeyService.issue`
  unfoldable pub issue : String → User → String → List String → Option ℕ → Exec Server ApiKey
  issue raw_secret owner name scopes expires_at = do
    id ← gets (λ s. s.assign_id (map (λ k. k.id) s.work.api_keys))
    let k = new_key id owner.id name scopes expires_at raw_secret
    edit (λ db. record db { api_keys = db.api_keys ++ (k ∷ []) })
    pure k

  -- `ApiKeyUseCases.issue_key`, which POST /api-keys/ calls with what the request asks for.
  unfoldable pub issue_key :
      String → User → String → List String → Option ℕ → Exec Server (ApiKey × String)
  unfolding issue
  issue_key raw_secret owner name scopes expires_at = do
    k ← issue raw_secret owner name scopes expires_at
    log "api_key.created"
    pure (k, raw_secret)

module _ (check : String → String → Bool) where
  abbrev pub check_key : ℕ → String → Option ApiKey → Exec Server (Option ApiKey)
  check_key now raw_key none = pure none
  check_key now raw_key (some k) =
      if is_revoked_key k
      then pure none
      else if is_expired now k
      then pure none
      else if not (check raw_key k.hashed_secret)
      then pure none
      else (do
        save_key k.id (λ row. record row { last_used_at = some now })
        pure (some (record k { last_used_at = some now })))

  -- `ApiKeyService.authenticate`
  unfoldable pub authenticate_key : ℕ → String → Exec Server (Option ApiKey)
  unfolding get_by_prefix
  authenticate_key now raw_key = do
    found ← get_by_prefix (key_prefix_of raw_key)
    check_key now raw_key found

  -- `get_current_user` with the header: the user, with the scopes of the key.
  unfoldable pub current_user_by_key : ℕ → String → Exec Server Actor
  unfolding authenticate_key
  current_user_by_key now raw_key = do
    found ← authenticate_key now raw_key
    k ← or_raise found (http 401 "Invalid API key")
    user ← get_by_id k.owner_id
    owner ← or_raise user (http 401 "Invalid API key")
    pure (record { user = owner; api_key_scopes = some k.scopes })

-- `get_current_active_user`
unfoldable pub require_active : Actor → Exec Server Actor
require_active actor = do raise_if (not actor.is_active) (http 400 "Inactive user"); pure actor

abbrev pub revoke_found : ℕ → User → Option ApiKey → Exec Server (Unit {0})
revoke_found now owner none = raise (value_error "api key not found")
revoke_found now owner (some k) =
    if k.owner_id == owner.id
    then (do save_key k.id (λ row. record row { revoked_at = some now }); log "api_key.revoked")
    else raise (value_error "api key not found")

-- `ApiKeyUseCases.revoke_key`
unfoldable pub revoke_key : ℕ → ℕ → User → Exec Server (Unit {0})
revoke_key now key_id owner = do
  found ← (λ s. (scalar_one_or_none (select (λ k. k.id == key_id) s.work.api_keys), s))
  revoke_found now owner found
