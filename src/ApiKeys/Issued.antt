-- ===== src/ApiKeys/Issued.antt =====
-- What an API key opens, from its issue to its revocation.
use enterprise_fast_api_boil.Base.{
  ℕ, String, ◌≡◌, refl, Bool, true, false, Option, some, List, [], ◌∷◌, ◌++◌, map, select, contains,
  ◌==◌, arith, eq_refl, Bool-cases, inl, inr,
}
use enterprise_fast_api_boil.Base.Outcome.{http, ok, err}
use enterprise_fast_api_boil.Database.{User, ApiKey}
use enterprise_fast_api_boil.Server.{Server}
use enterprise_fast_api_boil.Users.{get_by_id}
use enterprise_fast_api_boil.Rbac.Queries.{user_has_permission}
use enterprise_fast_api_boil.ApiKeys.{
  key_prefix_of, has_prefix, update_key, get_by_prefix, is_expired, new_key, issue, issue_key,
  authenticate_key, current_user_by_key, revoke_key,
}

module _ (p : String) where
  select-append_one :
      (k : ApiKey) (ks : List ApiKey)
      → select (has_prefix p) ks ≡ []
      → has_prefix p k ≡ true
      → select (has_prefix p) (ks ++ k ∷ []) ≡ k ∷ []
  select-append_one k [] none_yet mine = ground arith
  select-append_one k (x ∷ ks) none_yet mine = ground (arith, select-append_one k ks)

  select-update_key_none :
      (i : ℕ) (f : ApiKey → ApiKey) (ks : List ApiKey)
      → ((k : ApiKey) → has_prefix p (f k) ≡ has_prefix p k)
      → select (has_prefix p) ks ≡ []
      → select (has_prefix p) (update_key i f ks) ≡ []
  unfolding update_key
  select-update_key_none i f [] keep h = refl
  select-update_key_none i f (x ∷ ks) keep h =
      ground (arith, keep x, select-update_key_none i f ks keep)

  select-update_key :
      (k : ApiKey) (f : ApiKey → ApiKey) (ks : List ApiKey)
      → ((k : ApiKey) → has_prefix p (f k) ≡ has_prefix p k)
      → select (has_prefix p) ks ≡ k ∷ []
      → select (has_prefix p) (update_key k.id f ks) ≡ f k ∷ []
  unfolding update_key
  select-update_key k f [] keep h = absurd (ground arith)
  select-update_key k f (x ∷ ks) keep h = elim (Bool-cases (has_prefix p x)) [
    | inl mine ↦ ground (arith, keep x, keep k, select-update_key_none k.id f ks keep)
    | inr other ↦ ground (arith, keep x, select-update_key k f ks keep)
  ]

module _ (hash : String → String) (check : String → String → Bool) where
  abbrev pub issued : String → User → String → List String → Option ℕ → Server → ApiKey
  issued raw_secret owner name scopes expires_at s =
      new_key hash (s.assign_id (map (λ k. k.id) s.work.api_keys)) owner.id name scopes expires_at
        raw_secret

  -- The secret of a new key checks against its hash, no other key has its prefix, and the owner's row
  -- is found: issuing a key succeeds, and a request with its secret, before the key expires, acts for
  -- the owner with exactly the scopes that were asked for. For an owner that is no superuser, the
  -- request then has a permission exactly when its key is one of those scopes, whatever the owner may do.
  pub issued_key_opens :
      (raw_secret name key : String) (scopes : List String) (expires_at : Option ℕ) (now : ℕ)
      (owner : User) (s : Server)
      → check raw_secret (hash raw_secret) ≡ true
      → select (has_prefix (key_prefix_of raw_secret)) s.work.api_keys ≡ []
      → (get_by_id owner.id s).0 ≡ ok (some owner)
      → is_expired now (issued raw_secret owner name scopes expires_at s) ≡ false
      → owner.is_superuser ≡ false
      → let (r, s1) = issue_key hash raw_secret owner name scopes expires_at s in
        let (a, s2) = current_user_by_key check now raw_secret s1 in
        (r ≡ ok (issued raw_secret owner name scopes expires_at s, raw_secret))
        × (a ≡ ok (record { user = owner; api_key_scopes = some scopes }))
        × (user_has_permission s2.work (record { user = owner; api_key_scopes = some scopes }) key
            ≡ ok (contains key scopes))
  unfolding issue_key issue current_user_by_key authenticate_key get_by_prefix get_by_id
      user_has_permission
  issued_key_opens raw_secret name key scopes expires_at now owner s sound free found live plain =
      let p = key_prefix_of raw_secret in
      let k = issued raw_secret owner name scopes expires_at s in
      let one : select (has_prefix p) (s.work.api_keys ++ k ∷ []) ≡ k ∷ [] =
        select-append_one p k s.work.api_keys free (eq_refl p) in
      (refl, rw (one, live, sound, found) refl, rw plain refl)

  -- A key that is the only one of its prefix and its identifier: when its owner revokes it, that
  -- succeeds, and from then on every request with a secret of that prefix is refused with status 401.
  pub revoked_key_refused :
      (raw_key : String) (now t : ℕ) (owner : User) (k : ApiKey) (s : Server)
      → select (has_prefix (key_prefix_of raw_key)) s.work.api_keys ≡ k ∷ []
      → select (λ x. x.id == k.id) s.work.api_keys ≡ k ∷ []
      → k.owner_id ≡ owner.id
      → let (r, s1) = revoke_key now k.id owner s in
        (r ≡ ok tt)
        × (current_user_by_key check t raw_key s1 ≡ (err (http 401 "Invalid API key"), s1))
  unfolding revoke_key current_user_by_key authenticate_key get_by_prefix
  revoked_key_refused raw_key now t owner k s of_prefix of_id mine =
      let p = key_prefix_of raw_key in
      let gone =
        select-update_key p k (λ row. record row { revoked_at = some now }) s.work.api_keys
          (λ x. refl) of_prefix in
      ground (arith, of_id, mine, gone)
