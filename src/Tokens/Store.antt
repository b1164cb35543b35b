-- ===== src/Tokens/Store.antt =====
-- `TokenStore`: every call goes to Redis and, where Redis does not answer, in development to a
-- dictionary of the process, and elsewhere it fails.
use enterprise_fast_api_boil.Base.{
  ℕ, suc, ◌*◌, min, String, Bool, true, false, Option, none, some, List, [], ◌∷◌, contains, ◌==◌,
  ◌=s◌, if◌then◌else◌,
}
use enterprise_fast_api_boil.Base.Dict
use enterprise_fast_api_boil.Base.Dict.{Dict, Key, pair_key}
use enterprise_fast_api_boil.Base.Outcome.{
  Error, store_unavailable, value_error, ok, err, Exec, pure, raise, ◌>>=◌, ◌>>◌,
}
use enterprise_fast_api_boil.Tokens.Redis.{
  Redis, Value, user, used, revoked, EntryKey, IndexKey, by_user, access_by_user,
}

-- `_memory_store`: the values of the keys, and the sets of the indices.
pub record Memory : Type 0 where
  pub values : Dict EntryKey Value
  pub sets : IndexKey → List String

-- What the stores work on. `up` says whether Redis answers, `drawn` counts the random tokens.
pub record Cache (R : Redis) : Type 0 where
  pub redis : R.State
  pub memory : Memory
  pub up : Bool
  pub is_dev : Bool
  pub now : ℕ
  pub drawn : ℕ

abbrev pub same_index : IndexKey → IndexKey → Bool
same_index (by_user p i) (by_user q j) = if p =s q then i == j else false
same_index (access_by_user p i) (access_by_user q j) = if p =s q then i == j else false
same_index (by_user p i) (access_by_user q j) = false
same_index (access_by_user p i) (by_user q j) = false

-- `self._memory_store.setdefault(key, set()).add(token)`
abbrev pub remember_in : IndexKey → String → Memory → Memory
remember_in k token m = record m {
  sets = λ j.
      if same_index k j
      then (if contains token (m.sets j) then m.sets j else token ∷ m.sets j)
      else m.sets j;
}

-- `int("revoked")`
abbrev pub not_a_number : Error
not_a_number = value_error "invalid literal for int()"

module _ (R : Redis) where
  -- `try: <redis call>`, `except Exception: <fallback in development, else raise>`
  abbrev pub or_memory : (R.State → R.State) → (Memory → Memory) → Exec (Cache R) (Unit {0})
  or_memory call fallback c =
      if c.up
      then (ok tt, record c { redis = call c.redis })
      else if c.is_dev
      then (ok tt, record c { memory = fallback c.memory })
      else (err store_unavailable, c)

  abbrev pub track : IndexKey → String → ℕ → Exec (Cache R) (Unit {0})
  track k token ttl c =
      or_memory (λ r. R.expire c.now k ttl (R.sadd c.now k token r)) (remember_in k token) c

  module _ (prefix : String) where
    -- `_set`
    unfoldable pub set_entry : String → Value → ℕ → Exec (Cache R) (Unit {0})
    set_entry token value ttl c =
        or_memory (R.set c.now (prefix, token) value ttl)
          (λ m. record m { values = Dict.put (prefix, token) value m.values }) c

    -- `_get`, and so `get`
    unfoldable pub get_entry : String → Exec (Cache R) (Option Value)
    get_entry token c =
        if c.up
        then (ok (R.get c.now (prefix, token) c.redis), c)
        else if c.is_dev
        then (ok (Dict.get (prefix, token) c.memory.values), c)
        else (err store_unavailable, c)

    -- `_delete`, and so `delete` and `revoke`
    unfoldable pub delete_entry : String → Exec (Cache R) (Unit {0})
    delete_entry token c =
        or_memory (R.delete (prefix, token))
          (λ m. record m { values = Dict.remove (prefix, token) m.values }) c

    unfoldable pub delete_all : List String → Exec (Cache R) (Unit {0})
    delete_all [] = pure tt
    delete_all (token ∷ tokens) = do delete_entry token; delete_all tokens

    -- `revoke_all_for_user`: here the fallback to the memory is taken in every environment.
    unfoldable pub revoke_all_for_user : ℕ → Exec (Cache R) (Unit {0})
    unfolding delete_all
    revoke_all_for_user uid c =
        delete_all
          (if c.up
            then R.smembers c.now (by_user prefix uid) c.redis
            else c.memory.sets (by_user prefix uid))
          c

    -- `revoke_jti`
    unfoldable pub revoke_jti : String → Exec (Cache R) (Unit {0})
    unfolding set_entry
    revoke_jti jti = set_entry jti revoked (24 * 60 * 60)

    -- `is_revoked`
    unfoldable pub is_revoked : String → Exec (Cache R) Bool
    unfolding get_entry
    is_revoked jti = do
      value ← get_entry jti
      elim value [ some revoked ↦ pure true | _ ↦ pure false ]

    unfoldable pub track_access_token : ℕ → String → ℕ → Exec (Cache R) (Unit {0})
    track_access_token uid jti ttl = track (access_by_user prefix uid) jti ttl

    unfoldable pub revoke_each : List String → Exec (Cache R) (Unit {0})
    unfolding revoke_jti
    revoke_each [] = pure tt
    revoke_each (jti ∷ jtis) = do revoke_jti jti; revoke_each jtis

    unfoldable pub revoke_all_access_tokens_for_user : ℕ → Exec (Cache R) (Unit {0})
    unfolding revoke_each
    revoke_all_access_tokens_for_user uid c =
        revoke_each
          (if c.up
            then R.smembers c.now (access_by_user prefix uid) c.redis
            else c.memory.sets (access_by_user prefix uid))
          c

    -- `consume_password_reset_token`
    unfoldable pub consume_password_reset_token : String → Exec (Cache R) (Option ℕ)
    unfolding get_entry delete_entry
    consume_password_reset_token token = do
      value ← get_entry token
      elim value [
        | some (user uid) ↦ do delete_entry token; pure (some uid)
        | some revoked ↦ do delete_entry token; raise not_a_number
        | _ ↦ pure none
      ]

    -- `mark_refresh_token_replayed`
    unfoldable pub mark_refresh_token_replayed : String → Exec (Cache R) (Unit {0})
    unfolding get_entry set_entry
    mark_refresh_token_replayed token = do
      value ← get_entry token
      elim value [
        | some (user uid) ↦ set_entry token (used uid) 60
        | some revoked ↦ raise not_a_number
        | _ ↦ pure tt
      ]

    module _ (uuid : ℕ → String) where
      -- `str(uuid.uuid4())`
      abbrev pub draw : Exec (Cache R) String
      draw c = (ok (uuid c.drawn), record c { drawn = suc c.drawn })

      unfoldable pub add_refresh_token : ℕ → ℕ → Exec (Cache R) String
      unfolding set_entry
      add_refresh_token uid ttl = do
        token ← draw
        set_entry token (user uid) ttl
        track (by_user prefix uid) token ttl
        pure token

      unfoldable pub rotate_refresh_token : String → ℕ → ℕ → Exec (Cache R) String
      unfolding add_refresh_token
      rotate_refresh_token old_token uid ttl = do
        set_entry old_token (used uid) (min 60 ttl)
        add_refresh_token uid ttl

      unfoldable pub add_password_reset_token : ℕ → ℕ → Exec (Cache R) String
      unfolding set_entry
      add_password_reset_token uid ttl = do token ← draw; set_entry token (user uid) ttl; pure token
