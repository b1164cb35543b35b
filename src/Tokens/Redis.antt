-- ===== src/Tokens/Redis.antt =====
-- Redis, as far as the token store uses it: SET with EX, GET, DEL, SADD, EXPIRE and SMEMBERS, each
-- at a time in seconds, with their documented laws. The values that the program stores are
-- `str(user_id)`, `"used:" + str(user_id)` and `"revoked"`; a key is a prefix and a token.
use enterprise_fast_api_boil.Base.{
  ℕ, ◌+◌, ◌≤◌, ◌<◌, String, ◌≡◌, ◌≢◌, true, Option, none, some, List, contains,
}

pub data Value : Type 0 where
  user used : ℕ → Value
  revoked : Value

abbrev pub EntryKey : Type 0
EntryKey = String × String

-- `{prefix}:by-user:{user_id}` and `{prefix}:access-by-user:{user_id}`
pub data IndexKey : Type 0 where
  by_user access_by_user : String → ℕ → IndexKey

pub record Redis : Type 1 where
  pub State : Type 0
  pub set : ℕ → EntryKey → Value → ℕ → State → State
  pub get : ℕ → EntryKey → State → Option Value
  pub delete : EntryKey → State → State
  pub sadd : ℕ → IndexKey → String → State → State
  pub expire : ℕ → IndexKey → ℕ → State → State
  pub smembers : ℕ → IndexKey → State → List String
  pub get-set_self :
      (now t : ℕ) (k : EntryKey) (v : Value) (ttl : ℕ) (s : State)
      → now ≤ t
      → t < now + ttl
      → get t k (set now k v ttl s) ≡ some v
  pub get-set_old :
      (now t : ℕ) (k : EntryKey) (v : Value) (ttl : ℕ) (s : State)
      → now + ttl ≤ t
      → get t k (set now k v ttl s) ≡ none
  pub get-set_ne :
      (now t : ℕ) (k j : EntryKey) (v : Value) (ttl : ℕ) (s : State)
      → k ≢ j
      → get t j (set now k v ttl s) ≡ get t j s
  pub get-delete_self : (t : ℕ) (k : EntryKey) (s : State) → get t k (delete k s) ≡ none
  pub get-delete_none :
      (t : ℕ) (k j : EntryKey) (s : State) → get t j s ≡ none → get t j (delete k s) ≡ none
  pub get-sadd :
      (now t : ℕ) (k : IndexKey) (m : String) (j : EntryKey) (s : State)
      → get t j (sadd now k m s) ≡ get t j s
  pub get-expire :
      (now t : ℕ) (k : IndexKey) (ttl : ℕ) (j : EntryKey) (s : State)
      → get t j (expire now k ttl s) ≡ get t j s
  pub smembers-track :
      (now t : ℕ) (k : IndexKey) (m : String) (ttl : ℕ) (s : State)
      → now ≤ t
      → t < now + ttl
      → contains m (smembers t k (expire now k ttl (sadd now k m s))) ≡ true
  pub smembers-set :
      (now t : ℕ) (j : IndexKey) (k : EntryKey) (v : Value) (ttl : ℕ) (s : State)
      → smembers t j (set now k v ttl s) ≡ smembers t j s
