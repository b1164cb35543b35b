-- ===== src/Registration/Stores.antt =====
-- `InMemoryIdempotencyStore`, `RedisIdempotencyStore` and `get_idempotency_store` of
-- backend/resilience/idempotency.py, for the answers of POST /users/. Redis is a record of SET with EX
-- and of GET with their documented laws, each at a time in seconds, and so are the two directions of
-- JSON; an outage of Redis is not modelled here.
use enterprise_fast_api_boil.Base.{
  ℕ, ◌+◌, ◌≤◌, ◌<◌, String, ◌≡◌, ◌∙◌, ap, false, ◌||◌, Option, none, some, arith, eq_refl, ◌=s◌,
  if◌then◌else◌,
}
use enterprise_fast_api_boil.Base.Dict.{Dict, text_key, get, put, get-put}
use enterprise_fast_api_boil.Users.Public.{UserOut}

-- What the route relies on.
pub record IdempotencyStore : Type 1 where
  pub State : Type 0
  pub get : ℕ → String → State → Option UserOut
  pub set : ℕ → String → UserOut → ℕ → State → State
  pub get-set_self :
      (now t : ℕ) (key : String) (out : UserOut) (ttl : ℕ) (s : State)
      → now ≤ t
      → t < now + ttl
      → get t key (set now key out ttl s) ≡ some out
  pub get-set_other :
      (now t : ℕ) (key other : String) (out : UserOut) (ttl : ℕ) (s : State)
      → (key =s other) ≡ false
      → get t other (set now key out ttl s) ≡ get t other s

-- `InMemoryIdempotencyStore`: nothing expires.
abbrev pub in_memory_store : IdempotencyStore
in_memory_store = record {
  State = Dict String UserOut;
  get = λ now key s. get key s;
  set = λ now key out ttl s. put key out s;
  get-set_self = λ now t key out ttl s le live. ground (arith, get-put key key out s, eq_refl key);
  get-set_other = λ now t key other out ttl s apart. ground (arith, get-put key other out s);
}

-- Redis with texts as values.
pub record RedisTexts : Type 1 where
  pub State : Type 0
  pub get : ℕ → String → State → Option String
  pub set : ℕ → String → String → ℕ → State → State
  pub get-set_self :
      (now t : ℕ) (key value : String) (ttl : ℕ) (s : State)
      → now ≤ t
      → t < now + ttl
      → get t key (set now key value ttl s) ≡ some value
  pub get-set_other :
      (now t : ℕ) (key other value : String) (ttl : ℕ) (s : State)
      → (key =s other) ≡ false
      → get t other (set now key value ttl s) ≡ get t other s

-- `json.dumps` of an answer, and `json.loads` with `UserOut.model_validate`.
pub record Json : Type 0 where
  pub dumps : UserOut → String
  pub loads : String → UserOut
  pub loads-dumps : (out : UserOut) → loads (dumps out) ≡ out

abbrev pub read : Json → Option String → Option UserOut
read json none = none
read json (some payload) = some (json.loads payload)

-- `RedisIdempotencyStore`
abbrev pub redis_store : RedisTexts → Json → IdempotencyStore
redis_store redis json = record {
  State = redis.State;
  get = λ now key s. read json (redis.get now key s);
  set = λ now key out ttl s. redis.set now key (json.dumps out) ttl s;
  get-set_self = λ now t key out ttl s le live.
      ap (read json) (redis.get-set_self now t key (json.dumps out) ttl s le live)
      ∙ ap some (json.loads-dumps out);
  get-set_other = λ now t key other out ttl s apart.
      ap (read json) (redis.get-set_other now t key other (json.dumps out) ttl s apart);
}

-- `get_idempotency_store`
abbrev pub get_idempotency_store : String → RedisTexts → Json → IdempotencyStore
get_idempotency_store environment redis json =
    if environment =s "dev" || environment =s "test"
    then in_memory_store
    else redis_store redis json
