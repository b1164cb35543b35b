-- ===== src/Resilience/RateLimit/Redis.antt =====
-- `RedisRateLimiter` and `get_rate_limiter` of backend/resilience/rate_limit.py, and the limiter that
-- backend/main.py chooses. Redis is a record of the commands that the pipeline sends, each at a time
-- in microseconds, with their documented laws; a key is the pair of the client and the path, and a
-- member is the time whose text it is. An outage leaves Redis in any state.
use enterprise_fast_api_boil.Base.{
  ℕ, ◌+◌, ◌-◌, ◌≤◌, ◌<◌, String, ◌≡◌, Bool, false, not, ◌&&◌, ◌||◌, List, [], ◌∷◌, ◌++◌, length,
  select, any, All, ltb, leb, ◌==◌, ◌=s◌, if◌then◌else◌,
}
use enterprise_fast_api_boil.Base.Dict.{pair_eq}
use enterprise_fast_api_boil.Resilience.RateLimit.{
  ClientPath, Requests, window, allow_request, reset,
}
use enterprise_fast_api_boil.Base.Outcome.{Error, attribute_error, ok, err, Exec}

-- A member of a sorted set and its score.
abbrev pub Scored : Type 0
Scored = ℕ × ℕ

abbrev pub is_between : ℕ → ℕ → Scored → Bool
is_between low high (member, score) = leb low score && leb score high

abbrev pub has_member : ℕ → List Scored → Bool
has_member m set = any (λ (x : Scored). x.0 == m) set

pub record SortedSets : Type 1 where
  pub State : Type 0
  -- ZRANGE key 0 -1 WITHSCORES
  pub zrange : ℕ → ClientPath → State → List Scored
  pub zremrangebyscore : ℕ → ClientPath → ℕ → ℕ → State → State
  pub zadd : ℕ → ClientPath → ℕ → ℕ → State → State
  pub zcard : ℕ → ClientPath → State → ℕ
  pub expire : ℕ → ClientPath → ℕ → State → State
  pub zrange-zremrangebyscore_self :
      (now : ℕ) (k : ClientPath) (low high : ℕ) (s : State)
      → zrange now k (zremrangebyscore now k low high s)
        ≡ select (λ x. not (is_between low high x)) (zrange now k s)
  pub zrange-zremrangebyscore_other :
      (now t : ℕ) (k j : ClientPath) (low high : ℕ) (s : State)
      → pair_eq k j ≡ false
      → zrange t j (zremrangebyscore now k low high s) ≡ zrange t j s
  -- A new member with a score above all others is the last one.
  pub zrange-zadd_last :
      (now : ℕ) (k : ClientPath) (m score : ℕ) (s : State)
      → has_member m (zrange now k s) ≡ false
      → All (λ x. x.1 < score) (zrange now k s)
      → zrange now k (zadd now k m score s) ≡ zrange now k s ++ ((m, score) ∷ [])
  pub zrange-zadd_other :
      (now t : ℕ) (k j : ClientPath) (m score : ℕ) (s : State)
      → pair_eq k j ≡ false
      → zrange t j (zadd now k m score s) ≡ zrange t j s
  pub zcard_lem : (now : ℕ) (k : ClientPath) (s : State) → zcard now k s ≡ length (zrange now k s)
  pub zrange-expire_soon :
      (now t : ℕ) (k : ClientPath) (ttl : ℕ) (s : State)
      → now ≤ t
      → t < now + ttl
      → zrange t k (expire now k ttl s) ≡ zrange now k s
  pub zrange-expire_over :
      (now t : ℕ) (k : ClientPath) (ttl : ℕ) (s : State)
      → now + ttl ≤ t
      → zrange t k (expire now k ttl s) ≡ []
  pub zrange-expire_other :
      (now t : ℕ) (k j : ClientPath) (ttl : ℕ) (s : State)
      → pair_eq k j ≡ false
      → zrange t j (expire now k ttl s) ≡ zrange t j s

-- `get_rate_limiter`
pub data Chosen : Type 0 where
  shared_rate_limiter redis_rate_limiter : Chosen

abbrev pub get_rate_limiter : String → Chosen
get_rate_limiter environment =
    if environment =s "dev" || environment =s "test"
    then shared_rate_limiter
    else redis_rate_limiter

-- What is raised where the fallback is counted: the collector never gets that attribute.
abbrev pub no_fallback_count : Error
no_fallback_count =
    attribute_error "'MetricsCollector' object has no attribute 'rate_limiter_fallbacks'"

abbrev pub no_reset : Error
no_reset = attribute_error "'RedisRateLimiter' object has no attribute 'reset'"

module _ (redis : SortedSets) where
  -- A limiter with the Redis that it uses, and its `_fallback`.
  pub record RedisRateLimiter : Type 0 where
    pub store : redis.State
    pub fallback : Requests

  -- The first command: a range that ends below zero holds nothing.
  abbrev pub trim : ℕ → ClientPath → redis.State → redis.State
  trim now key s = if ltb now window then s else redis.zremrangebyscore now key 0 (now - window) s

  -- The pipeline, with the answer of its third command.
  unfoldable pub execute : ℕ → ClientPath → redis.State → ℕ × redis.State
  execute now key s =
      let added = redis.zadd now key now now (trim now key s) in
      (redis.zcard now key added, redis.expire now key window added)

  -- The pipeline answers, or raises and leaves Redis in some state.
  pub data RedisReply : Type 0 where
    answers : RedisReply
    raises : redis.State → RedisReply

  -- `RedisRateLimiter.allow_request`: `record_rate_limiter_fallback` raises before the fallback is asked.
  unfoldable pub redis_allow_request : RedisReply → ℕ → ClientPath → ℕ → Exec RedisRateLimiter Bool
  unfolding execute
  redis_allow_request answers now key limit r =
      let (count, s) = execute now key r.store in (ok (leb count limit), record r { store = s })
  redis_allow_request (raises s) now key limit r = (err no_fallback_count, record r { store = s })

  -- `rate_limiter` of backend/main.py
  pub data Limiter : Type 0 where
    shared : Requests → Limiter
    over_redis : RedisRateLimiter → Limiter

  abbrev pub choose_limiter : String → redis.State → Limiter
  choose_limiter environment s =
      if environment =s "dev" then shared [] else over_redis (record { store = s; fallback = [] })

  -- `rate_limiter.allow_request`
  unfoldable pub allow : RedisReply → ℕ → ClientPath → ℕ → Exec Limiter Bool
  unfolding redis_allow_request allow_request
  allow reply now key limit (shared requests) =
      let (answer, requests') = allow_request now key limit requests in
      (ok answer, shared requests')
  allow reply now key limit (over_redis r) =
      let (answer, r') = redis_allow_request reply now key limit r in (answer, over_redis r')

  -- `rate_limiter.reset()`, which only the limiter in memory has
  abbrev pub reset_limiter : Exec Limiter (Unit {0})
  reset_limiter (shared requests) = (ok tt, shared reset)
  reset_limiter (over_redis r) = (err no_reset, over_redis r)
