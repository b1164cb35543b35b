-- ===== src/Resilience/RateLimit.antt =====
-- backend/resilience/rate_limit.py. Times are microseconds: `now - 60` is a signed number, so the
-- test `ts > now - 60` is written `now < ts + 60`.
pub mod Window
pub mod Guard
pub mod Redis
pub mod Sliding
use enterprise_fast_api_boil.Base.{
  ℕ, ◌+◌, String, Bool, true, false, Option, none, some, List, [], ◌∷◌, ◌++◌, length, select, ltb,
  leb, if◌then◌else◌,
}
use enterprise_fast_api_boil.Base.Dict.{Dict, pair_key, get, put}

abbrev pub ClientPath : Type 0
ClientPath = String × String

-- `RateLimiter._requests`
abbrev pub Requests : Type 0
Requests = Dict ClientPath (List ℕ)

-- sixty seconds
abbrev pub window : ℕ
window = 60_000_000

-- `defaultdict(list)`
abbrev pub times : Option (List ℕ) → List ℕ
times none = []
times (some ts) = ts

unfoldable pub recent : ℕ → List ℕ → List ℕ
recent now ts = select (λ t. ltb now (t + window)) ts

-- `RateLimiter.allow_request`: the list of the key is trimmed in either case.
unfoldable pub allow_request : ℕ → ClientPath → ℕ → Requests → Bool × Requests
allow_request now key limit requests =
    let kept = recent now (times (get key requests)) in
    if leb limit (length kept)
    then (false, put key kept requests)
    else (true, put key (kept ++ now ∷ []) requests)

-- `RateLimiter.reset`
abbrev pub reset : Requests
reset = []
