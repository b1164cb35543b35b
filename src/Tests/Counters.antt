-- ===== src/Tests/Counters.antt =====
-- Sorted sets in memory, and the limiter over Redis at a concrete input.
use enterprise_fast_api_boil.Base.{
  Option, none, some, ◌+◌, ltb, Bool-cases, inl, inr, true, ◌∙◌, ℕ, suc, ◌≡◌, refl, false, not,
  List, [], ◌∷◌, ◌++◌, length, select, count, leb, arith, if◌then◌else◌,
}
use enterprise_fast_api_boil.Base.Dict.{pair_eq, beq_refl, pair_key}
use enterprise_fast_api_boil.Base.Outcome.{ok}
use enterprise_fast_api_boil.Resilience.RateLimit.{ClientPath}
use enterprise_fast_api_boil.Resilience.RateLimit.Window.{Request, alive}
use enterprise_fast_api_boil.Resilience.RateLimit.Redis.{
  Scored, SortedSets, RedisRateLimiter, is_between, has_member, redis_allow_request, answers,
}
use enterprise_fast_api_boil.Resilience.RateLimit.Sliding.{sent, run, redis_allow_request_lem}
use enterprise_fast_api_boil.Tests.Limits.{ask}

-- The members of a key, and the time at which it is dropped.
abbrev Cell : Type 0
Cell = List Scored × Option ℕ

abbrev pub Sets : Type 0
Sets = ClientPath → Cell

abbrev view : ℕ → Cell → List Scored
view t (set, none) = set
view t (set, some end) = if ltb t end then set else []

abbrev left : ℕ → Option ℕ → Option ℕ
left now none = none
left now (some end) = if ltb now end then some end else none

abbrev revise : ℕ → (List Scored → List Scored) → Cell → Cell
revise now f (set, end) = (f (view now (set, end)), left now end)

abbrev change : ClientPath → (Cell → Cell) → Sets → Sets
change k f s = λ j. if pair_eq k j then f (s j) else s j

abbrev add : ℕ → ℕ → List Scored → List Scored
add m score set = if has_member m set then set else set ++ (m, score) ∷ []

pub view-revise :
    (now : ℕ) (f : List Scored → List Scored) (cell : Cell)
    → view now (revise now f cell) ≡ f (view now cell)
view-revise now f (set, none) = refl
view-revise now f (set, some end) = elim (Bool-cases (ltb now end)) [
  | inl live ↦ rw live (rw live refl)
  | inr dead ↦ rw dead refl
]

abbrev pub sorted_sets : SortedSets
sorted_sets = record {
  State = Sets;
  zrange = λ t k s. view t (s k);
  zremrangebyscore =
      λ now k low high s. change k (revise now (select (λ x. not (is_between low high x)))) s;
  zadd = λ now k m score s. change k (revise now (add m score)) s;
  zcard = λ now k s. length (view now (s k));
  expire = λ now k ttl s. change k (λ cell. (view now cell, some (now + ttl))) s;
  zrange-zremrangebyscore_self = λ now k low high s.
      rw (beq_refl k) (view-revise now (select (λ x. not (is_between low high x))) (s k));
  zrange-zremrangebyscore_other = λ now t k j low high s ne. rw ne refl;
  zrange-zadd_last = λ now k m score s new last.
      rw (beq_refl k) (view-revise now (add m score) (s k) ∙ rw new refl);
  zrange-zadd_other = λ now t k j m score s ne. rw ne refl;
  zcard_lem = λ now k s. refl;
  zrange-expire_soon = λ now t k ttl s le soon.
      let live : ltb t (now + ttl) ≡ true = ground arith in rw (beq_refl k) (rw live refl);
  zrange-expire_over = λ now t k ttl s over.
      let dead : ltb t (now + ttl) ≡ false = ground arith in rw (beq_refl k) (rw dead refl);
  zrange-expire_other = λ now t k j ttl s ne. rw ne refl;
}

abbrev limiter : RedisRateLimiter sorted_sets
limiter = record { store = λ k. ([], none); fallback = [] }

abbrev earlier : List Request
earlier = ask 1 ∷ ask 2 ∷ ask 50_000_000 ∷ ask 60_000_001 ∷ []

redis_allow_request_lem_example :
    (redis_allow_request sorted_sets answers 61_000_000
      ("10.0.0.1", "/auth/login")
      2
      (run sorted_sets earlier limiter)).0
    ≡ ok (leb (suc (count (alive 61_000_000) (sent ("10.0.0.1", "/auth/login") earlier))) 2)
redis_allow_request_lem_example =
    redis_allow_request_lem sorted_sets earlier (ask 61_000_000) limiter
      (omega arith, (omega arith, (omega arith, (omega arith, (omega arith, tt))))) (λ t. refl)

-- Two of the three earlier requests of the last minute were refused or let through, and all count.
refused_now :
    leb (suc (count (alive 61_000_000) (sent ("10.0.0.1", "/auth/login") earlier))) 2 ≡ false
unfolding pair_eq
refused_now = refl
