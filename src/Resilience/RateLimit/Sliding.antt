-- ===== src/Resilience/RateLimit/Sliding.antt =====
-- What the limiter over Redis counts.
use mathlib.Core.Path.{subst}
use mathlib.Core.List.{append-nil, append_assoc}
use enterprise_fast_api_boil.Base.{
  ℕ, suc, ◌+◌, ◌-◌, ◌≤◌, ◌<◌, ◌≡◌, refl, sym, ap, ◌∙◌, false, not, List, [], ◌∷◌, ◌++◌, map, length,
  select, count, All, ltb, leb, arith, Bool-cases, inl, inr, length-append, length-select,
  if◌then◌else◌,
}
use enterprise_fast_api_boil.Base.Dict.{pair_eq, pair_eq_iff}
use enterprise_fast_api_boil.Base.Outcome.{ok}
use enterprise_fast_api_boil.Resilience.RateLimit.{ClientPath, window, recent}
use enterprise_fast_api_boil.Resilience.RateLimit.Window.{
  Request, alive, count-append, count-recent, alive_below, All-snoc,
}
use enterprise_fast_api_boil.Resilience.RateLimit.Redis.{
  Scored, SortedSets, RedisRateLimiter, is_between, has_member, trim, execute, redis_allow_request,
  answers,
}

-- Every request has its own time, after those before it.
abbrev pub Later : ℕ → List Request → Type 0
Later last [] = Unit
Later last (r ∷ rs) = (last < r.now) × Later r.now rs

-- The times of all requests of a key, also of those that were refused.
abbrev pub sent : ClientPath → List Request → List ℕ
sent k [] = []
sent k (r ∷ rs) = let rest = sent k rs in if pair_eq r.key k then r.now ∷ rest else rest

abbrev scored : List ℕ → List Scored
scored ts = map (λ t. (t, t)) ts

scored-snoc : (ts : List ℕ) (t : ℕ) → scored ts ++ ((t, t) ∷ []) ≡ scored (ts ++ (t ∷ []))
scored-snoc [] t = refl
scored-snoc (u ∷ ts) t = λ i. (u, u) ∷ scored-snoc ts t i

length-scored : (ts : List ℕ) → length (scored ts) ≡ length ts
length-scored [] = refl
length-scored (t ∷ ts) = ap suc (length-scored ts)

-- A time after all others is no member, and has a score above theirs.
has_member-scored :
    (last now : ℕ) (ts : List ℕ)
    → last < now
    → All (λ t. t ≤ last) ts
    → has_member now (scored ts) ≡ false
has_member-scored last now [] h all = refl
has_member-scored last now (t ∷ ts) h (p, ps) = ground (arith, has_member-scored last now ts h ps)

scores_below :
    (last now : ℕ) (ts : List ℕ)
    → last < now
    → All (λ t. t ≤ last) ts
    → All (λ (x : Scored). x.1 < now) (scored ts)
scores_below last now [] h all = tt
scores_below last now (t ∷ ts) h (p, ps) = (omega arith, scores_below last now ts h ps)

-- What the trim leaves is what is recent.
select-scored :
    (now : ℕ) (ts : List ℕ)
    → window ≤ now
    → select (λ x. not (is_between 0 (now - window) x)) (scored ts) ≡ scored (recent now ts)
unfolding recent
select-scored now [] h = refl
select-scored now (t ∷ ts) h = ground (arith, select-scored now ts h)

recent_all : (now : ℕ) (ts : List ℕ) → now < window → recent now ts ≡ ts
unfolding recent
recent_all now [] h = refl
recent_all now (t ∷ ts) h = ground (arith, recent_all now ts h)

recent_below :
    (now last : ℕ) (ts : List ℕ) → All (λ t. t ≤ last) ts → All (λ t. t ≤ last) (recent now ts)
unfolding recent
recent_below now last [] all = tt
recent_below now last (t ∷ ts) (p, ps) = elim (Bool-cases (ltb now (t + window))) [
  | inl young ↦ rw young (p, recent_below now last ts ps)
  | inr old ↦ rw old (recent_below now last ts ps)
]

length-recent : (now : ℕ) (ts : List ℕ) → length (recent now ts) ≡ count (alive now) ts
unfolding recent
length-recent now ts = length-select (alive now) ts

-- After a window without requests nothing is left that counts.
none_alive :
    (now t : ℕ) (ts : List ℕ) → All (λ u. u ≤ now) ts → now + window ≤ t → count (alive t) ts ≡ 0
none_alive now t [] all h = refl
none_alive now t (u ∷ ts) (p, ps) h = ground (arith, none_alive now t ts ps h)

module _ (redis : SortedSets) where
  pub run : List Request → RedisRateLimiter redis → RedisRateLimiter redis
  run [] d = d
  run (r ∷ rs) d = run rs (redis_allow_request redis answers r.now r.key r.limit d).1

  zrange-trim_self :
      (now : ℕ) (k : ClientPath) (s : redis.State) (ts : List ℕ)
      → redis.zrange now k s ≡ scored ts
      → redis.zrange now k (trim redis now k s) ≡ scored (recent now ts)
  zrange-trim_self now k s ts shown = elim (Bool-cases (ltb now window)) [
    | inl early ↦ rw early (shown ∙ ap scored (sym (recent_all now ts (ground arith))))
    | inr late ↦ rw late (
        redis.zrange-zremrangebyscore_self now k 0 (now - window) s
        ∙ rw shown (select-scored now ts (ground arith)))
  ]

  zrange-trim_other :
      (now t : ℕ) (k j : ClientPath) (s : redis.State)
      → pair_eq k j ≡ false
      → redis.zrange t j (trim redis now k s) ≡ redis.zrange t j s
  zrange-trim_other now t k j s ne = elim (Bool-cases (ltb now window)) [
    | inl early ↦ rw early refl
    | inr late ↦ rw late (redis.zrange-zremrangebyscore_other now t k j 0 (now - window) s ne)
  ]

  zrange-added :
      (last now : ℕ) (k : ClientPath) (s : redis.State) (ts : List ℕ)
      → last < now
      → All (λ t. t ≤ last) ts
      → redis.zrange now k s ≡ scored ts
      → redis.zrange now k (redis.zadd now k now now (trim redis now k s))
        ≡ scored (recent now ts ++ now ∷ [])
  zrange-added last now k s ts h past shown =
      let young = recent now ts in
      let trimmed = zrange-trim_self now k s ts shown in
      let below = recent_below now last ts past in
      redis.zrange-zadd_last now k now now (trim redis now k s)
        (rw trimmed (has_member-scored last now young h below))
        (rw trimmed (scores_below last now young h below))
      ∙ ap (λ xs. xs ++ (now, now) ∷ []) trimmed
      ∙ scored-snoc young now

  -- The sorted set of a key at a time against the times of its requests: it holds all that count.
  record Shown (k : ClientPath) (last : ℕ) (hist : List ℕ) (s : redis.State) (t : ℕ) : Type 0 where
    held : List ℕ
    shown : redis.zrange t k s ≡ scored held
    past : All (λ u. u ≤ last) held
    kept : (u : ℕ) → t ≤ u → count (alive u) held ≡ count (alive u) hist

  -- At any time from the last request on.
  abbrev Shows : ClientPath → ℕ → List ℕ → redis.State → Type 0
  Shows k last hist s = (t : ℕ) → last ≤ t → Shown k last hist s t

  count-sent :
      (last now u : ℕ) (k : ClientPath) (hist : List ℕ) (s : redis.State)
      (inv : Shown k last hist s now)
      → now ≤ u
      → count (alive u) (recent now inv.held ++ now ∷ []) ≡ count (alive u) (hist ++ now ∷ [])
  count-sent last now u k hist s inv le = ground (
    arith,
    inv.kept u,
    count-recent now u inv.held le,
    count-append (alive u) hist (now ∷ []),
    count-append (alive u) (recent now inv.held) (now ∷ []),
  )

  Shows-mine :
      (k : ClientPath) (last now : ℕ) (hist : List ℕ) (s : redis.State)
      → last < now
      → Shows k last hist s
      → Shows k now (hist ++ now ∷ []) (execute redis now k s).1
  unfolding execute
  Shows-mine k last now hist s h shows t le =
      let inv = shows now (omega arith) in
      let young = recent now inv.held in
      let added = redis.zadd now k now now (trim redis now k s) in
      let below : All (λ u. u ≤ now) (young ++ now ∷ []) =
        All-snoc now young
          (alive_below last now young (omega arith) (recent_below now last inv.held inv.past)) in
      elim (Bool-cases (ltb t (now + window))) [
        | inl soon ↦ record {
          held = young ++ now ∷ [];
          shown =
              redis.zrange-expire_soon now t k window added le (ground arith)
              ∙ zrange-added last now k s inv.held h inv.past inv.shown;
          past = below;
          kept = λ u later. count-sent last now u k hist s inv (omega arith);
        }
        | inr over ↦ record {
          held = [];
          shown = redis.zrange-expire_over now t k window added (ground arith);
          past = tt;
          kept = λ u later.
              sym (none_alive now u (young ++ now ∷ []) below (ground arith))
              ∙ count-sent last now u k hist s inv (omega arith);
        }
      ]

  Shows-other :
      (k key : ClientPath) (last now : ℕ) (hist : List ℕ) (s : redis.State)
      → last < now
      → pair_eq key k ≡ false
      → Shows k last hist s
      → Shows k now hist (execute redis now key s).1
  unfolding execute
  Shows-other k key last now hist s h other shows t le =
      let inv = shows t (omega arith) in
      record {
        held = inv.held;
        shown =
            redis.zrange-expire_other now t key k window
              (redis.zadd now key now now (trim redis now key s)) other
            ∙ redis.zrange-zadd_other now t key k now now (trim redis now key s) other
            ∙ zrange-trim_other now t key k s other
            ∙ inv.shown;
        past = alive_below last now inv.held (omega arith) inv.past;
        kept = inv.kept;
      }

  answer_now :
      (k : ClientPath) (last now limit : ℕ) (hist : List ℕ) (d : RedisRateLimiter redis)
      → last < now
      → Shows k last hist d.store
      → (redis_allow_request redis answers now k limit d).0
        ≡ ok (leb (suc (count (alive now) hist)) limit)
  unfolding redis_allow_request execute
  answer_now k last now limit hist d h shows =
      let inv = shows now (omega arith) in
      let young = recent now inv.held in
      let added = redis.zadd now k now now (trim redis now k d.store) in
      let size : redis.zcard now k added ≡ suc (count (alive now) hist) =
        redis.zcard_lem now k added
        ∙ ap length (zrange-added last now k d.store inv.held h inv.past inv.shown)
        ∙ length-scored (young ++ now ∷ [])
        ∙ ground
            (arith, length-append young (now ∷ []), length-recent now inv.held, inv.kept now) in
      rw size refl

  append_snoc :
      (hist : List ℕ) (t : ℕ) (rest : List ℕ) → (hist ++ t ∷ []) ++ rest ≡ hist ++ t ∷ rest
  append_snoc hist t rest = simp append_assoc

  answer_after :
      (rs : List Request) (r : Request) (last : ℕ) (hist : List ℕ) (d : RedisRateLimiter redis)
      → Later last (rs ++ r ∷ [])
      → Shows r.key last hist d.store
      → (redis_allow_request redis answers r.now r.key r.limit (run rs d)).0
        ≡ ok (leb (suc (count (alive r.now) (hist ++ sent r.key rs))) r.limit)
  unfolding run redis_allow_request
  answer_after [] r last hist d (h, later) shows =
      rw append-nil (answer_now r.key last r.now r.limit hist d h shows)
  answer_after (q ∷ rs) r last hist d (h, later) shows =
      let d' = (redis_allow_request redis answers q.now q.key q.limit d).1 in
      elim (Bool-cases (pair_eq q.key r.key)) [
        | inl mine ↦
            rw (mine, ← append_snoc hist q.now (sent r.key rs))
              (answer_after rs r q.now (hist ++ q.now ∷ []) d' later (
                subst
                  (λ k. Shows r.key q.now (hist ++ q.now ∷ []) (execute redis q.now k d.store).1)
                  (sym ((pair_eq_iff q.key r.key).0 mine))
                  (Shows-mine r.key last q.now hist d.store h shows)))
        | inr other ↦ rw other (
            answer_after rs r q.now hist d' later
              (Shows-other r.key q.key last q.now hist d.store h other shows))
      ]

  -- As long as Redis answers and every request has a time of its own, a request after others is let
  -- through exactly where the requests of its key in the last sixty seconds, it and those that were
  -- refused among them, are at most the limit. The key is not in Redis at first.
  pub redis_allow_request_lem :
      (rs : List Request) (r : Request) (d : RedisRateLimiter redis)
      → Later 0 (rs ++ r ∷ [])
      → ((t : ℕ) → redis.zrange t r.key d.store ≡ [])
      → (redis_allow_request redis answers r.now r.key r.limit (run rs d)).0
        ≡ ok (leb (suc (count (alive r.now) (sent r.key rs))) r.limit)
  redis_allow_request_lem rs r d later empty =
      answer_after rs r 0 [] d later
        (λ t le. record { held = []; shown = empty t; past = tt; kept = λ u h. refl })
