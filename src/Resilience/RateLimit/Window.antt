-- ===== src/Resilience/RateLimit/Window.antt =====
-- The limiter keeps its promise over every sliding window.
use mathlib.Core.Path.{subst₂}
use mathlib.Core.List.{append-nil, append_assoc}
use enterprise_fast_api_boil.Base.{
  ℕ, ◌+◌, ◌≤◌, ◌≡◌, refl, sym, ◌⊎◌, Bool, true, false, ◌&&◌, List, [], ◌∷◌, ◌++◌, length, count,
  All, ltb, leb, arith, if◌then◌else◌, Bool-cases, inl, inr,
}
use enterprise_fast_api_boil.Base.Dict.{pair_key, get, get-put, beq_refl, pair_eq, pair_eq_iff}
use enterprise_fast_api_boil.Resilience.RateLimit.{
  ClientPath, Requests, window, times, recent, allow_request, reset,
}

pub record Request : Type 0 where
  pub now : ℕ
  pub key : ClientPath
  pub limit : ℕ

-- The times at which requests of one key are let through, in a run of the limiter.
pub accepted : ClientPath → List Request → Requests → List ℕ
accepted k [] d = []
accepted k (r ∷ rs) d =
    let (yes_no, d') = allow_request r.now r.key r.limit d in
    let rest = accepted k rs d' in if yes_no && pair_eq r.key k then r.now ∷ rest else rest

-- The clock does not run backwards.
abbrev pub Ordered : ℕ → List Request → Type 0
Ordered last [] = Unit
Ordered last (r ∷ rs) = (last ≤ r.now) × Ordered r.now rs

-- Requests of the key are all made with one limit.
abbrev pub LimitOf : ClientPath → ℕ → List Request → Type 0
LimitOf k limit = All (λ r. pair_eq r.key k ≡ true → r.limit ≡ limit)

-- Not yet a window old at time `t`.
abbrev pub alive : ℕ → ℕ → Bool
alive t a = ltb t (a + window)

-- In the window that ends at time `t`.
abbrev pub inside : ℕ → ℕ → Bool
inside t a = alive t a && leb a t

pub count-append : (p : ℕ → Bool) (xs ys : List ℕ) → count p (xs ++ ys) ≡ count p xs + count p ys
count-append p [] ys = omega arith
count-append p (x ∷ xs) ys = ground (arith, count-append p xs ys)

count-le-length : (p : ℕ → Bool) (xs : List ℕ) → count p xs ≤ length xs
count-le-length p [] = omega arith
count-le-length p (x ∷ xs) = ground (arith, count-le-length p xs)

count-inside-le : (t : ℕ) (xs : List ℕ) → count (inside t) xs ≤ count (alive t) xs
count-inside-le t [] = omega arith
count-inside-le t (x ∷ xs) = ground (arith, count-inside-le t xs)

-- What is trimmed is no longer alive later on.
pub count-recent :
    (now t : ℕ) (xs : List ℕ) → now ≤ t → count (alive t) (recent now xs) ≡ count (alive t) xs
unfolding recent
count-recent now t [] h = refl
count-recent now t (x ∷ xs) h = ground (arith, count-recent now t xs h)

pub alive_below :
    (last now : ℕ) (xs : List ℕ) → last ≤ now → All (λ a. a ≤ last) xs → All (λ a. a ≤ now) xs
alive_below last now [] h all = tt
alive_below last now (x ∷ xs) h (p, ps) = (omega arith, alive_below last now xs h ps)

inside-alive :
    (now t : ℕ) (xs : List ℕ)
    → now ≤ t
    → All (λ a. a ≤ now) xs
    → count (inside t) xs ≡ count (alive t) xs
inside-alive now t [] h all = refl
inside-alive now t (x ∷ xs) h (p, ps) = ground (arith, inside-alive now t xs h ps)

pub All-snoc : (now : ℕ) (xs : List ℕ) → All (λ a. a ≤ now) xs → All (λ a. a ≤ now) (xs ++ now ∷ [])
All-snoc now [] all = (omega arith, tt)
All-snoc now (x ∷ xs) (p, ps) = (p, All-snoc now xs ps)

and_left : (a b : Bool) → a ≡ false → (a && b) ≡ false
and_left a b h = ground arith

and_both : (a b : Bool) → a ≡ true → b ≡ true → (a && b) ≡ true
and_both a b h k = ground arith

and_false : (a b : Bool) → b ≡ false → (a && b) ≡ false
and_false a b h = ground arith

module _ (k : ClientPath) (limit : ℕ) where
  -- `hist` are the accepted times so far: no window holds more of them than the limit, and those
  -- that still count are on the list that the limiter keeps.
  record Holds (last : ℕ) (hist : List ℕ) (d : Requests) : Type 0 where
    bounded : (t : ℕ) → count (inside t) hist ≤ limit
    kept : (t : ℕ) → last ≤ t → count (alive t) hist ≤ count (alive t) (times (get k d))
    past : All (λ a. a ≤ last) hist

  Holds-other :
      (last now : ℕ) (hist : List ℕ) (d : Requests) (key : ClientPath) (lim : ℕ)
      → last ≤ now
      → pair_eq key k ≡ false
      → Holds last hist d
      → Holds now hist (allow_request now key lim d).1
  unfolding allow_request
  Holds-other last now hist d key lim h other inv = record {
    bounded = inv.bounded;
    kept = λ t le. ground (
      arith,
      inv.kept t,
      get-put key k (recent now (times (get key d))) d,
      get-put key k (recent now (times (get key d)) ++ now ∷ []) d,
    );
    past = alive_below last now hist h inv.past;
  }

  Holds-refused :
      (last now : ℕ) (hist : List ℕ) (d : Requests)
      → last ≤ now
      → (allow_request now k limit d).0 ≡ false
      → Holds last hist d
      → Holds now hist (allow_request now k limit d).1
  unfolding allow_request
  Holds-refused last now hist d h refused inv = record {
    bounded = inv.bounded;
    kept = λ t le. ground (
      arith,
      inv.kept t,
      count-recent now t (times (get k d)) le,
      beq_refl k,
      get-put k k (recent now (times (get k d))) d,
    );
    past = alive_below last now hist h inv.past;
  }

  Holds-let_through :
      (last now : ℕ) (hist : List ℕ) (d : Requests)
      → last ≤ now
      → (allow_request now k limit d).0 ≡ true
      → Holds last hist d
      → Holds now (hist ++ now ∷ []) (allow_request now k limit d).1
  unfolding allow_request
  Holds-let_through last now hist d h passed inv = record {
    bounded = λ t. elim (Bool-cases (leb now t)) [
      | inl le ↦ ground (
        arith,
        inv.kept t,
        count-inside-le t hist,
        count-append (inside t) hist (now ∷ []),
        count-recent now t (times (get k d)),
        count-le-length (alive t) (recent now (times (get k d))),
      )
      | inr gt ↦ ground (arith, inv.bounded t, count-append (inside t) hist (now ∷ []))
    ];
    kept = λ t le. ground (
      arith,
      inv.kept t,
      count-recent now t (times (get k d)) le,
      beq_refl k,
      count-append (alive t) hist (now ∷ []),
      count-append (alive t) (recent now (times (get k d))) (now ∷ []),
      get-put k k (recent now (times (get k d)) ++ now ∷ []) d,
    );
    past = All-snoc now hist (alive_below last now hist h inv.past);
  }

  append_snoc :
      (hist : List ℕ) (a : ℕ) (rest : List ℕ) → (hist ++ a ∷ []) ++ rest ≡ hist ++ a ∷ rest
  append_snoc hist a rest = simp append_assoc

  -- One request of the key, made with the limit: either it is let through and its time joins the
  -- history, or it is refused.
  Holds-mine :
      (last now : ℕ) (hist : List ℕ) (d : Requests) (key : ClientPath) (lim : ℕ)
      → key ≡ k
      → lim ≡ limit
      → last ≤ now
      → Holds last hist d
      → (((allow_request now key lim d).0 ≡ false) × Holds now hist (allow_request now key lim d).1)
        ⊎ (((allow_request now key lim d).0 ≡ true)
            × Holds now (hist ++ now ∷ []) (allow_request now key lim d).1)
  Holds-mine last now hist d key lim e f le inv =
      subst₂
        (λ q l.
          (((allow_request now q l d).0 ≡ false) × Holds now hist (allow_request now q l d).1)
          ⊎ (((allow_request now q l d).0 ≡ true)
              × Holds now (hist ++ now ∷ []) (allow_request now q l d).1))
        (sym e) (sym f)
        (elim (Bool-cases (allow_request now k limit d).0) [
          | inl passed ↦ inr (passed, Holds-let_through last now hist d le passed inv)
          | inr refused ↦ inl (refused, Holds-refused last now hist d le refused inv)
        ])

  window_of :
      (rs : List Request) (last : ℕ) (hist : List ℕ) (d : Requests) (t : ℕ)
      → Ordered last rs
      → LimitOf k limit rs
      → Holds last hist d
      → count (inside t) (hist ++ accepted k rs d) ≤ limit
  unfolding accepted
  window_of [] last hist d t ordered limits inv = rw append-nil (inv.bounded t)
  window_of (r ∷ rs) last hist d t (le, ordered) (lim, limits) inv =
      let d' = (allow_request r.now r.key r.limit d).1 in
      elim (Bool-cases (pair_eq r.key k)) [
        | inl mine ↦
            elim (Holds-mine last r.now hist d r.key r.limit ((pair_eq_iff r.key k).0 mine)
              (lim mine) le inv) [
                | inl (refused, inv') ↦
                    rw (and_left _ _ refused) (window_of rs r.now hist d' t ordered limits inv')
                | inr (passed, inv') ↦
                    rw (and_both _ _ passed mine, ← append_snoc hist r.now (accepted k rs d'))
                      (window_of rs r.now (hist ++ r.now ∷ []) d' t ordered limits inv')
              ]
        | inr other ↦ rw (and_false _ _ other) (
            window_of rs r.now hist d' t ordered limits
              (Holds-other last r.now hist d r.key r.limit le other inv))
      ]

  -- From a limiter that was just reset, as long as the clock does not run backwards and a client's
  -- requests for a path are all made with one limit: every window of sixty seconds has at most that
  -- many of them let through, whatever other clients and paths ask for in between.
  pub window_bound :
      (rs : List Request) (t : ℕ)
      → Ordered 0 rs
      → LimitOf k limit rs
      → count (inside t) (accepted k rs reset) ≤ limit
  window_bound rs t ordered limits =
      window_of rs 0 [] reset t ordered limits
        (record { bounded = λ t. omega arith; kept = λ t le. omega arith; past = tt })
