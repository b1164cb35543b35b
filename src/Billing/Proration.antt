-- ===== src/Billing/Proration.antt =====
-- What a change of plans costs, and the end of trials.
use native.Mathlib.Nat.{mul-le-mul_left}
use enterprise_fast_api_boil.Base.{
  ℕ, eq_iff, Option-cases, some, zero, suc, sym, ap, ◌-◌, ◌*◌, ◌/◌, ◌≤◌, min, ◌≡◌, refl, true,
  Bool-cases, inl, inr, not, List, [], ◌∷◌, all, count, leb, arith,
}
use enterprise_fast_api_boil.Base.Int.{ℤ, pos, negsuc, sub_ℕ, neg_ℕ, neg, magnitude, scale}
use enterprise_fast_api_boil.Base.Outcome.{ok}
use enterprise_fast_api_boil.Database.{Subscription}
use enterprise_fast_api_boil.Server.{Server}
use enterprise_fast_api_boil.Billing.Subscriptions.{
  prorated_amount, trial_over, expire_rows, expire_trial_subscriptions,
}

quotient_bound : (n k : ℕ) → n * min 30 k / 30 ≤ n
quotient_bound n k =
    let le : n * min 30 k ≤ n * 30 = mul-le-mul_left n (omega arith) in omega (arith, le)

-- An amount and its opposite, by the order of the prices.
neg-neg_ℕ : (q : ℕ) → (neg (neg_ℕ q) ≡ pos q) × (magnitude (neg_ℕ q) ≡ q)
neg-neg_ℕ zero = (refl, refl)
neg-neg_ℕ (suc q) = (refl, refl)

scale_whole : (z : ℤ) → scale z 30 30 ≡ z
scale_whole (pos n) = ap pos (omega arith)
scale_whole (negsuc n) = let e : suc n * 30 / 30 ≡ suc n = omega arith in rw e refl

magnitude-scale : (z : ℤ) (k : ℕ) → magnitude (scale z k 30) ≡ magnitude z * k / 30
magnitude-scale (pos n) k = refl
magnitude-scale (negsuc n) k = (neg-neg_ℕ (suc n * k / 30)).1

scale-neg : (z : ℤ) (k : ℕ) → scale (neg z) k 30 ≡ neg (scale z k 30)
scale-neg (pos zero) k = let e : 0 * k / 30 ≡ 0 = omega arith in rw e refl
scale-neg (pos (suc n)) k = refl
scale-neg (negsuc n) k = sym ((neg-neg_ℕ (suc n * k / 30)).0)

sub_ℕ-swap : (a b : ℕ) → sub_ℕ b a ≡ neg (sub_ℕ a b)
sub_ℕ-swap a b = elim (Bool-cases (leb b a)) [
  | inl le ↦ elim (Bool-cases (leb a b)) [
    | inl ge ↦ ground arith
    | inr gt ↦ let d : a - b ≡ suc (a - b - 1) = ground arith in rw (le, gt) (sym (ap neg_ℕ d))
  ]
  | inr lt ↦
      let ge : leb a b ≡ true = ground arith in
      let d : b - a ≡ suc (b - a - 1) = ground arith in rw (lt, ge) (ap pos d)
]

-- The prorated amount of a change of plans is the difference of the prices for thirty days, at most
-- that for fewer, and changing back for the same days gives the opposite amount.
pub proration_balances :
    (new_price old_price days : ℕ)
    → (prorated_amount new_price old_price 30 ≡ sub_ℕ new_price old_price)
      × (magnitude (prorated_amount new_price old_price (min 30 days))
          ≤ magnitude (sub_ℕ new_price old_price))
      × (prorated_amount old_price new_price days ≡ neg (prorated_amount new_price old_price days))
unfolding prorated_amount
proration_balances new_price old_price days =
    let z = sub_ℕ new_price old_price in
    (
      scale_whole z,
      rw (magnitude-scale z (min 30 days)) (quotient_bound (magnitude z) days),
      rw (sub_ℕ-swap new_price old_price) (scale-neg z days),
    )

expire_rows-none :
    (now : ℕ) (subs : List Subscription)
    → all (λ sub. not (trial_over now sub)) (expire_rows now subs) ≡ true
unfolding expire_rows
expire_rows-none now [] = refl
expire_rows-none now (sub ∷ subs) = ground (arith, expire_rows-none now subs)

expire_rows-fixed :
    (now : ℕ) (subs : List Subscription)
    → all (λ sub. not (trial_over now sub)) subs ≡ true
    → (expire_rows now subs ≡ subs) × (count (trial_over now) subs ≡ 0)
unfolding expire_rows
expire_rows-fixed now [] h = (refl, refl)
expire_rows-fixed now (sub ∷ subs) h = ground (arith, expire_rows-fixed now subs)

-- A trial whose end is past.
abbrev pub HasEnded : ℕ → Subscription → Type 0
HasEnded now sub =
    (sub.status ≡ "trialing") × ((t : ℕ) × ((sub.trial_ends_at ≡ some t) × (t ≤ now)))

-- The rows before and after, one by one, with the number of trials that have ended.
pub data Expiry (now : ℕ) : ℕ → List Subscription → List Subscription → Type 0 where
  none_left : Expiry now 0 [] []
  ends :
      {n : ℕ} (sub : Subscription) {subs subs' : List Subscription}
      → HasEnded now sub
      → Expiry now n subs subs'
      → Expiry now (suc n) (sub ∷ subs) (record sub { status = "expired" } ∷ subs')
  stays :
      {n : ℕ} (sub : Subscription) {subs subs' : List Subscription}
      → ¬ HasEnded now sub
      → Expiry now n subs subs'
      → Expiry now n (sub ∷ subs) (sub ∷ subs')

ended-trial_over : (now : ℕ) (sub : Subscription) → HasEnded now sub → trial_over now sub ≡ true
ended-trial_over now sub (trial, (t, (at, le))) = rw (trial, at) (ground arith)

trial_over-ended : (now : ℕ) (sub : Subscription) → trial_over now sub ≡ true → HasEnded now sub
trial_over-ended now sub h = elim (Option-cases sub.trial_ends_at) [
  | inl missing ↦ absurd (ground (arith, missing))
  | inr (t, at) ↦ (ground (arith, at, eq_iff sub.status "trialing"), (t, (at, ground (arith, at))))
]

expire_rows-Expiry :
    (now : ℕ) (subs : List Subscription)
    → Expiry now (count (trial_over now) subs) subs (expire_rows now subs)
unfolding expire_rows
expire_rows-Expiry now [] = none_left
expire_rows-Expiry now (sub ∷ subs) = elim (Bool-cases (trial_over now sub)) [
  | inl over ↦ rw over (ends sub (trial_over-ended now sub over) (expire_rows-Expiry now subs))
  | inr running ↦ rw running (
      stays sub (λ h. absurd (ground (arith, running, ended-trial_over now sub h)))
        (expire_rows-Expiry now subs))
]

-- The trial job succeeds with the number of trials whose end is past, gives exactly these the status
-- "expired", leaves every other row as it is, and commits. Run again at the same time it finds none
-- and changes nothing.
pub expire_trials_once :
    (now : ℕ) (s : Server)
    → let (r, s') = expire_trial_subscriptions now s in
      (n : ℕ) × (r ≡ ok n)
      × Expiry now n s.work.subscriptions s'.work.subscriptions
      × (s'.durable ≡ s'.work)
      × (expire_trial_subscriptions now s' ≡ (ok 0, s'))
unfolding expire_trial_subscriptions
expire_trials_once now s =
    let none_left = expire_rows-none now s.work.subscriptions in
    let (fixed, zero_left) =
      expire_rows-fixed now (expire_rows now s.work.subscriptions) none_left in
    (
      count (trial_over now) s.work.subscriptions,
      refl,
      expire_rows-Expiry now s.work.subscriptions,
      refl,
      rw (fixed, zero_left) refl,
    )
