-- ===== src/Billing/Subscriptions.antt =====
-- Subscriptions, invoices and notifications: the routes of backend/app/api/v1/billing/router.py
-- and the trial job of backend/common/background_jobs.py. `int(delta * days / 30)` divides floats:
-- below 2^48 the rounding of the quotient does not pass a whole number, so it is the quotient cut
-- towards zero.
use enterprise_fast_api_boil.Base.{
  ℕ, ◌+◌, String, Bool, true, false, ◌&&◌, Option, none, some, List, [], ◌∷◌, ◌++◌, map, find,
  count, max, select, leb, ◌==◌, ◌=s◌, if◌then◌else◌,
}
use enterprise_fast_api_boil.Base.Int.{ℤ, sub_ℕ, magnitude, scale}
use enterprise_fast_api_boil.Base.Outcome.{Exec, pure, gets, ◌>>=◌, ◌>>◌}
use enterprise_fast_api_boil.Database.{User, Plan, Subscription, Invoice, Notification, Db}
use enterprise_fast_api_boil.Server.{Server, billing_notification, edit, commit_now, enqueue, log}
use enterprise_fast_api_boil.Rbac.Queries.{Actor}
use enterprise_fast_api_boil.Rbac.Assign.{require_permission}
use enterprise_fast_api_boil.Billing.Entitlement.{is_current}
use enterprise_fast_api_boil.Billing.Plans.{manage_billing}

abbrev pub get_plan : ℕ → Db → Option Plan
get_plan plan_id db = find (λ p. p.id == plan_id) db.plans

-- The last row of a query in the order of the keys: `order_by(id.desc()).limit(1)`.
abbrev pub last : {A : Type 0} → (A → Bool) → List A → Option A
last p [] = none
last p (x ∷ xs) = elim (last p xs) [ some y ↦ some y | none ↦ if p x then some x else none ]

abbrev pub latest : ℕ → Db → Option Subscription
latest uid db = last (λ sub. sub.user_id == uid) db.subscriptions

abbrev pub add_subscription : ℕ → ℕ → ℕ → String → String → Db → Db
add_subscription new_id uid plan_id status provider db = record db {
  subscriptions =
      db.subscriptions
      ++ (record {
        id = new_id;
        user_id = uid;
        plan_id = plan_id;
        status = status;
        provider = provider;
        trial_ends_at = none;
      }
          ∷ []);
}

abbrev pub add_invoice : (List ℕ → ℕ) → ℕ → ℕ → ℕ → ℕ → String → Db → Db
add_invoice assign sub_id uid plan_id amount_cents description db = record db {
  invoices =
      db.invoices
      ++ (record {
        id = assign (map (λ i. i.id) db.invoices);
        subscription_id = some sub_id;
        user_id = uid;
        plan_id = plan_id;
        amount_cents = amount_cents;
        status = "issued";
        description = description;
      }
          ∷ []);
}

-- A change of the attributes of one subscription.
unfoldable pub update_subscription :
    ℕ → (Subscription → Subscription) → List Subscription → List Subscription
update_subscription i f [] = []
update_subscription i f (sub ∷ subs) =
    if sub.id == i then f sub ∷ update_subscription i f subs else sub ∷ update_subscription i f subs

abbrev pub save_subscription : ℕ → (Subscription → Subscription) → Exec Server (Unit {0})
save_subscription i f =
    edit (λ db. record db { subscriptions = update_subscription i f db.subscriptions })

abbrev pub price : Option Plan → ℕ
price none = 0
price (some plan) = plan.price_cents

-- POST /billing/subscriptions/assign
unfoldable pub assign_subscription : Actor → ℕ → ℕ → String → String → Exec Server (Unit {0})
unfolding require_permission
assign_subscription actor uid plan_id status provider = do
  require_permission actor manage_billing
  assign ← gets (λ s. s.assign_id)
  new_id ← gets (λ s. s.assign_id (map (λ sub. sub.id) s.work.subscriptions))
  edit (add_subscription new_id uid plan_id status provider)
  amount ← gets (λ s. price (get_plan plan_id s.work))
  edit (add_invoice assign new_id uid plan_id amount "Initial subscription")
  commit_now
  enqueue (billing_notification uid "subscription_assigned")
  log "billing.subscription_assigned"

-- `int(delta_cents * proration_days / 30)`
unfoldable pub prorated_amount : ℕ → ℕ → ℕ → ℤ
prorated_amount new_price old_price days = scale (sub_ℕ new_price old_price) days 30

pub data Change : Type 0 where
  changed : ℤ → Change
  subscription_not_found plan_not_found : Change

abbrev pub change_to : User → ℕ → Subscription → Option Plan → Exec Server Change
change_to user days sub none = pure plan_not_found
change_to user days sub (some plan) = do
  assign ← gets (λ s. s.assign_id)
  old ← gets (λ s. price (get_plan sub.plan_id s.work))
  let amount = prorated_amount plan.price_cents old (max 1 days)
  save_subscription sub.id (λ row. record row { plan_id = plan.id; status = "active" })
  edit (add_invoice assign sub.id user.id plan.id (magnitude amount) "Proration for plan change")
  commit_now
  enqueue (billing_notification user.id "plan_changed")
  pure (changed amount)

abbrev pub change_of : User → ℕ → ℕ → Option Subscription → Exec Server Change
change_of user plan_id days none = pure subscription_not_found
change_of user plan_id days (some sub) = do
  plan ← gets (λ s. get_plan plan_id s.work)
  change_to user days sub plan

-- POST /billing/subscriptions/change-plan. A negative number of days counts as none, which `max`
-- turns into one.
unfoldable pub change_plan : User → ℕ → ℕ → Exec Server Change
unfolding prorated_amount
change_plan user plan_id days = do
  sub ← gets (λ s. latest user.id s.work)
  change_of user plan_id days sub

-- POST /billing/subscriptions/cancel; the answer is the identifier, if there was a subscription.
unfoldable pub cancel_subscription : User → Exec Server (Option ℕ)
cancel_subscription user = do
  sub ← gets (λ s. latest user.id s.work)
  elim sub [
    | none ↦ pure none
    | some sub ↦ do
      save_subscription sub.id (λ row. record row { status = "canceled" })
      commit_now
      pure (some sub.id)
  ]

-- GET /billing/subscriptions/me
unfoldable pub get_my_subscription : User → Exec Server (Option Subscription)
get_my_subscription user = gets (λ s. latest user.id s.work)

unfoldable pub sum_prices : Db → List Subscription → ℕ × ℕ
sum_prices db [] = (0, 0)
sum_prices db (sub ∷ subs) =
    let (n, cents) = sum_prices db subs in
    if is_current sub
    then (elim (get_plan sub.plan_id db) [
      | none ↦ (n, cents)
      | some plan ↦ (n + 1, cents + plan.price_cents)
    ])
    else (n, cents)

-- GET /billing/admin/billing/metrics: the current subscriptions with a plan, and their prices.
unfoldable pub get_billing_metrics : Actor → Exec Server (ℕ × ℕ)
unfolding require_permission sum_prices
get_billing_metrics actor = do
  require_permission actor manage_billing
  gets (λ s. sum_prices s.work s.work.subscriptions)

-- GET /billing/invoices/me and /billing/notifications/me, without the order of the rows.
unfoldable pub get_my_invoices : User → Exec Server (List Invoice)
get_my_invoices user = gets (λ s. select (λ i. i.user_id == user.id) s.work.invoices)

unfoldable pub list_my_notifications : User → Exec Server (List Notification)
list_my_notifications user = gets (λ s. select (λ n. n.user_id == user.id) s.work.notifications)

unfoldable pub read_notification : ℕ → List Notification → List Notification
read_notification i [] = []
read_notification i (n ∷ ns) =
    if n.id == i
    then record n { is_read = true } ∷ read_notification i ns
    else n ∷ read_notification i ns

-- POST /billing/notifications/me/{notification_id}/read; the answer is whether it was found.
unfoldable pub mark_notification_read : User → ℕ → Exec Server Bool
mark_notification_read user i = do
  item ← gets (λ s. find (λ n. n.id == i) s.work.notifications)
  elim item [
    | none ↦ pure false
    | some n ↦
        if n.user_id == user.id
        then (do
          edit (λ db. record db { notifications = read_notification i db.notifications })
          commit_now
          pure true)
        else pure false
  ]

-- The trial is over: `status == "trialing"` and `trial_ends_at <= now`.
abbrev pub trial_over : ℕ → Subscription → Bool
trial_over now sub =
    sub.status =s "trialing" && (elim sub.trial_ends_at [ none ↦ false | some t ↦ leb t now ])

unfoldable pub expire_rows : ℕ → List Subscription → List Subscription
expire_rows now [] = []
expire_rows now (sub ∷ subs) =
    if trial_over now sub
    then record sub { status = "expired" } ∷ expire_rows now subs
    else sub ∷ expire_rows now subs

-- `expire_trial_subscriptions`, in a session of its own; the answer is how many expired.
unfoldable pub expire_trial_subscriptions : ℕ → Exec Server ℕ
expire_trial_subscriptions now = do
  n ← gets (λ s. count (trial_over now) s.work.subscriptions)
  edit (λ db. record db { subscriptions = expire_rows now db.subscriptions })
  commit_now
  pure n

unfoldable pub notify_expired : List Subscription → Exec Server (Unit {0})
notify_expired [] = pure tt
notify_expired (sub ∷ subs) = do
  enqueue (billing_notification sub.user_id "trial_expired")
  notify_expired subs

-- `process_trial_expiry_jobs`
unfoldable pub process_trial_expiry_jobs : ℕ → Exec Server ℕ
unfolding expire_trial_subscriptions notify_expired
process_trial_expiry_jobs now = do
  updated ← expire_trial_subscriptions now
  expired ← gets (λ s. select (λ sub. sub.status =s "expired") s.work.subscriptions)
  if updated == 0 then pure updated else (notify_expired expired >> pure updated)
