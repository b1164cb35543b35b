-- ===== src/Webhooks/Attempts.antt =====
-- How often a delivery is tried.
use enterprise_fast_api_boil.Base.{
  ℕ, suc, ◌+◌, ◌-◌, ◌≤◌, max, ◌≡◌, refl, Bool, true, false, Option, none, some, List, [], ◌∷◌,
  select, find, ltb, ◌&&◌, ◌==◌, arith, if◌then◌else◌,
}
use enterprise_fast_api_boil.Database.{WebhookEndpoint, WebhookDelivery}
use enterprise_fast_api_boil.Server.{Server, Job}
use enterprise_fast_api_boil.Webhooks.{update_delivery, attempted, is_failure, handle_delivery}

module _ (i : ℕ) (f : WebhookDelivery → WebhookDelivery)
    (keep : (d : WebhookDelivery) → (f d).id ≡ d.id) where
  select-update_delivery_none :
      (ds : List WebhookDelivery)
      → select (λ d. d.id == i) ds ≡ []
      → select (λ d. d.id == i) (update_delivery i f ds) ≡ []
  unfolding update_delivery
  select-update_delivery_none [] h = refl
  select-update_delivery_none (x ∷ ds) h = ground (arith, keep x, select-update_delivery_none ds)

  select-update_delivery :
      (d : WebhookDelivery) (ds : List WebhookDelivery)
      → select (λ d. d.id == i) ds ≡ d ∷ []
      → select (λ d. d.id == i) (update_delivery i f ds) ≡ f d ∷ []
  unfolding update_delivery
  select-update_delivery d [] h = absurd (ground arith)
  select-update_delivery d (x ∷ ds) h =
      ground (arith, keep x, keep d, select-update_delivery_none ds, select-update_delivery d ds)

abbrev pub is_queued : List Job → Bool
is_queued [] = false
is_queued (job ∷ jobs) = true

-- How often an endpoint is called for a delivery whose job is run with these times and answers for as
-- long as it puts itself on the queue again.
pub calls : ℕ → List (ℕ × Option ℕ) → Server → ℕ
calls id [] s = 0
calls id ((now, answer) ∷ answers) s =
    let s' = (handle_delivery now answer id (record s { jobs = [] })).1 in
    let rest = calls id answers s' in if is_queued s'.jobs then suc rest else 1

module _ (endpoint : WebhookEndpoint) where
  -- The row of the delivery and its active endpoint are found.
  abbrev pub Pending : WebhookDelivery → Server → Type 0
  Pending d s =
      (select (λ x. x.id == d.id) s.work.webhook_deliveries ≡ d ∷ [])
      × (find (λ e. e.id == d.endpoint_id) s.work.webhook_endpoints ≡ some endpoint)
      × (endpoint.is_active ≡ true)

  handle_delivery-Pending :
      (now : ℕ) (answer : Option ℕ) (d : WebhookDelivery) (s : Server)
      → Pending d s
      → let s' = (handle_delivery now answer d.id (record s { jobs = [] })).1 in
        Pending (attempted now answer d) s'
        × (is_queued s'.jobs ≡ (is_failure answer && ltb (d.attempt_count + 1) 3))
  unfolding handle_delivery
  handle_delivery-Pending now none d s (row, found, active) = ground (
    arith,
    select-update_delivery d.id (attempted now none) (λ x. refl) d s.work.webhook_deliveries,
  )
  handle_delivery-Pending now (some status) d s (row, found, active) = ground (
    arith,
    select-update_delivery d.id (attempted now (some status)) (λ x. refl) d
        s.work.webhook_deliveries,
  )

  -- While its row and its active endpoint are found, a delivery is never tried again after the third
  -- attempt: whatever the endpoint answers and whenever, it is called at most as often as attempts
  -- are left of three, or once.
  pub calls_bounded :
      (answers : List (ℕ × Option ℕ)) (d : WebhookDelivery) (s : Server)
      → Pending d s
      → calls d.id answers s ≤ max 1 (3 - d.attempt_count)
  unfolding calls
  calls_bounded [] d s pending = omega arith
  calls_bounded ((now, none) ∷ answers) d s pending =
      let s' = (handle_delivery now none d.id (record s { jobs = [] })).1 in
      let (pending', queued) = handle_delivery-Pending now none d s pending in
      let rest = calls_bounded answers (attempted now none d) s' pending' in
      grind (arith, queued, rest)
  calls_bounded ((now, some status) ∷ answers) d s pending =
      let s' = (handle_delivery now (some status) d.id (record s { jobs = [] })).1 in
      let (pending', queued) = handle_delivery-Pending now (some status) d s pending in
      let rest = calls_bounded answers (attempted now (some status) d) s' pending' in
      grind (arith, queued, rest)
