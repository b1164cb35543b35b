-- ===== src/Registration/Accepted.antt =====
-- What a registration leaves behind: backend/application/users/use_cases.py and the constraints of
-- backend/domain/users/model.py.
use enterprise_fast_api_boil.Base.{
  ℕ, String, ◌≡◌, ◌≢◌, ◌⊎◌, ◌∙◌, refl, arith, Bool, true, false, ◌&&◌, Option, none, some, List, [],
  ◌∷◌, ◌++◌, map, find, any, select, length, contains, ◌==◌, Bool-cases, Option-cases, inl, inr,
}
use enterprise_fast_api_boil.Base.Dict.{get, put}
use enterprise_fast_api_boil.Base.Outcome.{is_ok, domain, duplicate, ok, err}
use enterprise_fast_api_boil.Database.{User, Plan, Subscription, WebhookEndpoint}
use enterprise_fast_api_boil.Server.{Server}
use enterprise_fast_api_boil.Users.Public.{to_public}
use enterprise_fast_api_boil.Users.{has_email, has_username, get_by_email, get_by_username}
use enterprise_fast_api_boil.Webhooks.{create_delivery, create_deliveries, dispatch}
use enterprise_fast_api_boil.Events.{event_bus, publish, handlers, subscribe, run_handlers}
use enterprise_fast_api_boil.Registration.{
  UserCreate, NotificationPort, is_taken, new_user, create_user_row, is_free, new_free_plan,
  free_plan, subscribe_free, registered, welcome, register,
}

-- A query that finds no row where no row has the address or the name.
select_email-taken :
    (e n : String) (us : List User) → any (is_taken e n) us ≡ false → select (has_email e) us ≡ []
select_email-taken e n [] h = refl
select_email-taken e n (u ∷ us) h = ground (arith, select_email-taken e n us)

select_username-taken :
    (e n : String) (us : List User)
    → any (is_taken e n) us ≡ false
    → select (has_username n) us ≡ []
select_username-taken e n [] h = refl
select_username-taken e n (u ∷ us) h = ground (arith, select_username-taken e n us)

find-append_none :
    (p : Plan → Bool) (xs : List Plan) (x : Plan)
    → find p xs ≡ none
    → p x ≡ true
    → find p (xs ++ (x ∷ [])) ≡ some x
find-append_none p [] x h t = ground arith
find-append_none p (y ∷ xs) x h t = ground (arith, find-append_none p xs x)

any-append_last :
    (p : Subscription → Bool) (xs : List Subscription) (x : Subscription)
    → p x ≡ true
    → any p (xs ++ (x ∷ [])) ≡ true
any-append_last p [] x t = ground arith
any-append_last p (y ∷ xs) x t = ground (arith, any-append_last p xs x t)

-- The tables that the later steps of a registration leave as they are.
record Kept (s s' : Server) : Type 0 where
  pub users : s'.work.users ≡ s.work.users
  pub plans : s'.work.plans ≡ s.work.plans
  pub subscriptions : s'.work.subscriptions ≡ s.work.subscriptions

create_deliveries_lem :
    (t : String) (es : List WebhookEndpoint) (s : Server)
    → ((create_deliveries t es s).0 ≡ ok tt) × Kept s (create_deliveries t es s).1
unfolding create_deliveries
create_deliveries_lem t [] s = (refl, record { users = refl; plans = refl; subscriptions = refl })
create_deliveries_lem t (e ∷ es) s =
    let (r, k) = create_deliveries_lem t es (create_delivery t e s).1 in
    (r, record { users = k.users; plans = k.plans; subscriptions = k.subscriptions })

free_plan_lem :
    (s : Server)
    → (plan : Plan) × ((free_plan s).0 ≡ ok plan)
      × (find is_free (free_plan s).1.work.plans ≡ some plan)
      × ((free_plan s).1.work.users ≡ s.work.users)
unfolding free_plan
free_plan_lem s = elim (Option-cases (find is_free s.work.plans)) [
  | inl h ↦ (
    new_free_plan (s.assign_id (map (λ p. p.id) s.work.plans)),
    rw h refl,
    rw h (find-append_none is_free s.work.plans _ h refl),
    rw h refl,
  )
  | inr (p, h) ↦ (p, rw h refl, rw h h, rw h refl)
]

-- The test that `subscribe_free` makes.
abbrev pub has_plan : User → Plan → Subscription → Bool
has_plan user plan sub = sub.user_id == user.id && sub.plan_id == plan.id

subscribe_free_lem :
    (user : User) (plan : Plan) (s : Server)
    → ((subscribe_free user plan s).0 ≡ ok tt)
      × (any (has_plan user plan) (subscribe_free user plan s).1.work.subscriptions ≡ true)
      × ((subscribe_free user plan s).1.work.users ≡ s.work.users)
      × ((subscribe_free user plan s).1.work.plans ≡ s.work.plans)
unfolding subscribe_free
subscribe_free_lem user plan s = elim (Bool-cases (any (has_plan user plan) s.work.subscriptions)) [
  | inl h ↦ (rw h refl, rw h h, rw h refl, rw h refl)
  | inr h ↦ (
    rw h refl,
    rw h (any-append_last (has_plan user plan) s.work.subscriptions _ (ground arith)),
    rw h refl,
    rw h refl,
  )
]

publish_lem :
    (user : User) (s : Server)
    → ((publish event_bus (registered user) s).0 ≡ ok tt)
      × Kept s (publish event_bus (registered user) s).1
unfolding publish handlers subscribe run_handlers dispatch get put
publish_lem user s =
    let (r, k) =
      create_deliveries_lem "user.registered"
        (select (λ e. e.is_active && contains "user.registered" e.subscribed_events)
          s.work.webhook_endpoints)
        s in
    (rw r refl, rw r k)

-- What a new account may not have.
abbrev pub IsUnprivileged : User → Type 0
IsUnprivileged u =
    (u.role ≡ "user") × (u.permissions ≡ []) × (u.is_superuser ≡ false) × (u.is_verified ≡ false)

module _ (hash_password : String → String) (port : Option NotificationPort) (now : ℕ)
    (payload : UserCreate) (s : Server) where
  abbrev pub created : User
  created = new_user hash_password (s.assign_id (map (λ u. u.id) s.work.users)) now payload

  abbrev inserted : Server
  inserted = record s { work = record s.work { users = s.work.users ++ (created ∷ []) } }

  -- Where no row of the users table, deleted ones included, has the address or the name, and the
  -- notification can be sent, a registration succeeds. It adds exactly one row, which carries the
  -- address, the name and the hash of the password and has no privilege, and the account has
  -- a subscription to the plan with the key "free".
  pub register_open :
      any (is_taken payload.email payload.username) s.work.users ≡ false
      → welcome port created ≡ ok tt
      → (user : User) × ((register hash_password port now payload s).0 ≡ ok (to_public user))
        × ((register hash_password port now payload s).1.work.users ≡ s.work.users ++ (user ∷ []))
        × IsUnprivileged user
        × (user.email ≡ payload.email)
        × (user.username ≡ payload.username)
        × (user.hashed_password ≡ hash_password payload.password)
        × ((plan : Plan) × (find is_free (register hash_password port now payload s).1.work.plans
              ≡ some plan)
            × (any
                  (has_plan user plan)
                  (register hash_password port now payload s).1.work.subscriptions
                ≡ true))
  unfolding register get_by_email get_by_username create_user_row
  register_open free sent =
      let by_email = select_email-taken payload.email payload.username s.work.users free in
      let by_username = select_username-taken payload.email payload.username s.work.users free in
      let (plan, p0, p1, p2) = free_plan_lem inserted in
      let (q0, q1, q2, q3) = subscribe_free_lem created plan (free_plan inserted).1 in
      let (r0, k) = publish_lem created (subscribe_free created plan (free_plan inserted).1).1 in
      (
        created,
        rw (by_email, by_username, free, p0, q0, r0, sent) refl,
        rw (by_email, by_username, free, p0, q0, r0, sent) (k.users ∙ q2 ∙ p2),
        (refl, refl, refl, refl),
        refl,
        refl,
        refl,
        (
          plan,
          rw (by_email, by_username, free, p0, q0, r0, sent, k.plans, q3) p1,
          rw (by_email, by_username, free, p0, q0, r0, sent, k.subscriptions) q1,
        ),
      )

  -- Where some row, a deleted one included, has the address or the name, a registration fails and
  -- changes nothing. Where exactly one live account has the address, it fails as a duplicate.
  pub register_taken :
      any (is_taken payload.email payload.username) s.work.users ≡ true
      → (is_ok (register hash_password port now payload s).0 ≡ false)
        × ((register hash_password port now payload s).1 ≡ s)
        × ((length (select (has_email payload.email) s.work.users) ≢ 1)
            ⊎ ((register hash_password port now payload s).0
                ≡ err (domain (duplicate "Email already registered"))))
  unfolding register get_by_email get_by_username create_user_row
  register_taken taken = (
    ground (arith, taken),
    ground (arith, taken),
    elim (Bool-cases (length (select (has_email payload.email) s.work.users) == 1)) [
      | inl one ↦ inr (ground (arith, taken, one))
      | inr other ↦ inl (ground (arith, other))
    ],
  )
