-- ===== src/Registration/Replay.antt =====
-- The idempotency key of POST /users/: backend/app/api/v1/users/router.py.
use enterprise_fast_api_boil.Base.{
  ◌≤◌, ◌<◌, ◌+◌, none, List, [], ◌∷◌, eq_iff, Bool-cases, Option-cases, ℕ, String, ◌≡◌, ◌∙◌, ◌⊎◌,
  ◌*◌, inl, inr, refl, ap, sym, arith, false, Option, some, ◌=s◌,
}
use enterprise_fast_api_boil.Base.Dict.{text_key}
use enterprise_fast_api_boil.Base.Outcome.{Error, Outcome, ok, err, as_http}
use enterprise_fast_api_boil.Server.{Server}
use enterprise_fast_api_boil.Users.Public.{UserOut}
use enterprise_fast_api_boil.Resilience.RateLimit.Guard.{
  Guarded, limited, limited_lem, too_many_requests,
}
use enterprise_fast_api_boil.Registration.Stores.{IdempotencyStore}
use enterprise_fast_api_boil.Registration.{UserCreate, NotificationPort, register}
use enterprise_fast_api_boil.Registration.Route.{
  Desk, key_of, cached, ttl_seconds, keep, write_rate_limit, create_account, answer_for,
  create_user,
}

Outcome-cases : {A : Type 0} (r : Outcome A) → ((a : A) × (r ≡ ok a)) ⊎ ((e : Error) × (r ≡ err e))
Outcome-cases (ok a) = inl (a, refl)
Outcome-cases (err e) = inr (e, refl)

module _ (store : IdempotencyStore) (hash_password normalize : String → String)
    (port : Option NotificationPort) where
  module _ (clock now : ℕ) (client_ip : String) (key : Option String) (payload : UserCreate)
      (g : Guarded (Desk store)) where
    -- The two ways in which a request goes.
    data Course (r : Outcome UserOut × Guarded (Desk store)) : Type 0 where
      answered :
          (g' : Guarded (Desk store))
          → g'.inner ≡ g.inner
          → r ≡ answer_for store hash_password normalize port now (key_of key) payload g'
          → Course r
      refused :
          (g' : Guarded (Desk store))
          → g'.inner ≡ g.inner
          → r ≡ (err too_many_requests, g')
          → Course r

    create_user-Course :
        Course (create_user store hash_password normalize port clock now client_ip key payload g)
    unfolding create_user
    create_user-Course =
        let (a, b) =
          limited_lem clock (normalize payload.email, "users:create:email") write_rate_limit
            too_many_requests g in
        let g₁ : Guarded (Desk store) =
          (limited clock (normalize payload.email, "users:create:email") write_rate_limit
            too_many_requests g).1 in
        let (c, d) =
          limited_lem clock (client_ip, "users:create:ip") (write_rate_limit * 2) too_many_requests
            g₁ in
        elim a [
          | inr h ↦ refused g₁ b (rw h refl)
          | inl h ↦ elim c [
            | inr k ↦
                refused
                  (limited clock (client_ip, "users:create:ip") (write_rate_limit * 2)
                    too_many_requests g₁).1
                  (d ∙ b) (rw (h, k) refl)
            | inl k ↦
                answered
                  (limited clock (client_ip, "users:create:ip") (write_rate_limit * 2)
                    too_many_requests g₁).1
                  (d ∙ b) (rw (h, k) refl)
          ]
        ]

  -- The answer of a key is kept from one time up to another.
  abbrev Keeps : String → UserOut → ℕ → ℕ → Guarded (Desk store) → Type 0
  Keeps key out from until g =
      (t : ℕ) → from ≤ t → t < until → store.get t key g.inner.responses ≡ some out

  answer_for-cached :
      (now : ℕ) (key : String) (payload : UserCreate) (g : Guarded (Desk store)) {out : UserOut}
      → store.get now key g.inner.responses ≡ some out
      → answer_for store hash_password normalize port now (some key) payload g ≡ (ok out, g)
  answer_for-cached now key payload g h = rw h refl

  keep-server :
      (now : ℕ) (key : Option String) (out : UserOut) (s : Server) (d : Desk store)
      → (keep store now key out (record d { server = s })).responses
        ≡ (keep store now key out d).responses
  keep-server now none out s d = refl
  keep-server now (some key) out s d = refl

  -- What creating an account does to the kept answers.
  create_account-responses :
      (now : ℕ) (key : Option String) (payload : UserCreate) (g : Guarded (Desk store))
      → let (r, g') = create_account store hash_password normalize port now key payload g in
        ((e : Error) × ((r ≡ err e) × (g'.inner.responses ≡ g.inner.responses)))
        ⊎ ((out : UserOut) × ((r ≡ ok out)
              × (g'.inner.responses ≡ (keep store now key out g.inner).responses)))
  create_account-responses now key payload g =
      elim (Outcome-cases (as_http (register hash_password port now payload g.inner.server).0)) [
        | inl (out, h) ↦ inr (out, (rw h refl, rw h (keep-server now key out _ g.inner)))
        | inr (e, h) ↦ inl (e, (rw h refl, rw h refl))
      ]

  -- An answer is new only where none is kept.
  answer_for-responses :
      (now : ℕ) (key : Option String) (payload : UserCreate) (g : Guarded (Desk store))
      → let g' = (answer_for store hash_password normalize port now key payload g).1 in
        (g'.inner.responses ≡ g.inner.responses)
        ⊎ ((out : UserOut) × ((cached store now key g.inner ≡ none)
              × (g'.inner.responses ≡ (keep store now key out g.inner).responses)))
  answer_for-responses now key payload g = elim (Option-cases (cached store now key g.inner)) [
    | inr (out, found) ↦ inl (rw found refl)
    | inl absent ↦ elim (create_account-responses now key payload g) [
      | inl (e, (h, same)) ↦ inl (rw absent same)
      | inr (out, (h, kept)) ↦ inr (out, (absent, rw absent kept))
    ]
  ]

  keep-Keeps :
      (key : String) (out : UserOut) (from until now : ℕ) (k : Option String) (out' : UserOut)
      (g : Guarded (Desk store))
      → from ≤ now
      → now < until
      → cached store now k g.inner ≡ none
      → Keeps key out from until g
      → (t : ℕ) → from ≤ t
      → t < until
      → store.get t key (keep store now k out' g.inner).responses ≡ some out
  keep-Keeps key out from until now none out' g le lt absent kept t after before =
      kept t after before
  keep-Keeps key out from until now (some k) out' g le lt absent kept t after before =
      elim (Bool-cases (k =s key)) [
        | inr apart ↦
            store.get-set_other now t k key out' ttl_seconds g.inner.responses apart
            ∙ kept t after before
        | inl same ↦
            let here : store.get now key g.inner.responses ≡ none =
              ap (λ j. store.get now j g.inner.responses) (sym ((eq_iff k key).0 same)) ∙ absent in
            absurd (ground (arith, sym here ∙ kept now le lt))
      ]

  create_user-Keeps :
      (key : String) (out : UserOut) (from until clock now : ℕ) (client_ip : String)
      (k : Option String) (payload : UserCreate) (g : Guarded (Desk store))
      → from ≤ now
      → now < until
      → Keeps key out from until g
      → Keeps key out from until
          (create_user store hash_password normalize port clock now client_ip k payload g).1
  create_user-Keeps key out from until clock now client_ip k payload g le lt kept t after before =
      elim (create_user-Course clock now client_ip k payload g) [
        | refused h same eq ↦
            rw eq (ap (λ d. store.get t key d.responses) same ∙ kept t after before)
        | answered h same eq ↦
            let kept' : Keeps key out from until h =
              λ u a b. ap (λ d. store.get u key d.responses) same ∙ kept u a b in
            elim (answer_for-responses now (key_of k) payload h) [
              | inl left ↦
                  ap (λ r. store.get t key r.1.inner.responses) eq
                  ∙ ap (store.get t key) left
                  ∙ kept' t after before
              | inr (out', (absent, left)) ↦
                  ap (λ r. store.get t key r.1.inner.responses) eq
                  ∙ ap (store.get t key) left
                  ∙ keep-Keeps key out from until now (key_of k) out' h le lt absent kept' t after
                      before
            ]
      ]

  named_key : (key : String) → (key =s "") ≡ false → key_of (some key) ≡ some key
  named_key key named = rw named refl

  ok_eq : (a b : UserOut) → ok a ≡ ok b → a ≡ b
  ok_eq a b h = cc

  answer_for-new :
      (now : ℕ) (key : String) (payload : UserCreate) (g : Guarded (Desk store)) (out : UserOut)
      → store.get now key g.inner.responses ≡ none
      → (answer_for store hash_password normalize port now (some key) payload g).0 ≡ ok out
      → (answer_for store hash_password normalize port now (some key) payload g).1.inner.responses
        ≡ store.set now key out ttl_seconds g.inner.responses
  answer_for-new now key payload g out absent done =
      let done' = (rw absent at done) in
      elim (create_account-responses now (some key) payload g) [
        | inl (e, (h, same)) ↦ absurd (ground (arith, sym h ∙ done'))
        | inr (out', (h, left)) ↦ rw absent (
            left
            ∙ ap (λ o. store.set now key o ttl_seconds g.inner.responses)
                (ok_eq out' out (sym h ∙ done')))
      ]

  first-Keeps :
      (clock now : ℕ) (client_ip key : String) (payload : UserCreate) (g : Guarded (Desk store))
      (out : UserOut)
      → (key =s "") ≡ false
      → store.get now key g.inner.responses ≡ none
      → (create_user store hash_password normalize port clock now client_ip (some key) payload g).0
        ≡ ok out
      → Keeps key out now
          (now + ttl_seconds)
          (create_user store hash_password normalize port clock now client_ip
            (some key)
            payload
            g).1
  first-Keeps clock now client_ip key payload g out named absent done t after before =
      elim (create_user-Course clock now client_ip (some key) payload g) [
        | refused h same eq ↦ absurd (ground (arith, done, ap (λ r. r.0) eq))
        | answered h same eq ↦
            let absent' : store.get now key h.inner.responses ≡ none =
              ap (λ d. store.get now key d.responses) same ∙ absent in
            let eq' =
              eq
              ∙ ap (λ k. answer_for store hash_password normalize port now k payload h)
                  (named_key key named) in
            ap (λ r. store.get t key r.1.inner.responses) eq'
            ∙ ap (store.get t key)
                (answer_for-new now key payload h out absent' (sym (ap (λ r. r.0) eq') ∙ done))
            ∙ store.get-set_self now t key out ttl_seconds h.inner.responses after before
      ]

  -- What may happen between two requests: another request for an account, or a change elsewhere.
  pub data Event : Type 0 where
    posts :
        (clock now : ℕ) (client_ip : String) (key : Option String) (payload : UserCreate) → Event
    elsewhere : (Server → Server) → Event

  pub events : List Event → Guarded (Desk store) → Guarded (Desk store)
  events [] g = g
  events (posts clock now client_ip key payload ∷ es) g =
      events es (create_user store hash_password normalize port clock now client_ip key payload g).1
  events (elsewhere f ∷ es) g =
      events es (record g { inner = record g.inner { server = f g.inner.server } })

  -- The requests among them come in this time.
  abbrev pub Between : ℕ → ℕ → List Event → Type 0
  Between from until [] = Unit
  Between from until (posts clock now client_ip key payload ∷ es) =
      (from ≤ now) × ((now < until) × Between from until es)
  Between from until (elsewhere f ∷ es) = Between from until es

  events-Keeps :
      (key : String) (out : UserOut) (from until : ℕ) (es : List Event) (g : Guarded (Desk store))
      → Between from until es
      → Keeps key out from until g
      → Keeps key out from until (events es g)
  unfolding events
  events-Keeps key out from until [] g between kept = kept
  events-Keeps key out from until (posts clock now client_ip k payload ∷ es) g (le, (lt, between))
        kept =
      events-Keeps key out from until es
        (create_user store hash_password normalize port clock now client_ip k payload g).1 between
        (create_user-Keeps key out from until clock now client_ip k payload g le lt kept)
  events-Keeps key out from until (elsewhere f ∷ es) g between kept =
      events-Keeps key out from until es
        (record g { inner = record g.inner { server = f g.inner.server } }) between kept

  -- A request to create an account that succeeded under an idempotency key, which is not empty and
  -- under which nothing was kept, is not run again within 86400 seconds, whatever other requests for
  -- accounts and changes elsewhere come in between: a request with the key changes no table and no
  -- kept answer, whatever account it asks for, and unless a limit refuses it, it is given the first
  -- answer.
  pub create_user_once :
      (clock clock' now now' : ℕ) (client_ip client_ip' key : String)
      (payload payload' : UserCreate) (es : List Event) (g : Guarded (Desk store)) (out : UserOut)
      → (key =s "") ≡ false
      → store.get now key g.inner.responses ≡ none
      → (create_user store hash_password normalize port clock now client_ip (some key) payload g).0
        ≡ ok out
      → Between now (now + ttl_seconds) es
      → now ≤ now'
      → now' < now + ttl_seconds
      → let g' =
          events es
            (create_user store hash_password normalize port clock now client_ip
              (some key)
              payload
              g).1 in
        let (r, g'') =
          create_user store hash_password normalize port clock' now' client_ip'
            (some key)
            payload'
            g' in
        (g''.inner ≡ g'.inner) × ((r ≡ ok out) ⊎ (r ≡ err too_many_requests))
  create_user_once clock clock' now now' client_ip client_ip' key payload payload' es g out named
        absent done between after before =
      let g₁ =
        (create_user store hash_password normalize port clock now client_ip (some key) payload
          g).1 in
      let g' = events es g₁ in
      let kept =
        events-Keeps key out now (now + ttl_seconds) es g₁ between
          (first-Keeps clock now client_ip key payload g out named absent done) now' after before in
      elim (create_user-Course clock' now' client_ip' (some key) payload' g') [
        | refused h same eq ↦ (rw eq same, inr (rw eq refl))
        | answered h same eq ↦
            let again =
              eq
              ∙ ap (λ k. answer_for store hash_password normalize port now' k payload' h)
                  (named_key key named)
              ∙ answer_for-cached now' key payload' h
                  (ap (λ d. store.get now' key d.responses) same ∙ kept) in
            (rw again same, inl (rw again refl))
      ]
