-- ===== src/RequestSize/Bound.antt =====
-- How much of a request's body reaches the application: backend/web/request_size_middleware.py.
use enterprise_fast_api_boil.Base.{
  ℕ, suc, ◌+◌, ◌≤◌, ◌≡◌, ◌⊎◌, inl, inr, refl, arith, String, Bool, false, Bool-cases, Option, List,
  [], ◌∷◌, length, ltb, ap,
}
use enterprise_fast_api_boil.Base.Int.{ℤ}
use enterprise_fast_api_boil.RequestSize.{
  Message, request, disconnect, Received, message, body_too_large, App, respond, receives,
  too_large, fails, status, http_scope, body_length, limited_receive, run_limited, run_plain,
  declares_too_much, call,
}

-- The bytes that an application has got.
abbrev pub bytes_of : Received → ℕ
bytes_of (message m) = body_length m
bytes_of body_too_large = 0

abbrev pub total_bytes : List Received → ℕ
total_bytes [] = 0
total_bytes (r ∷ rs) = bytes_of r + total_bytes rs

-- One call: what it hands out stays within the limit, and the count only grows.
received_bound :
    (max_size received : ℕ) (m : Message)
    → (received ≤ (limited_receive max_size received m).1)
      × ((bytes_of (limited_receive max_size received m).0 ≡ 0)
          ⊎ ((received + bytes_of (limited_receive max_size received m).0
                ≤ (limited_receive max_size received m).1)
              × ((limited_receive max_size received m).1 ≤ max_size)))
received_bound max_size received disconnect = (omega arith, inl refl)
received_bound max_size received (request body) =
    elim (Bool-cases (ltb max_size (received + length body))) [
      | inl h ↦ ground arith
      | inr h ↦ ground arith
    ]

run_limited_bound :
    {met : Bool} (max_size received : ℕ) (messages : ℕ → Message) (next : ℕ) (app : App met)
    → (total_bytes (run_limited max_size received messages next app).1 ≡ 0)
      ⊎ (received + total_bytes (run_limited max_size received messages next app).1 ≤ max_size)
unfolding run_limited
run_limited_bound max_size received messages next (respond code) = inl refl
run_limited_bound max_size received messages next too_large = inl refl
run_limited_bound max_size received messages next (fails e) = inl refl
run_limited_bound max_size received messages next (receives k handler) =
    let after = (limited_receive max_size received (messages next)).1 in
    ground (
      arith,
      received_bound max_size received (messages next),
      run_limited_bound max_size after messages (suc next) (k (messages next)),
      run_limited_bound max_size after messages (suc next) handler,
    )

-- A message that fits is handed on, and counted.
received_small :
    (max_size received : ℕ) (m : Message)
    → received + body_length m ≤ max_size
    → ((limited_receive max_size received m).0 ≡ message m)
      × ((limited_receive max_size received m).1 ≡ received + body_length m)
received_small max_size received disconnect h = (refl, omega arith)
received_small max_size received (request body) h = (ground arith, ground arith)

run_limited_plain :
    (max_size received : ℕ) (messages : ℕ → Message) (next : ℕ) (app : App false)
    → received + total_bytes (run_plain messages next app).1 ≤ max_size
    → run_limited max_size received messages next app ≡ run_plain messages next app
unfolding run_limited run_plain
run_limited_plain max_size received messages next (respond code) h = refl
run_limited_plain max_size received messages next (fails e) h = refl
run_limited_plain max_size received messages next (receives k handler) h =
    let (a, b) = received_small max_size received (messages next) (omega (arith, h)) in
    rw (run_limited, a)
      (ap (λ r. (r.0, message (messages next) ∷ r.1))
        (run_limited_plain max_size (limited_receive max_size received (messages next)).1 messages
          (suc next) (k (messages next)) (omega (arith, b, h))))

module _ (lower : String → String) (int : String → Option ℤ) (max_size : ℕ)
    (headers : List (String × String)) (messages : ℕ → Message) (app : App false) where
  -- Whatever the headers declare and in whatever pieces a body comes, the application behind the
  -- middleware gets no more bytes of it than the limit; where the headers declare more, it gets
  -- nothing at all and the answer is 413.
  pub size_bound :
      (total_bytes (call lower int max_size (http_scope headers) messages app).1 ≤ max_size)
      × ((declares_too_much lower int max_size headers ≡ false)
          ⊎ (call lower int max_size (http_scope headers) messages app ≡ (status 413, [])))
  unfolding call
  size_bound = elim (Bool-cases (declares_too_much lower int max_size headers)) [
    | inl h ↦ (rw h (omega arith), inr (rw h refl))
    | inr h ↦ (rw h (ground (arith, run_limited_bound max_size 0 messages 0 app)), inl h)
  ]

  -- A request whose headers do not declare more than the limit, and whose application would
  -- receive no more than that, is answered as it would be without the middleware.
  pub size_transparent :
      declares_too_much lower int max_size headers ≡ false
      → total_bytes (run_plain messages 0 app).1 ≤ max_size
      → call lower int max_size (http_scope headers) messages app ≡ run_plain messages 0 app
  unfolding call
  size_transparent honest small =
      rw honest (run_limited_plain max_size 0 messages 0 app (omega (arith, small)))
