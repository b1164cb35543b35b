-- ===== src/Email/Outage.antt =====
-- When a mail server that fails is left alone.
use enterprise_fast_api_boil.Base.{
  ℕ, ◌+◌, ◌<◌, ◌≡◌, refl, ap, ◌∙◌, Option, none, some, List, [], ◌∷◌, ◌++◌, arith, Option-cases,
  inl, inr,
}
use enterprise_fast_api_boil.Base.Outcome.{Error, Outcome, ok, err}
use enterprise_fast_api_boil.Resilience.CircuitBreaker.{
  Breaker, closed, is_open_error, is_open, before_call, record_breaker_failure,
}
use enterprise_fast_api_boil.Email.{
  after_call, Mail, SmtpSettings, SmtpCall, Outbox, smtp_calls, smtp_threshold, smtp_timeout,
  perform, settle_send, send_smtp,
}

module _ (raises : SmtpCall → Option Error) where
  perform-breaker :
      (calls : List SmtpCall) (o : Outbox) → (perform raises calls o).1.breaker ≡ o.breaker
  unfolding perform
  perform-breaker [] o = refl
  perform-breaker (call ∷ calls) o = elim (Option-cases (raises call)) [
    | inl e ↦
        rw (e, after_call) (perform-breaker calls (record o { calls = o.calls ++ (call ∷ []) }))
    | inr (x, e) ↦ rw (e, after_call) refl
  ]

  settle-failed :
      (later : ℕ) (r : Outcome (Unit {0})) (e : Error) (o : Outbox)
      → r ≡ err e
      → settle_send raises later r o ≡ (
        err e,
        record o { breaker = record_breaker_failure smtp_threshold smtp_timeout later o.breaker },
      )
  settle-failed later (ok _) e o h = absurd (ground (arith, h))
  settle-failed later (err f) e o h = ground (arith, h)

  before_call-shut :
      (now : ℕ) (b : Breaker)
      → b.opened_at ≡ none
      → before_call smtp_threshold smtp_timeout now b ≡ (ok tt, b)
  unfolding before_call is_open
  before_call-shut now b shut = ground (arith, shut)

  module _ (c : SmtpSettings) (mail : Mail) (e : Error)
      (fails : (o : Outbox) → (perform raises (smtp_calls c mail) o).0 ≡ err e) where
    -- One more failure is counted while the breaker is shut.
    send-failed :
        (now later : ℕ) (o : Outbox)
        → o.breaker.opened_at ≡ none
        → ((send_smtp raises c now later mail o).0 ≡ err e)
          × ((send_smtp raises c now later mail o).1.breaker
              ≡ record_breaker_failure smtp_threshold smtp_timeout later o.breaker)
    unfolding send_smtp
    send-failed now later o shut =
        let (r, o') = perform raises (smtp_calls c mail) o in
        let kept = perform-breaker (smtp_calls c mail) o in
        rw (before_call-shut now o.breaker shut) (
          rw (settle-failed later r e o' (fails o))
            (refl, ap (record_breaker_failure smtp_threshold smtp_timeout later) kept))

  before_call-open :
      (now opened : ℕ) (b : Breaker)
      → b.opened_at ≡ some opened
      → now < opened + smtp_timeout
      → before_call smtp_threshold smtp_timeout now b ≡ (err is_open_error, b)
  unfolding before_call is_open
  before_call-open now opened b e h = ground (arith, e)

  send-refused :
      (c : SmtpSettings) (mail : Mail) (now later opened : ℕ) (o : Outbox)
      → o.breaker.opened_at ≡ some opened
      → now < opened + smtp_timeout
      → send_smtp raises c now later mail o ≡ (err is_open_error, o)
  unfolding send_smtp
  send-refused c mail now later opened o e h = rw (before_call-open now opened o.breaker e h) refl

  -- Where every attempt to send a message fails, three attempts through a fresh transport answer with
  -- that failure. From the end of the third on, attempts within sixty seconds are refused without a
  -- call of the mail server.
  pub smtp_outage :
      (c : SmtpSettings) (mail : Mail) (e : Error)
      → ((o : Outbox) → (perform raises (smtp_calls c mail) o).0 ≡ err e)
      → (n₁ l₁ n₂ l₂ n₃ l₃ now later : ℕ) (o : Outbox) → o.breaker ≡ closed
      → now < l₃ + smtp_timeout
      → let (r₁, o₁) = send_smtp raises c n₁ l₁ mail o in
        let (r₂, o₂) = send_smtp raises c n₂ l₂ mail o₁ in
        let (r₃, o₃) = send_smtp raises c n₃ l₃ mail o₂ in
        (r₁ ≡ err e)
        × (r₂ ≡ err e)
        × (r₃ ≡ err e)
        × (send_smtp raises c now later mail o₃ ≡ (err is_open_error, o₃))
  unfolding record_breaker_failure
  smtp_outage c mail e fails n₁ l₁ n₂ l₂ n₃ l₃ now later o fresh h =
      let count = record_breaker_failure smtp_threshold smtp_timeout in
      let o₁ = (send_smtp raises c n₁ l₁ mail o).1 in
      let o₂ = (send_smtp raises c n₂ l₂ mail o₁).1 in
      let o₃ = (send_smtp raises c n₃ l₃ mail o₂).1 in
      let (a₁, b₁) = send-failed c mail e fails n₁ l₁ o (ap (λ (b : Breaker). b.opened_at) fresh) in
      let once : o₁.breaker ≡ count l₁ closed = b₁ ∙ ap (count l₁) fresh in
      let (a₂, b₂) = send-failed c mail e fails n₂ l₂ o₁ (ap (λ (b : Breaker). b.opened_at) once) in
      let twice : o₂.breaker ≡ count l₂ (count l₁ closed) = b₂ ∙ ap (count l₂) once in
      let (a₃, b₃) =
        send-failed c mail e fails n₃ l₃ o₂ (ap (λ (b : Breaker). b.opened_at) twice) in
      let thrice : o₃.breaker ≡ count l₃ (count l₂ (count l₁ closed)) = b₃ ∙ ap (count l₃) twice in
      (a₁, a₂, a₃, send-refused c mail now later l₃ o₃ (ap (λ (b : Breaker). b.opened_at) thrice) h)
