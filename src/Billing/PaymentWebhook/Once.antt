-- ===== src/Billing/PaymentWebhook/Once.antt =====
-- A payment event is applied once.
use enterprise_fast_api_boil.Base.{
  ℕ, suc, ◌≤◌, String, ◌≡◌, refl, ◌⊎◌, Bool, true, false, ◌&&◌, ◌||◌, Option, none, some, List, [],
  ◌∷◌, ◌++◌, any, arith, ◌=s◌, is_some, if◌then◌else◌, Bool-cases, inl, inr, eq_iff,
}
use enterprise_fast_api_boil.Base.Dict.{text_key, get}
use enterprise_fast_api_boil.Base.Outcome.{Outcome, ok}
use enterprise_fast_api_boil.Database.{PaymentEvent}
use enterprise_fast_api_boil.Server.{Server, get_db}
use enterprise_fast_api_boil.Billing.PaymentWebhook.{
  Payload, Reply, processed, duplicate, same_event, apply_event, record_event, stripe_webhook,
  failed_subscription, past_due, event_row, add_event,
}

any-append :
    {A : Type 0} (p : A → Bool) (xs ys : List A) → any p (xs ++ ys) ≡ (any p xs || any p ys)
any-append p [] ys = refl
any-append p (x ∷ xs) ys = ground (arith, any-append p xs ys)

-- No two rows are of the same event.
abbrev pub UniqueEvents : List PaymentEvent → Type 0
UniqueEvents [] = Unit
UniqueEvents (e ∷ es) =
    (any (same_event e.provider e.provider_event_id) es ≡ false) × UniqueEvents es

same_event_sym :
    (e f : PaymentEvent)
    → same_event f.provider f.provider_event_id e ≡ same_event e.provider e.provider_event_id f
same_event_sym e f = ground (
  arith,
  eq_iff e.provider f.provider,
  eq_iff f.provider e.provider,
  eq_iff e.provider_event_id f.provider_event_id,
  eq_iff f.provider_event_id e.provider_event_id,
)

UniqueEvents-snoc :
    (es : List PaymentEvent) (f : PaymentEvent)
    → any (same_event f.provider f.provider_event_id) es ≡ false
    → UniqueEvents es
    → UniqueEvents (es ++ f ∷ [])
UniqueEvents-snoc [] f h u = (refl, tt)
UniqueEvents-snoc (e ∷ es) f h (fresh, u) = (
  ground (
    arith,
    any-append (same_event e.provider e.provider_event_id) es (f ∷ []),
    same_event_sym e f,
  ),
  UniqueEvents-snoc es f (ground arith) u,
)

apply_event-events :
    (provider : String) (p : Payload) (s : Server)
    → (apply_event provider p s).1.work.payment_events ≡ s.work.payment_events
unfolding apply_event
apply_event-events provider p s = elim (Bool-cases (p.event_type =s "checkout.session.completed")) [
  | inl e ↦ rw e
  | inr e ↦ rw e (elim (Bool-cases (p.event_type =s "invoice.payment_failed")) [
    | inl f ↦ rw f (past_due-events (failed_subscription p s.work))
    | inr f ↦ rw f
  ])
]
  where
    past_due-events : (o : Option _) → (past_due o s).1.work.payment_events ≡ s.work.payment_events
    past_due-events none = refl
    past_due-events (some sub) = refl

apply_event-ok :
    (provider : String) (p : Payload) (s : Server) → (apply_event provider p s).0 ≡ ok tt
unfolding apply_event
apply_event-ok provider p s = elim (Bool-cases (p.event_type =s "checkout.session.completed")) [
  | inl e ↦ rw e
  | inr e ↦ rw e (elim (Bool-cases (p.event_type =s "invoice.payment_failed")) [
    | inl f ↦ rw f (past_due-ok (failed_subscription p s.work))
    | inr f ↦ rw f
  ])
]
  where
    past_due-ok : (o : Option _) → (past_due o s).0 ≡ ok tt
    past_due-ok none = refl
    past_due-ok (some sub) = refl

-- What `record_event` leaves in the table of events, and what it answers.
module _ (join_key : String → String → String) (provider : String) (p : Payload) (s : Server) where
  abbrev recorded : Bool → Server
  recorded raced = (record_event join_key raced provider p s).1

  known_event :
      (raced : Bool)
      → any (same_event provider p.event_id) s.work.payment_events ≡ true
      → ((record_event join_key raced provider p s).0 ≡ ok duplicate)
        × ((recorded raced).work ≡ s.work)
  unfolding record_event
  known_event raced h = ground arith

  recorded-events :
      (raced : Bool)
      → s.durable ≡ s.work
      → ((record_event join_key raced provider p s).0 ≡ ok duplicate)
          × ((recorded raced).work ≡ s.work)
        ⊎ ((record_event join_key raced provider p s).0 ≡ ok processed)
          × (any (same_event provider p.event_id) s.work.payment_events ≡ false)
          × ((recorded raced).work.payment_events ≡ (add_event provider p s.work).payment_events)
  unfolding record_event
  recorded-events raced settled =
      elim (Bool-cases (any (same_event provider p.event_id) s.work.payment_events)) [
        | inl e ↦ inl (known_event raced e)
        | inr e ↦ elim (Bool-cases (is_some (get (join_key provider p.event_id) s.idempotency))) [
          | inl k ↦ inl (ground arith)
          | inr k ↦ elim (Bool-cases raced) [
            | inl r ↦ inl (ground arith)
            | inr r ↦
                let s₁ = record s { work = add_event provider p s.work } in
                inr (
                  ground (arith, apply_event-ok provider p s₁),
                  e,
                  ground (arith, apply_event-ok provider p s₁, apply_event-events provider p s₁),
                )
          ]
        ]
      ]

module _ (join_key : String → String → String) (lower : String → String)
    (verified : String → Payload → Bool) where
  -- A request in its own session.
  pub deliver : Bool × Payload → Server → Outcome Reply × Server
  deliver (raced, p) s = get_db (stripe_webhook join_key lower verified raced p) s

  abbrev pub is_processed : Outcome Reply → Bool
  is_processed (ok processed) = true
  is_processed _ = false

  -- What one delivery does: it answers something else than `processed` and leaves the tables as
  -- they are, or it is the first of its event, its signature is verified, and the event's row is
  -- added.
  abbrev Effect : Payload → Server → Outcome Reply × Server → Type 0
  Effect p s (r, s') =
      ((is_processed r ≡ false) × (s'.work ≡ s.work))
      ⊎ ((is_processed r ≡ true)
          × (verified (lower p.provider) p ≡ true)
          × (any (same_event (lower p.provider) p.event_id) s.work.payment_events ≡ false)
          × (s'.work.payment_events ≡ (add_event (lower p.provider) p s.work).payment_events))

  deliver-Effect :
      (raced : Bool) (p : Payload) (s : Server)
      → s.durable ≡ s.work
      → Effect p s (deliver (raced, p) s)
        × ((deliver (raced, p) s).1.durable ≡ (deliver (raced, p) s).1.work)
  unfolding deliver get_db stripe_webhook
  deliver-Effect raced p s settled =
      elim (recorded-events join_key (lower p.provider) p s raced settled) [
        | inl (dup, same) ↦ ground arith
        | inr (new, fresh, added) ↦ ground arith
      ]

  -- The server after deliveries, one after another.
  pub deliveries : List (Bool × Payload) → Server → Server
  deliveries [] s = s
  deliveries (d ∷ ds) s = deliveries ds (deliver d s).1

  abbrev pub is_about : String → String → Payload → Bool
  is_about provider event_id p = lower p.provider =s provider && p.event_id =s event_id

  -- How many deliveries of an event are answered with `processed`.
  pub times_processed : String → String → List (Bool × Payload) → Server → ℕ
  times_processed provider event_id [] s = 0
  times_processed provider event_id (d ∷ ds) s =
      let (r, s') = deliver d s in
      let rest = times_processed provider event_id ds s' in
      if is_processed r && is_about provider event_id d.1 then suc rest else rest

  module _ (provider event_id : String) where
    abbrev seen : Server → Bool
    seen s = any (same_event provider event_id) s.work.payment_events

    about_same :
        (p : Payload) (e : PaymentEvent)
        → is_about provider event_id p ≡ true
        → same_event (lower p.provider) p.event_id e ≡ same_event provider event_id e
    about_same p e h =
        ground (arith, eq_iff (lower p.provider) provider, eq_iff p.event_id event_id)

    about_seen :
        (p : Payload) (es : List PaymentEvent)
        → is_about provider event_id p ≡ true
        → any (same_event (lower p.provider) p.event_id) es ≡ any (same_event provider event_id) es
    about_seen p [] h = refl
    about_seen p (e ∷ es) h = ground (arith, about_same p e h, about_seen p es h)

    seen_stays :
        (p : Payload) (s : Server) (out : Outcome Reply × Server)
        → Effect p s out
        → seen s ≡ true
        → (seen out.1 ≡ true) × ((is_processed out.0 && is_about provider event_id p) ≡ false)
    seen_stays p s (r, s') (inl (other, same)) h = ground arith
    seen_stays p s (r, s') (inr (done, _, fresh, added)) h = ground (
      arith,
      about_seen p s.work.payment_events,
      any-append (same_event provider event_id) s.work.payment_events
          (event_row (lower p.provider) p ∷ []),
    )

    processed_seen :
        (p : Payload) (s : Server) (out : Outcome Reply × Server)
        → Effect p s out
        → (is_processed out.0 && is_about provider event_id p) ≡ true
        → seen out.1 ≡ true
    processed_seen p s (r, s') (inl (other, same)) h = absurd (ground arith)
    processed_seen p s (r, s') (inr (done, _, fresh, added)) h = ground (
      arith,
      any-append (same_event provider event_id) s.work.payment_events
          (event_row (lower p.provider) p ∷ []),
    )

    never_again :
        (ds : List (Bool × Payload)) (s : Server)
        → s.durable ≡ s.work
        → seen s ≡ true
        → times_processed provider event_id ds s ≡ 0
    unfolding times_processed
    never_again [] s settled h = refl
    never_again ((raced, p) ∷ ds) s settled h =
        let (effect, settled') = deliver-Effect raced p s settled in
        let (h', none_now) = seen_stays p s (deliver (raced, p) s) effect h in
        rw none_now (never_again ds (deliver (raced, p) s).1 settled' h')

    -- From a server on which nothing is pending in the session: however often the provider delivers an
    -- event, each time in a session of its own, in whatever order with other events and whatever
    -- other workers commit in between, it is processed at most once.
    pub processed_once :
        (ds : List (Bool × Payload)) (s : Server)
        → s.durable ≡ s.work
        → times_processed provider event_id ds s ≤ 1
    unfolding times_processed
    processed_once [] s settled = omega arith
    processed_once ((raced, p) ∷ ds) s settled =
        let (effect, settled') = deliver-Effect raced p s settled in
        let out = deliver (raced, p) s in
        elim (Bool-cases (is_processed out.0 && is_about provider event_id p)) [
          | inl now ↦
              rw (now, never_again ds out.1 settled' (processed_seen p s out effect now))
                (omega arith)
          | inr later ↦ rw later (processed_once ds out.1 settled')
        ]
