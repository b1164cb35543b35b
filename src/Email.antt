-- ===== src/Email.antt =====
-- backend/infrastructure/email/transport.py and backend/integrations/email_adapter.py. Which of the calls
-- of `smtplib` raise is a parameter; times are milliseconds of the monotonic clock. What is printed and
-- what is called are kept in order.
pub mod Outage
use enterprise_fast_api_boil.Base.{
  ℕ, String, Bool, true, false, not, ◌&&◌, Option, none, some, List, [], ◌∷◌, ◌++◌, ◌=s◌,
  if◌then◌else◌,
}
use enterprise_fast_api_boil.Base.Dict.{Dict, get}
use enterprise_fast_api_boil.Base.Text.{Text, codes, nat_key, list_key}
use enterprise_fast_api_boil.Base.Outcome.{Error, Outcome, ok, err, Exec, continue}
use enterprise_fast_api_boil.Resilience.CircuitBreaker.{
  Breaker, before_call, record_success, record_breaker_failure,
}

pub record Mail : Type 0 where
  pub to : Text
  pub subject : Text
  pub body : Text

pub record SmtpSettings : Type 0 where
  pub host : String
  pub port : ℕ
  pub username : String
  pub password : String
  pub use_tls : Bool
  pub use_ssl : Bool

pub data SmtpCall : Type 0 where
  connect connect_ssl : String → ℕ → SmtpCall
  starttls : SmtpCall
  login : String → String → SmtpCall
  sendmail : Mail → SmtpCall

-- What has left the process, and the breaker of the transport.
pub record Outbox : Type 0 where
  pub printed : List Mail
  pub calls : List SmtpCall
  pub breaker : Breaker

pub data EmailTransport : Type 0 where
  console : EmailTransport
  smtp : SmtpSettings → EmailTransport

abbrev login_calls : SmtpSettings → List SmtpCall
login_calls c =
    if not (c.username =s "") && not (c.password =s "")
    then login c.username c.password ∷ []
    else []

-- The calls of one message, if none raises.
unfoldable pub smtp_calls : SmtpSettings → Mail → List SmtpCall
smtp_calls c mail =
    if c.use_ssl
    then connect_ssl c.host c.port ∷ (login_calls c ++ (sendmail mail ∷ []))
    else connect c.host c.port
      ∷ ((if c.use_tls then starttls ∷ [] else []) ++ (login_calls c ++ (sendmail mail ∷ [])))

-- `failure_threshold=3, reset_timeout=60.0`
abbrev pub smtp_threshold : ℕ
smtp_threshold = 3

abbrev pub smtp_timeout : ℕ
smtp_timeout = 60_000

abbrev pub after_call : Option Error → Exec Outbox (Unit {0}) → Exec Outbox (Unit {0})
after_call none rest o = rest o
after_call (some e) rest o = (err e, o)

module _ (raises : SmtpCall → Option Error) where
  -- The calls up to the first that raises.
  unfoldable pub perform : List SmtpCall → Exec Outbox (Unit {0})
  perform [] o = (ok tt, o)
  perform (call ∷ calls) o =
      after_call (raises call) (perform calls) (record o { calls = o.calls ++ (call ∷ []) })

  abbrev pub settle_send : ℕ → Outcome (Unit {0}) → Outbox → Outcome (Unit {0}) × Outbox
  settle_send later (ok _) o =
      (ok tt, record o { breaker = record_success smtp_threshold smtp_timeout o.breaker })
  settle_send later (err e) o = (
    err e,
    record o { breaker = record_breaker_failure smtp_threshold smtp_timeout later o.breaker },
  )

  -- `SMTPEmailTransport.send`, begun at `now` and over at `later`
  unfoldable pub send_smtp : SmtpSettings → ℕ → ℕ → Mail → Exec Outbox (Unit {0})
  unfolding smtp_calls perform before_call record_success record_breaker_failure
  send_smtp c now later mail o =
      let (admitted, b) = before_call smtp_threshold smtp_timeout now o.breaker in
      continue admitted
        (λ _ o'. let (r, o'') = perform (smtp_calls c mail) o' in settle_send later r o'')
        (record o { breaker = b })

  -- `ConsoleEmailTransport.send`
  abbrev pub send_console : Mail → Exec Outbox (Unit {0})
  send_console mail o = (ok tt, record o { printed = o.printed ++ (mail ∷ []) })

  -- `transport.send`, also by `EmailIntegrationAdapter.send`
  unfoldable pub send : EmailTransport → ℕ → ℕ → Mail → Exec Outbox (Unit {0})
  unfolding send_smtp
  send console now later mail = send_console mail
  send (smtp c) now later mail = send_smtp c now later mail

  -- `send_password_reset_email`
  unfoldable pub send_password_reset_email :
      EmailTransport → ℕ → ℕ → Text → Text → Exec Outbox (Unit {0})
  unfolding send
  send_password_reset_email transport now later to token = send transport now later (record {
    to = to;
    subject = codes "Password reset requested";
    body =
        codes
          "A password reset was requested for your account.\nUse this token to complete the reset: "
        ++ token;
  })

  -- `send_verification_email`
  unfoldable pub send_verification_email :
      EmailTransport → ℕ → ℕ → Text → Text → Exec Outbox (Unit {0})
  unfolding send
  send_verification_email transport now later to token = send transport now later (record {
    to = to;
    subject = codes "Verify your email address";
    body =
        codes
          "Please verify your email address to activate your account.\nUse this token to confirm your email: "
        ++ token;
  })

-- `EmailDeliveryService.__post_init__`, after `lower()`
abbrev pub choose_transport : String → SmtpSettings → EmailTransport
choose_transport backend c = if backend =s "smtp" then smtp c else console

-- `(f"{label}{plan_name}." if plan_name else "")`
abbrev pub plan_part : Text → Option Text → Text
plan_part label none = []
plan_part label (some []) = []
plan_part label (some (c ∷ cs)) = label ++ ((c ∷ cs) ++ codes ".")

-- `plan_name or 'your current plan'`
abbrev pub plan_or_current : Option Text → Text
plan_or_current none = codes "your current plan"
plan_or_current (some []) = codes "your current plan"
plan_or_current (some (c ∷ cs)) = c ∷ cs

abbrev pub subject_map : Dict Text Text
subject_map =
    (codes "subscription_assigned", codes "Your billing plan is now active")
    ∷ (codes "plan_changed", codes "Your billing plan has been updated")
    ∷ (codes "payment_failed", codes "We need to update your billing details")
    ∷ []

abbrev pub body_map : Option Text → Dict Text Text
body_map plan_name =
    (
      codes "subscription_assigned",
      codes "Your subscription is active and ready to use."
          ++ plan_part (codes " Plan: ") plan_name,
    )
    ∷ (
      codes "plan_changed",
      codes "Your billing plan has been updated." ++ plan_part (codes " New plan: ") plan_name,
    )
    ∷ (
      codes "payment_failed",
      codes "We could not process your most recent payment."
          ++ plan_part (codes " Plan: ") plan_name,
    )
    ∷ []

-- `d.get(key, default)`
abbrev pub or_default : Text → Option Text → Text
or_default other none = other
or_default other (some t) = t

-- `send_billing_event_email`
unfoldable pub send_billing_event_email :
    (SmtpCall → Option Error)
    → EmailTransport
    → ℕ
    → ℕ
    → Text
    → Text
    → Option Text
    → Exec Outbox (Unit {0})
unfolding send get
send_billing_event_email raises transport now later to event_type plan_name =
    send raises transport now later (record {
      to = to;
      subject = or_default (codes "Billing update") (get event_type subject_map);
      body =
          or_default
            (codes "A billing update is available for your account. Plan: "
              ++ (plan_or_current plan_name ++ codes "."))
            (get event_type (body_map plan_name));
    })
