-- ===== src/Tests/Services.antt =====
-- A mail server that is down, and a webhook that is signed, at concrete inputs.
use enterprise_fast_api_boil.Base.{
  ℕ, ◌-◌, ◌≡◌, refl, Bool, true, false, Option, none, some, List, [], ◌∷◌, ◌++◌, arith, ◌==◌,
}
use enterprise_fast_api_boil.Base.Int.{ℤ, pos}
use enterprise_fast_api_boil.Base.Dict.{get, put}
use enterprise_fast_api_boil.Base.Text.{Text, codes, nat_key, list_key, list_eq}
use enterprise_fast_api_boil.Base.Outcome.{Error, plain, domain, ok, err}
use enterprise_fast_api_boil.Resilience.CircuitBreaker.{closed, is_open_error}
use enterprise_fast_api_boil.Email.{
  Mail, SmtpSettings, SmtpCall, Outbox, smtp_calls, perform, send_smtp,
}
use enterprise_fast_api_boil.Email.Outage.{smtp_outage}
use enterprise_fast_api_boil.Config.{strip, strip_left, strip_right, split}
use enterprise_fast_api_boil.Billing.Adapters.{is_too_old, is_falsy, read_parts, verify_stripe}
use enterprise_fast_api_boil.Billing.Signature.{
  signature_of, header_of, stripe_roundtrip, stripe_sound,
}

abbrev host_down : Error
host_down = domain (plain "connection refused")

abbrev mail_settings : SmtpSettings
mail_settings = record {
  host = "localhost";
  port = 25;
  username = "";
  password = "";
  use_tls = false;
  use_ssl = false;
}

abbrev letter : Mail
letter = record { to = codes "ann@example.org"; subject = codes "Hello"; body = [] }

abbrev outbox : Outbox
outbox = record { printed = []; calls = []; breaker = closed }

abbrev all_fail : SmtpCall → Option Error
all_fail call = some host_down

perform_down :
    (o : Outbox) → (perform all_fail (smtp_calls mail_settings letter) o).0 ≡ err host_down
unfolding perform smtp_calls
perform_down o = refl

smtp_outage_example :
    let (r₁, o₁) = send_smtp all_fail mail_settings 0 5 letter outbox in
    let (r₂, o₂) = send_smtp all_fail mail_settings 10 15 letter o₁ in
    let (r₃, o₃) = send_smtp all_fail mail_settings 20 25 letter o₂ in
    (r₁ ≡ err host_down)
    × (r₂ ≡ err host_down)
    × (r₃ ≡ err host_down)
    × (send_smtp all_fail mail_settings 60_000 60_001 letter o₃ ≡ (err is_open_error, o₃))
smtp_outage_example =
    smtp_outage all_fail mail_settings letter host_down perform_down 0 5 10 15 20 25 60_000 60_001
      outbox refl (omega arith)

abbrev is_blank : ℕ → Bool
is_blank c = c == b' '

-- A number of one digit.
abbrev read_digit : Text → Option ℤ
read_digit [] = none
read_digit (c ∷ []) = some (pos (c - 48))
read_digit (c ∷ d ∷ ds) = none

abbrev as_is : List ℕ → Text
as_is bytes = bytes

-- In place of the digest: the key and the message.
abbrev joined : Text → Text → Text
joined key message = key ++ message

abbrev genuine_header : Text
genuine_header = header_of is_blank read_digit as_is joined host_down (codes "7") (codes "k7.{}")

plain_seven : strip is_blank (codes "7") ≡ codes "7"
unfolding strip_left strip_right
plain_seven = refl

plain_signature : strip is_blank (codes "k7.{}") ≡ codes "k7.{}"
unfolding strip_left strip_right
plain_signature = refl

plain_t : strip is_blank (codes "t") ≡ codes "t"
unfolding strip_left strip_right
plain_t = refl

plain_v1 : strip is_blank (codes "v1") ≡ codes "v1"
unfolding strip_left strip_right
plain_v1 = refl

stripe_roundtrip_example :
    verify_stripe is_blank read_digit as_is joined host_down 200
      (some (codes "k"))
      (codes "{}")
      genuine_header
    ≡ ok (record { verified = true; payload = codes "{}"; signature = genuine_header })
unfolding list_eq
stripe_roundtrip_example =
    stripe_roundtrip is_blank read_digit as_is joined host_down 200 (codes "k") (codes "7")
      (codes "k7.{}") (pos 7) (codes "{}") refl (refl, plain_seven, refl)
      (refl, plain_signature, refl) plain_t plain_v1 refl refl refl

genuine_run :
    verify_stripe is_blank read_digit as_is joined host_down 200
      (some (codes "k"))
      (codes "{}")
      genuine_header
    ≡ ok (record { verified = true; payload = codes "{}"; signature = genuine_header })
unfolding verify_stripe strip_left strip_right put
genuine_run = refl

stripe_sound_example :
    (key : Text) × (timestamp : Text) × (t : ℤ) × (some (codes "k") ≡ some key)
    × (is_falsy (some (codes "k")) ≡ false)
    × (read_digit timestamp ≡ some t)
    × (is_too_old 200 t ≡ false)
    × (get
          (codes "t")
          (read_parts is_blank read_digit as_is joined host_down (split genuine_header) [])
        ≡ some timestamp)
    × (get
          (codes "v1")
          (read_parts is_blank read_digit as_is joined host_down (split genuine_header) [])
        ≡ some (signature_of is_blank read_digit as_is joined host_down key timestamp (codes "{}")))
stripe_sound_example =
    stripe_sound is_blank read_digit as_is joined host_down 200 (some (codes "k")) (codes "{}")
      genuine_header (record { verified = true; payload = codes "{}"; signature = genuine_header })
      genuine_run refl
