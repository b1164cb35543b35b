-- ===== src/Billing/Adapters.antt =====
-- backend/integrations/stripe_adapter.py and backend/integrations/paypal_adapter.py. Texts are the lists of
-- the codes of their characters. HMAC-SHA256 as a hexadecimal text, `int` of a text, decoding of
-- UTF-8 and white space are parameters; times are seconds.
use enterprise_fast_api_boil.Base.{
  ℕ, ◌-◌, ◌+◌, Bool, true, false, not, ◌&&◌, ◌||◌, Option, none, some, List, [], ◌∷◌, ◌++◌, any,
  ltb, ◌==◌, if◌then◌else◌,
}
use enterprise_fast_api_boil.Base.Int.{ℤ, pos, negsuc}
use enterprise_fast_api_boil.Base.Dict.{Dict, get, put}
use enterprise_fast_api_boil.Base.Text.{Text, codes, nat_key, list_key, compare_digest}
use enterprise_fast_api_boil.Base.Outcome.{Outcome, ok, Error, and_then}
use enterprise_fast_api_boil.Config.{split, strip}

-- `{"verified", "payload", "signature"}`
pub record Verification : Type 0 where
  pub verified : Bool
  pub payload : Text
  pub signature : Text

pub record CheckoutSession : Type 0 where
  pub provider : Text
  pub checkout_url : Text
  pub plan_id : ℕ
  pub customer_id : Text
  pub mode : Text

abbrev pub equals : ℕ
equals = b'='

-- `"=" in t`
abbrev pub has_equals : Text → Bool
has_equals t = any (λ c. c == equals) t

-- `t.split("=", 1)`, where there is one
unfoldable pub split_once : Text → Text × Text
split_once [] = ([], [])
split_once (c ∷ cs) =
    let (key, value) = split_once cs in if c == equals then ([], cs) else (c ∷ key, value)

-- `not value`
abbrev pub is_falsy : Option Text → Bool
is_falsy none = true
is_falsy (some []) = true
is_falsy (some (c ∷ cs)) = false

-- `value or other`
abbrev pub or_other : Option Text → Option Text → Option Text
or_other value other = if is_falsy value then other else value

abbrev pub or_nothing : Option Text → Text
or_nothing none = []
or_nothing (some t) = t

-- `abs(now - t) > 300`
abbrev pub is_too_old : ℕ → ℤ → Bool
is_too_old now (pos t) = ltb 300 (now - t) || ltb 300 (t - now)
is_too_old now (negsuc t) = ltb 300 (now + t + 1)

module _ (is_space : ℕ → Bool) (int_of : Text → Option ℤ) (decode : List ℕ → Text)
    (hmac_sha256 : Text → Text → Text) (type_error : Error) where
  -- One `key=value` of the header.
  abbrev pub add_part : Text → Dict Text Text → Dict Text Text
  add_part item parts =
      if has_equals item
      then put (strip is_space (split_once item).0) (strip is_space (split_once item).1) parts
      else parts

  unfoldable pub read_parts : List Text → Dict Text Text → Dict Text Text
  unfolding split_once put
  read_parts [] parts = parts
  read_parts (item ∷ items) parts = read_parts items (add_part item parts)

  abbrev pub rejected : List ℕ → Text → Verification
  rejected payload header = record {
    verified = false;
    payload = decode payload;
    signature = header;
  }

  abbrev pub digest_matches : Text → Text → List ℕ → Text → Outcome Verification
  digest_matches value expected payload header =
      and_then (compare_digest type_error value expected)
        (λ v. ok (record { verified = v; payload = decode payload; signature = header }))

  abbrev pub check_time : ℕ → Text → Text → Text → Option ℤ → List ℕ → Text → Outcome Verification
  check_time now secret timestamp value none payload header = ok (rejected payload header)
  check_time now secret timestamp value (some t) payload header =
      if is_too_old now t
      then ok (rejected payload header)
      else digest_matches value (hmac_sha256 secret (timestamp ++ (codes "." ++ decode payload)))
          payload header

  abbrev pub check_parts :
      ℕ → Text → Option Text → Option Text → List ℕ → Text → Outcome Verification
  check_parts now secret timestamp value payload header =
      if is_falsy timestamp || is_falsy value
      then ok (rejected payload header)
      else check_time now secret (or_nothing timestamp) (or_nothing value)
          (int_of (or_nothing timestamp)) payload header

  -- `StripeAdapter.verify_webhook_signature`
  unfoldable pub verify_stripe : ℕ → Option Text → List ℕ → Text → Outcome Verification
  unfolding read_parts split get compare_digest
  verify_stripe now secret payload header =
      let parts = read_parts (split header) [] in
      if is_falsy secret
      then ok (rejected payload header)
      else check_parts now (or_nothing secret) (get (codes "t") parts) (get (codes "v1") parts)
          payload header

  abbrev pub without_label : Text → Text
  without_label t = if has_equals t then (split_once t).1 else t

  -- `PayPalAdapter.verify_webhook_signature`
  unfoldable pub verify_paypal : Option Text → Option Text → List ℕ → Text → Outcome Verification
  unfolding split_once compare_digest
  verify_paypal webhook_id client_secret payload header =
      let secret = or_other webhook_id client_secret in
      if is_falsy secret
      then ok (rejected payload header)
      else digest_matches (without_label (strip is_space header))
          (hmac_sha256 (or_nothing secret) (decode payload)) payload header

module _ (str : ℕ → Text) where
  abbrev pub session_of : Text → Text → Bool → ℕ → ℕ → Text → CheckoutSession
  session_of provider prefix live user_id plan_id success_url = record {
    provider = provider;
    checkout_url = success_url;
    plan_id = plan_id;
    customer_id = prefix ++ str user_id;
    mode = if live then codes "live" else codes "sandbox";
  }

  -- `StripeAdapter.create_checkout_session`: the settings' key, or that of the environment.
  abbrev pub stripe_checkout : Option Text → Option Text → ℕ → ℕ → Text → CheckoutSession
  stripe_checkout key env_key user_id plan_id success_url =
      session_of (codes "stripe") (codes "cus_") (not (is_falsy (or_other key env_key))) user_id
        plan_id success_url

  -- `PayPalAdapter.create_checkout_session`
  abbrev pub paypal_checkout :
      Option Text → Option Text → Option Text → Option Text → ℕ → ℕ → Text → CheckoutSession
  paypal_checkout client_id env_id client_secret env_secret user_id plan_id success_url =
      session_of (codes "paypal") (codes "pp_")
        (not (is_falsy (or_other client_id env_id))
          && not (is_falsy (or_other client_secret env_secret)))
        user_id plan_id success_url
