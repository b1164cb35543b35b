-- ===== src/Config.antt =====
-- The checks of the settings: `_parse_string_list` and the validators of `Settings` in
-- backend/core/config.py, and the password pattern of backend/common/schema.py. A text is the list of
-- the codes of its characters; `json.loads` and the lower case of a text are Python's, and so are the
-- white space that `strip` takes away and the digits of a pattern.
pub mod StringLists
pub mod Passwords
pub mod PasswordRules
pub mod Environment
pub mod Settings
pub mod Precedence
use enterprise_fast_api_boil.Base.{
  ℕ, suc, String, Bool, true, false, not, ◌&&◌, ◌||◌, Option, none, some, List, [], ◌∷◌, ◌++◌, map,
  any, length, select, contains, leb, ◌==◌, ◌=s◌, if◌then◌else◌,
}
use enterprise_fast_api_boil.Base.Outcome.{value_error, Outcome, ok, err, and_then}

abbrev pub Text : Type 0
Text = List ℕ

abbrev pub comma : ℕ
comma = 44

abbrev pub bracket : ℕ
bracket = 91

abbrev pub add_char : ℕ → List Text → List Text
add_char c [] = (c ∷ []) ∷ []
add_char c (part ∷ parts) = (c ∷ part) ∷ parts

-- `value.split(",")`
unfoldable pub split : Text → List Text
split [] = [] ∷ []
split (c ∷ cs) = if c == comma then [] ∷ split cs else add_char c (split cs)

module _ (is_space : ℕ → Bool) where
  unfoldable pub strip_left : Text → Text
  strip_left [] = []
  strip_left (c ∷ cs) = let rest = strip_left cs in if is_space c then rest else c ∷ cs

  abbrev pub append_unless : ℕ → Text → Text
  append_unless c [] = if is_space c then [] else c ∷ []
  append_unless c (d ∷ ds) = c ∷ d ∷ ds

  unfoldable pub strip_right : Text → Text
  strip_right [] = []
  strip_right (c ∷ cs) = append_unless c (strip_right cs)

  -- `item.strip()`
  abbrev pub strip : Text → Text
  strip t = strip_right (strip_left t)

  abbrev pub is_full : Text → Bool
  is_full [] = false
  is_full (c ∷ cs) = true

  -- `[item.strip() for item in items if item.strip()]`
  unfoldable pub clean : List Text → List Text
  unfolding strip_left strip_right
  clean [] = []
  clean (item ∷ items) =
      let rest = clean items in if is_full (strip item) then strip item ∷ rest else rest

  abbrev pub starts_with_bracket : Text → Bool
  starts_with_bracket [] = false
  starts_with_bracket (c ∷ cs) = c == bracket

  -- What the settings may be given: nothing, a list or a text.
  pub data Raw : Type 0 where
    missing : Raw
    listed : List Text → Raw
    written : Text → Raw

  abbrev parsed_or : Option (List Text) → Text → List Text
  parsed_or none t = clean (split t)
  parsed_or (some items) t = clean items

  -- `_parse_string_list`; `loads` gives the list that a JSON text stands for, if it does.
  unfoldable pub parse_string_list : (Text → Option (List Text)) → Raw → List Text
  unfolding split clean
  parse_string_list loads missing = []
  parse_string_list loads (listed items) = clean items
  parse_string_list loads (written t) =
      if starts_with_bracket t then parsed_or (loads t) t else clean (split t)

-- The settings that the validators read.
pub record Values : Type 0 where
  pub environment : String
  pub secret_key : String
  pub default_admin_password : String
  pub payment_providers_enabled : List String
  pub stripe_webhook_secret : Option String
  pub paypal_webhook_id : Option String
  pub paypal_client_secret : Option String
  pub upload_backend : String
  pub s3_bucket : Option String
  pub s3_access_key_id : Option String
  pub s3_secret_access_key : Option String
  pub azure_storage_connection_string : Option String
  pub azure_storage_container : Option String
  pub cors_origins : List String

-- `_INSECURE_WEBHOOK_DEFAULTS`
abbrev pub insecure_webhook_defaults : List String
insecure_webhook_defaults =
    "replace-me" ∷ "dev-stripe-webhook-secret" ∷ "dev-paypal-webhook-secret" ∷ "" ∷ []

-- `value or other`
abbrev pub or_text : Option String → String → String
or_text none other = other
or_text (some t) other = if t =s "" then other else t

abbrev reject_if : Bool → String → Outcome (Unit {0})
reject_if c message = if c then err (value_error message) else ok tt

-- `validate_environment`, after `lower().strip()`
abbrev pub validate_environment : String → Outcome String
validate_environment normalized =
    if contains normalized ("dev" ∷ "staging" ∷ "prod" ∷ [])
    then ok normalized
    else err (value_error "environment must be one of ['dev', 'prod', 'staging']")

abbrev is_deployed : Values → Bool
is_deployed v = v.environment =s "prod" || v.environment =s "staging"

-- `_reject_insecure_prod_defaults`
unfoldable pub reject_insecure_prod_defaults : Values → Outcome (Unit {0})
reject_insecure_prod_defaults v =
    if is_deployed v
    then and_then (reject_if (v.secret_key =s "change-me-in-production") "SECRET_KEY") (λ _.
      and_then (reject_if (v.default_admin_password =s "Admin123!") "DEFAULT_ADMIN_PASSWORD") (λ _.
        and_then
          (reject_if
            (contains "stripe" v.payment_providers_enabled
              && contains (or_text v.stripe_webhook_secret "") insecure_webhook_defaults)
            "STRIPE_WEBHOOK_SECRET")
          (λ _.
            reject_if
              (contains "paypal" v.payment_providers_enabled
                && contains (or_text v.paypal_webhook_id (or_text v.paypal_client_secret ""))
                    insecure_webhook_defaults)
              "PAYPAL_WEBHOOK_ID/PAYPAL_CLIENT_SECRET")))
    else ok tt

abbrev is_missing : Option String → Bool
is_missing o = or_text o "" =s ""

-- `_validate_upload_backend_configuration`
unfoldable pub validate_upload_backend_configuration : Values → Outcome (Unit {0})
validate_upload_backend_configuration v =
    and_then
      (reject_if
        (v.upload_backend =s "s3"
          && (is_missing v.s3_bucket
              || is_missing v.s3_access_key_id
              || is_missing v.s3_secret_access_key))
        "S3 upload backend")
      (λ _.
        reject_if
          (v.upload_backend =s "azure"
            && (is_missing v.azure_storage_connection_string
                || is_missing v.azure_storage_container))
          "Azure upload backend")

-- `_reject_wildcard_origin_with_credentials`
unfoldable pub reject_wildcard_origin : Values → Outcome (Unit {0})
reject_wildcard_origin v = reject_if (contains "*" v.cors_origins) "CORS_ORIGINS cannot include '*'"

-- The validators of the whole, in their order.
unfoldable pub validate : Values → Outcome (Unit {0})
unfolding reject_insecure_prod_defaults validate_upload_backend_configuration reject_wildcard_origin
validate v =
    and_then (reject_insecure_prod_defaults v)
      (λ _. and_then (validate_upload_backend_configuration v) (λ _. reject_wildcard_origin v))
