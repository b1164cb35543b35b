-- ===== src/RequestContext.antt =====
-- `add_request_context` of backend/main.py, the middleware around every request, with the limiter of
-- backend/resilience/rate_limit.py and the collector of backend/observability/metrics.py. The handler
-- behind it is an argument, and so are `uuid4`, `split(",")[0].strip()` and `upper`. Log lines and
-- spans are left out.
pub mod Once
use enterprise_fast_api_boil.Base.{
  ℕ, String, Bool, true, false, not, ◌&&◌, Option, none, some, List, [], ◌∷◌, ◌++◌, contains, ltb,
  ◌=s◌, if◌then◌else◌,
}
use enterprise_fast_api_boil.Base.Dict.{Dict, text_key, put}
use enterprise_fast_api_boil.Base.Outcome.{Error, Outcome, ok, err, Exec}
use enterprise_fast_api_boil.Resilience.RateLimit.Redis.{SortedSets, RedisReply, Limiter, allow}
use enterprise_fast_api_boil.Metrics.{MetricsCollector, record_request}

pub record Request : Type 0 where
  pub method : String
  pub path : String
  pub peer : Option String
  pub request_id : Option String
  pub trace_id : Option String
  pub forwarded_for : String
  -- the path of the route that matched
  pub route : Option String

pub record Response : Type 0 where
  pub status_code : ℕ
  pub headers : Dict String String

pub record Config : Type 0 where
  pub request_id_header : String
  pub require_https : Bool
  pub trust_proxy_headers : Bool
  pub trusted_proxy_ips : List String
  pub enable_rate_limiting : Bool
  pub rate_limit_requests_per_minute : ℕ

-- One entry of the audit log.
pub record Entry : Type 0 where
  pub action : String
  pub status_code : ℕ
  pub success : Bool

-- The process around the state of the handlers.
pub record Front (redis : SortedSets) (S : Type 0) : Type 0 where
  pub inner : S
  pub limiter : Limiter redis
  pub metrics : MetricsCollector
  pub entries : List Entry

abbrev pub text_or : String → Option String → String
text_or other none = other
text_or other (some text) = if text =s "" then other else text

-- `route.path if route is not None else "unmatched"`
abbrev pub path_template : Option String → String
path_template none = "unmatched"
path_template (some path) = path

module _ (config : Config) (first_address upper : String → String) where
  -- `request.client.host if request.client else "unknown"`
  abbrev pub peer_ip : Option String → String
  peer_ip none = "unknown"
  peer_ip (some host) = host

  unfoldable pub client_ip : Request → String
  client_ip request =
      let peer = peer_ip request.peer in
      if config.trust_proxy_headers && contains peer config.trusted_proxy_ips
      then (if request.forwarded_for =s "" then peer else first_address request.forwarded_for)
      else peer

  -- `apply_security_headers`
  unfoldable pub apply_security_headers : String → String → Response → Response
  apply_security_headers request_id trace_id response = record response {
    headers =
        let named = put "permissions-policy" "geolocation=(), microphone=(), camera=()" (
          put "content-security-policy"
            "default-src 'self'; frame-ancestors 'none'; base-uri 'self'"
            (put "referrer-policy" "strict-origin-when-cross-origin" (
              put "x-frame-options" "DENY" (
                put "x-content-type-options" "nosniff" (
                  put "x-trace-id" trace_id
                    (put config.request_id_header request_id response.headers)))))) in
        if config.require_https
        then put "strict-transport-security" "max-age=31536000; includeSubDomains" named
        else named;
  }

  module _ {redis : SortedSets} {S : Type 0} where
    abbrev pub write_entry : String → ℕ → Bool → Front redis S → Front redis S
    write_entry action code success f = record f {
      entries =
          f.entries ++ (record { action = action; status_code = code; success = success } ∷ []);
    }

    -- The `finally` block
    abbrev pub count_request : Request → ℕ → Front redis S → Front redis S
    count_request request code f = record f {
      metrics = record_request upper request.method code (path_template request.route) f.metrics;
    }

    abbrev pub answered :
        Request
        → String
        → String
        → Outcome Response
        → Front redis S
        → Outcome Response × Front redis S
    answered request request_id trace_id (ok response) f = (
      ok (apply_security_headers request_id trace_id response),
      count_request request response.status_code
          (write_entry "http.request" response.status_code (ltb response.status_code 400) f),
    )
    answered request request_id trace_id (err e) f =
        (err e, count_request request 500 (write_entry "http.request" 500 false f))

    abbrev pub pass_on :
        Request
        → String
        → String
        → Exec S Response
        → Front redis S
        → Outcome Response × Front redis S
    pass_on request request_id trace_id call_next f =
        let (r, s) = call_next f.inner in
        answered request request_id trace_id r (record f { inner = s })

    -- `build_error_response(429, "Too many requests")`
    abbrev pub reject : Request → String → String → Front redis S → Outcome Response × Front redis S
    reject request request_id trace_id f = (
      ok (apply_security_headers request_id trace_id (record { status_code = 429; headers = [] })),
      count_request request 429 (write_entry "http.request_rejected" 429 false f),
    )

    -- `settings.enable_rate_limiting and not await rate_limiter.allow_request(...)`
    abbrev pub check_limit : RedisReply redis → ℕ → Request → Exec (Front redis S) Bool
    check_limit reply clock request f =
        if config.enable_rate_limiting
        then (let (allowed, limiter) =
              allow redis reply clock (client_ip request, request.path)
                config.rate_limit_requests_per_minute f.limiter in
            (allowed, record f { limiter = limiter }))
        else (ok true, f)

    -- What follows the check, within the same `try`.
    abbrev pub after_check :
        Request → String → String → Exec S Response → Outcome Bool → Exec (Front redis S) Response
    after_check request request_id trace_id call_next (ok true) f =
        pass_on request request_id trace_id call_next f
    after_check request request_id trace_id call_next (ok false) f =
        reject request request_id trace_id f
    after_check request request_id trace_id call_next (err e) f =
        answered request request_id trace_id (err e) f

    -- `add_request_context`; `fresh_id` is the drawn identifier.
    unfoldable pub add_request_context :
        RedisReply redis → ℕ → String → Request → Exec S Response → Exec (Front redis S) Response
    unfolding allow apply_security_headers client_ip record_request
    add_request_context reply clock fresh_id request call_next f =
        let request_id = text_or fresh_id request.request_id in
        let trace_id = text_or request_id request.trace_id in
        let (allowed, f') = check_limit reply clock request f in
        after_check request request_id trace_id call_next allowed f'
