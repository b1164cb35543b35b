-- ===== src/Tests/Requests.antt =====
-- Theorems on the middlewares, applied to small requests.
use enterprise_fast_api_boil.Base.{
  ℕ, zero, suc, ◌≤◌, ◌≡◌, ◌⊎◌, refl, String, Bool, true, false, Option, none, some, List, [], ◌∷◌,
  ◌=s◌, ◌==◌, if◌then◌else◌,
}
use enterprise_fast_api_boil.Base.Int.{ℤ, pos}
use enterprise_fast_api_boil.Base.Outcome.{Exec, err, value_error, http}
use enterprise_fast_api_boil.Users.{record_failure}
use enterprise_fast_api_boil.Users as Users
use enterprise_fast_api_boil.Metrics.{no_requests}
use enterprise_fast_api_boil.Resilience.RateLimit.Redis.{choose_limiter, raises}
use enterprise_fast_api_boil.Tests.Counters.{sorted_sets}
use enterprise_fast_api_boil.RequestContext.{Request, Response, Config, Front, add_request_context}
use enterprise_fast_api_boil.RequestContext.Once.{IsRecorded, handled_once}
use enterprise_fast_api_boil.Products.{ProductCreate}
use enterprise_fast_api_boil.Auth.Routes.{with_db, login_handler}
use enterprise_fast_api_boil.Auth.Failures.{failed_login_counts}
use enterprise_fast_api_boil.Tests.Data.{server, cy}
use enterprise_fast_api_boil.Tests.Memory.{in_memory}
use enterprise_fast_api_boil.Tests.Sessions.{auth, limits, tokens}
use enterprise_fast_api_boil.Config.{Text}
use enterprise_fast_api_boil.RequestSize.{
  App, Message, request, disconnect, receives, respond, too_large, status, http_scope,
  declares_too_much, call,
}
use enterprise_fast_api_boil.RequestSize.Bound.{total_bytes, size_bound}

abbrev same : String → String
same t = t

abbrev read_three : String → Option ℤ
read_three t = if t =s "3" then some (pos 3) else none

-- Two pieces of two bytes.
abbrev pieces : ℕ → Message
pieces zero = request (1 ∷ 2 ∷ [])
pieces (suc zero) = request (3 ∷ 4 ∷ [])
pieces (suc (suc n)) = disconnect

-- An application that reads two messages.
abbrev reader : App false
reader = receives (λ first. receives (λ second. respond 200) too_large) too_large

abbrev three_declared : List (String × String)
three_declared = ("content-length", "3") ∷ []

size_bound_example :
    (total_bytes (call same read_three 3 (http_scope three_declared) pieces reader).1 ≤ 3)
    × ((declares_too_much same read_three 3 three_declared ≡ false)
        ⊎ (call same read_three 3 (http_scope three_declared) pieces reader ≡ (status 413, [])))
size_bound_example = size_bound same read_three 3 three_declared pieces reader

abbrev config : Config
config = record {
  request_id_header = "x-request-id";
  require_https = true;
  trust_proxy_headers = false;
  trusted_proxy_ips = [];
  enable_rate_limiting = true;
  rate_limit_requests_per_minute = 0;
}

abbrev get_health : Request
get_health = record {
  method = "GET";
  path = "/health";
  peer = some "10.0.0.1";
  request_id = none;
  trace_id = none;
  forwarded_for = "";
  route = none;
}

abbrev failing : Exec ℕ Response
failing n = (err (value_error "no"), n)

abbrev front : Front sorted_sets ℕ
front = record {
  inner = 0;
  limiter = choose_limiter sorted_sets "prod" (λ k. ([], none));
  metrics = no_requests;
  entries = [];
}

-- Redis does not answer, so that the limiter raises.
handled_once_example : IsRecorded config same same get_health front (
    add_request_context config same same (raises (λ k. ([], none))) 1 "r1" get_health failing front)
handled_once_example =
    handled_once config same same get_health (raises (λ k. ([], none))) 1 "r1" failing front

abbrev lamp : ProductCreate (λ (cents : ℕ). cents)
lamp = record { name = "lamp"; description = none; price = 1999 }

abbrev refuse : String → String → Bool
refuse password hash = false

failed_login_counts_example :
    ((with_db in_memory
        (login_handler in_memory tokens limits same refuse "cy@example.org" "guess")
        auth).0
      ≡ err (http 401 "Incorrect email or password"))
    × ((with_db in_memory
          (login_handler in_memory tokens limits same refuse "cy@example.org" "guess")
          auth).1.server.durable.users
        ≡ Users.update_user 3 (record_failure 0) server.work.users)
    × ((with_db in_memory
          (login_handler in_memory tokens limits same refuse "cy@example.org" "guess")
          auth).1.server.work.users
        ≡ Users.update_user 3 (record_failure 0) server.work.users)
    × ((with_db in_memory
          (login_handler in_memory tokens limits same refuse "cy@example.org" "guess")
          auth).1.server.audit
        ≡ ("auth.login_failed" ∷ []))
failed_login_counts_example =
    failed_login_counts in_memory tokens limits same refuse "cy@example.org" "guess" auth cy refl
      refl refl

abbrev is_blank : ℕ → Bool
is_blank c = c == 32

abbrev no_json : Text → Option (List Text)
no_json t = none

abbrev two_items : List Text
two_items = (97 ∷ []) ∷ (98 ∷ 99 ∷ []) ∷ []
