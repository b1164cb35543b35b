-- ===== src/RequestContext/Once.antt =====
-- The record that is kept of every request: backend/main.py.
use enterprise_fast_api_boil.Base.{
  Bool, true, false, ℕ, String, ◌≡◌, ◌∙◌, refl, ap, Bool-cases, inl, inr, [], ◌∷◌, ◌++◌, ltb,
}
use enterprise_fast_api_boil.Base.Outcome.{Outcome, ok, err, Exec}
use enterprise_fast_api_boil.Metrics.{record_request}
use enterprise_fast_api_boil.Resilience.RateLimit.Redis.{SortedSets, RedisReply}
use enterprise_fast_api_boil.RequestContext.{
  after_check, Request, Response, Config, Entry, Front, path_template, check_limit, text_or,
  answered, apply_security_headers, reject, add_request_context,
}

-- The status that the client is answered with; an exception becomes 500.
abbrev pub status_of : Outcome Response → ℕ
status_of (ok response) = response.status_code
status_of (err e) = 500

abbrev pub entry_of : String → Outcome Response → Entry
entry_of action r = record {
  action = action;
  status_code = status_of r;
  success = ltb (status_of r) 400;
}

module _ (config : Config) (first_address upper : String → String) {redis : SortedSets} {S : Type 0}
    (request : Request) where
  -- What a request with an answer adds to the record of the process.
  pub record IsRecorded (f : Front redis S) (answer : Outcome Response × Front redis S)
      : Type 0 where
    pub action : String
    pub counted :
        answer.1.metrics
        ≡ record_request upper request.method
            (status_of answer.0)
            (path_template request.route)
            f.metrics
    pub written : answer.1.entries ≡ f.entries ++ (entry_of action answer.0 ∷ [])

  answered-IsRecorded :
      (request_id trace_id : String) (r : Outcome Response) (f : Front redis S)
      → IsRecorded f (answered config first_address upper request request_id trace_id r f)
  unfolding apply_security_headers
  answered-IsRecorded request_id trace_id (ok response) f = record {
    action = "http.request";
    counted = refl;
    written = refl;
  }
  answered-IsRecorded request_id trace_id (err e) f = record {
    action = "http.request";
    counted = refl;
    written = refl;
  }

  reject-IsRecorded :
      (request_id trace_id : String) (f : Front redis S)
      → IsRecorded f (reject config first_address upper request request_id trace_id f)
  unfolding apply_security_headers
  reject-IsRecorded request_id trace_id f = record {
    action = "http.request_rejected";
    counted = refl;
    written = refl;
  }

  -- The limiter leaves the record as it is.
  check_limit_lem :
      (reply : RedisReply redis) (clock : ℕ) (f : Front redis S)
      → let g = (check_limit config first_address upper reply clock request f).1 in
        (g.metrics ≡ f.metrics) × (g.entries ≡ f.entries)
  check_limit_lem reply clock f = elim (Bool-cases config.enable_rate_limiting) [
    | inl h ↦ rw h (refl, refl)
    | inr h ↦ rw h (refl, refl)
  ]

  same-IsRecorded :
      (f g : Front redis S) (answer : Outcome Response × Front redis S)
      → (g.metrics ≡ f.metrics) × (g.entries ≡ f.entries)
      → IsRecorded g answer
      → IsRecorded f answer
  same-IsRecorded f g answer (e, e') h = record {
    action = h.action;
    counted =
        h.counted
        ∙ ap
            (record_request upper request.method (status_of answer.0) (path_template request.route))
            e;
    written = h.written ∙ ap (λ entries. entries ++ (entry_of h.action answer.0 ∷ [])) e';
  }

  after_check-IsRecorded :
      (request_id trace_id : String) (call_next : Exec S Response) (allowed : Outcome Bool)
      (f : Front redis S)
      → IsRecorded f
          (after_check config first_address upper request request_id trace_id call_next allowed f)
  after_check-IsRecorded request_id trace_id call_next (ok true) f =
      let passed : Front redis S = record f { inner = (call_next f.inner).1 } in
      same-IsRecorded f passed
        (answered config first_address upper request request_id trace_id (call_next f.inner).0
          passed)
        (refl, refl) (answered-IsRecorded request_id trace_id (call_next f.inner).0 passed)
  after_check-IsRecorded request_id trace_id call_next (ok false) f =
      reject-IsRecorded request_id trace_id f
  after_check-IsRecorded request_id trace_id call_next (err e) f =
      answered-IsRecorded request_id trace_id (err e) f

  -- Every request, whether it is refused, answered or ends in an exception, of the handler or of the
  -- limiter, is counted once in the metrics and written once to the audit log, both with the status
  -- that the client gets.
  pub handled_once :
      (reply : RedisReply redis) (clock : ℕ) (fresh_id : String) (call_next : Exec S Response)
      (f : Front redis S)
      → IsRecorded f
          (add_request_context config first_address upper reply clock fresh_id request call_next f)
  unfolding add_request_context
  handled_once reply clock fresh_id call_next f =
      let id = text_or fresh_id request.request_id in
      let trace = text_or id request.trace_id in
      let (allowed, g) = check_limit config first_address upper reply clock request f in
      same-IsRecorded f g
        (after_check config first_address upper request id trace call_next allowed g)
        (check_limit_lem reply clock f) (after_check-IsRecorded id trace call_next allowed g)
