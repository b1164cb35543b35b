-- ===== src/Jobs/Registry.antt =====
-- The kinds of jobs: backend/infrastructure/queue/registry.py, and `enqueue` of
-- backend/infrastructure/queue/inprocess_queue.py. The number of calls is from the settings.
use enterprise_fast_api_boil.Base.{ℕ, ◌-◌, String, Option, none, some, List, []}
use enterprise_fast_api_boil.Base.Dict.{Dict, text_key, get, put}
use enterprise_fast_api_boil.Base.Outcome.{value_error, Outcome, Exec, raise}
use enterprise_fast_api_boil.Resilience.Retry.{retry_async}
use enterprise_fast_api_boil.Jobs.{Manager, enqueue_in_loop}

module _ (S Payload : Type 0) where
  -- `JOB_REGISTRY`
  abbrev pub Registry : Type 0
  Registry = Dict String (Payload → Exec S (Unit {0}))

module _ {S Payload : Type 0} where
  -- `register_job_handler`
  abbrev pub register_job_handler :
      String → (Payload → Exec S (Unit {0})) → Registry S Payload → Registry S Payload
  register_job_handler job_type handler registry = put job_type handler registry

  abbrev pub call_handler : Option (Payload → Exec S (Unit {0})) → Payload → Exec S (Unit {0})
  call_handler none payload = raise (value_error "Unknown job type")
  call_handler (some handler) payload = handler payload

  -- `handler` of `InProcessJobQueue.enqueue`, which looks its kind up when it runs
  unfoldable pub job_of : Registry S Payload → String → Payload → Exec S (Unit {0})
  job_of registry job_type payload = call_handler (get job_type registry) payload

  -- `InProcessJobQueue.enqueue` in the event loop
  unfoldable pub enqueue :
      Registry S Payload
      → String
      → Payload
      → Manager (Exec S (Unit {0}))
      → Manager (Exec S (Unit {0}))
  unfolding job_of enqueue_in_loop
  enqueue registry job_type payload m = enqueue_in_loop (job_of registry job_type payload) m

  abbrev pub execute_with :
      ℕ → Option (Payload → Exec S (Unit {0})) → Payload → S → Outcome (Unit {0}) × S × List ℕ
  execute_with max_attempts none payload s =
      let (r, s') = raise (value_error "Unknown job type") s in (r, s', [])
  execute_with max_attempts (some handler) payload s =
      retry_async (handler payload) (max_attempts - 1) 500 2 s

  -- `execute_job`, with the pauses in milliseconds
  unfoldable pub execute_job :
      ℕ → Registry S Payload → String → Payload → S → Outcome (Unit {0}) × S × List ℕ
  execute_job max_attempts registry job_type payload s =
      execute_with max_attempts (get job_type registry) payload s
