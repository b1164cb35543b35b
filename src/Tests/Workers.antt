-- ===== src/Tests/Workers.antt =====
-- Theorems on the queue in the process, applied to jobs that count and a job that fails.
use enterprise_fast_api_boil.Base.{ℕ, ◌+◌, ◌≡◌, refl, true, some, List, [], ◌∷◌, arith}
use enterprise_fast_api_boil.Base.Outcome.{value_error, ok, err, Exec}
use enterprise_fast_api_boil.Jobs.{Manager, fresh, enqueue_in_loop, take_job}
use enterprise_fast_api_boil.Resilience.Retry.{retry_async}
use enterprise_fast_api_boil.Jobs.Steps.{Reach, enqueues, here, next}
use enterprise_fast_api_boil.Jobs.Drain.{run_turns, worker_drains}

abbrev count_one : Exec ℕ (Unit {0})
count_one n = (ok tt, n + 1)

abbrev fail_once : Exec ℕ (Unit {0})
fail_once n = (err (value_error "no"), n + 10)

abbrev jobs : List (Exec ℕ (Unit {0}))
jobs = count_one ∷ fail_once ∷ []

abbrev loaded : Manager (Exec ℕ (Unit {0}))
loaded = enqueue_in_loop fail_once (enqueue_in_loop count_one fresh)

abbrev loading : Reach fresh loaded
loading =
    next (next here (enqueues fresh count_one))
      (enqueues (enqueue_in_loop count_one fresh) fail_once)

abbrev at_work : Manager (Exec ℕ (Unit {0}))
at_work = take_job count_one (fail_once ∷ []) loaded

worker_drains_example :
    ((run_turns 2 (loaded, 0)).0.idle ≡ true)
    × ((run_turns 2 (loaded, 0)).0.queue ≡ some [])
    × ((run_turns 2 (loaded, 0)).1 ≡ 31)
unfolding enqueue_in_loop retry_async
worker_drains_example = worker_drains jobs loaded 0 loading refl refl (λ h. ground arith)
