-- ===== src/Jobs/Steps.antt =====
-- The steps that `BackgroundJobManager` of backend/common/background_jobs.py can take, in any order.
use enterprise_fast_api_boil.Base.{◌≡◌, some, List, ◌∷◌}
use enterprise_fast_api_boil.Base.Outcome.{Error}
use enterprise_fast_api_boil.Jobs.{
  Manager, waiting, running, start, enqueue_in_loop, enqueue_outside, take_job, settle, bury,
  interrupt, stop,
}

module _ {J : Type 0} where
  pub data Step : Manager J → Manager J → Type 0 where
    starts : (m : Manager J) → Step m (start m)
    enqueues : (m : Manager J) (job : J) → Step m (enqueue_in_loop job m)
    enqueues_outside : (m : Manager J) (job : J) → Step m (enqueue_outside job m)
    takes :
        (m : Manager J) (job : J) (rest : List J)
        → m.task ≡ waiting
        → m.queue ≡ some (job ∷ rest)
        → Step m (take_job job rest m)
    finishes : (m : Manager J) (job : J) → m.task ≡ running job → Step m (settle m)
    fails :
        (m : Manager J) (job : J) (e : Error) → m.task ≡ running job → Step m (settle (bury e m))
    -- the job itself raises `CancelledError`
    is_interrupted : (m : Manager J) (job : J) → m.task ≡ running job → Step m (interrupt m)
    stops : (m : Manager J) → Step m (stop m)

  -- What a sequence of steps leads to.
  pub data Reach (m : Manager J) : Manager J → Type 0 where
    here : Reach m m
    next : {n k : Manager J} → Reach m n → Step n k → Reach m k
