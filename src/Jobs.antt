-- ===== src/Jobs.antt =====
-- The queue in the process: `QueueBackend` and `BackgroundJobManager` of
-- backend/common/background_jobs.py. What runs between two points where the event loop may switch
-- is one operation. There is one event loop; a call from another thread is one that has no running
-- loop. A job is what its call does to the state of the server.
pub mod Steps
pub mod Idle
pub mod Drain
pub mod Registry
use enterprise_fast_api_boil.Base.{
  ℕ, suc, ◌+◌, ◌-◌, String, Bool, true, false, ◌&&◌, Option, none, some, List, [], ◌∷◌, ◌++◌,
  length, drop, ltb, ◌==◌, if◌then◌else◌,
}
use enterprise_fast_api_boil.Base.Outcome.{Error, Outcome, ok, err, Exec}
use enterprise_fast_api_boil.Resilience.Retry.{retry_async}

module _ (J : Type 0) where
  -- `_task`: none, or done; at the head of its loop; in a job.
  pub data Task : Type 0 where
    absent waiting : Task
    running : J → Task

  pub record Manager : Type 0 where
    -- `_queue_backend._queue`, which is made by the first call in the event loop
    pub queue : Option (List J)
    -- `_queue_backend._pending_jobs`
    pub pending_jobs : List J
    pub task : Task
    pub dead_letter : List Error
    pub active_jobs : ℕ
    pub pending_job_count : ℕ
    -- `_idle_event`
    pub idle : Bool

abbrev pub dead_letter_limit : ℕ
dead_letter_limit = 50

-- `self._dead_letter[-limit:]` once the list is too long
abbrev pub trimmed : List Error → List Error
trimmed dead =
    if ltb dead_letter_limit (length dead)
    then drop (length dead - dead_letter_limit) dead
    else dead

module _ {J : Type 0} where
  -- `BackgroundJobManager.__init__`, and the end of `reset`
  abbrev pub fresh : Manager J
  fresh = record {
    queue = none;
    pending_jobs = [];
    task = absent;
    dead_letter = [];
    active_jobs = 0;
    pending_job_count = 0;
    idle = true;
  }

  abbrev pub made_queue : Option (List J) → List J → List J
  made_queue none pending = pending
  made_queue (some jobs) pending = jobs

  abbrev pub left_pending : Option (List J) → List J → List J
  left_pending none pending = []
  left_pending (some jobs) pending = pending

  -- `_ensure_queue`: only a new queue takes over the jobs that came from outside of the loop.
  abbrev pub ensure_queue : Manager J → Manager J
  ensure_queue m = record m {
    queue = some (made_queue m.queue m.pending_jobs);
    pending_jobs = left_pending m.queue m.pending_jobs;
  }

  abbrev pub with_task : Task J → Task J
  with_task absent = waiting
  with_task t = t

  abbrev pub start_from : Task J → Manager J → Manager J
  start_from absent m = record (ensure_queue m) { task = waiting }
  start_from waiting m = m
  start_from (running job) m = m

  -- `start`
  unfoldable pub start : Manager J → Manager J
  start m = start_from m.task m

  -- `enqueue` in the event loop
  unfoldable pub enqueue_in_loop : J → Manager J → Manager J
  enqueue_in_loop job m = record m {
    idle = false;
    pending_job_count = m.pending_job_count + 1;
    queue = some (made_queue m.queue m.pending_jobs ++ (job ∷ []));
    pending_jobs = left_pending m.queue m.pending_jobs;
    task = with_task m.task;
  }

  -- `enqueue` where no event loop runs
  unfoldable pub enqueue_outside : J → Manager J → Manager J
  enqueue_outside job m = record m {
    idle = false;
    pending_job_count = m.pending_job_count + 1;
    pending_jobs = m.pending_jobs ++ (job ∷ []);
  }

  -- The head of the loop of `_run`: the next job, and the counts.
  unfoldable pub take_job : J → List J → Manager J → Manager J
  take_job job rest m = record m {
    queue = some rest;
    task = running job;
    pending_job_count = m.pending_job_count - 1;
    active_jobs = m.active_jobs + 1;
  }

  -- The `finally` block of `_run`
  unfoldable pub settle : Manager J → Manager J
  settle m = record m {
    task = waiting;
    active_jobs = m.active_jobs - 1;
    idle = if m.active_jobs - 1 == 0 && m.pending_job_count == 0 then true else m.idle;
  }

  -- `except Exception` of `_run`
  unfoldable pub bury : Error → Manager J → Manager J
  bury e m = record m { dead_letter = trimmed (m.dead_letter ++ (e ∷ [])) }

  -- `except asyncio.CancelledError` with a job in hand: the job is forgotten before `finally`, which
  -- then leaves the counts as they are.
  unfoldable pub interrupt : Manager J → Manager J
  interrupt m = record m { task = absent }

  -- `stop`, where a task is there: it is cancelled, and forgotten.
  abbrev pub stopped : Manager J → Manager J
  stopped m = record m {
    task = absent;
    idle = if m.pending_job_count == 0 && m.active_jobs == 0 then true else m.idle;
  }

  abbrev pub stop_from : Task J → Manager J → Manager J
  stop_from absent m = m
  stop_from waiting m = stopped m
  stop_from (running job) m = stopped (interrupt m)

  unfoldable pub stop : Manager J → Manager J
  stop m = stop_from m.task m

module _ {S : Type 0} where
  abbrev pub after_job :
      Outcome (Unit {0}) → Manager (Exec S (Unit {0})) → Manager (Exec S (Unit {0}))
  after_job (ok tt) m = settle m
  after_job (err e) m = settle (bury e m)

  -- One turn of `_run` with the job that it took: at most three calls, with pauses of 50 ms, then
  -- 100 ms.
  unfoldable pub run_job :
      Exec S (Unit {0}) → Manager (Exec S (Unit {0})) × S → Manager (Exec S (Unit {0})) × S
  unfolding settle bury
  run_job job (m, s) =
      let (answer, s', pauses) = retry_async job 2 50 2 s in (after_job answer m, s')
