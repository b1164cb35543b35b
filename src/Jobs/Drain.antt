-- ===== src/Jobs/Drain.antt =====
-- The worker task of `BackgroundJobManager`, backend/common/background_jobs.py, left alone with its
-- queue: jobs that put no jobs on the queue, and that are not cancelled.
use enterprise_fast_api_boil.Base.{
  ℕ, zero, suc, ◌≡◌, refl, arith, true, none, some, List, [], ◌∷◌, length,
}
use enterprise_fast_api_boil.Base.Outcome.{Outcome, ok, err, Exec}
use enterprise_fast_api_boil.Resilience.Retry.{retry_async}
use enterprise_fast_api_boil.Jobs.{
  Manager, fresh, waiting, settle, bury, take_job, after_job, run_job,
}
use enterprise_fast_api_boil.Jobs.Steps.{Reach}
use enterprise_fast_api_boil.Jobs.Idle.{IsStuck, jobs-IsCounted}

module _ {S : Type 0} where
  -- The loop of `_run`, for a number of turns; on an empty queue it waits.
  unfoldable pub run_turns : ℕ → Manager (Exec S (Unit {0})) × S → Manager (Exec S (Unit {0})) × S
  unfolding take_job run_job
  run_turns zero (m, s) = (m, s)
  run_turns (suc n) (m, s) = elim m.queue [
    | none ↦ (m, s)
    | some [] ↦ (m, s)
    | some (job ∷ rest) ↦ run_turns n (run_job job (take_job job rest m, s))
  ]

  -- The jobs one after the other, each tried at most three times.
  abbrev pub run_all : List (Exec S (Unit {0})) → S → S
  run_all [] s = s
  run_all (job ∷ jobs) s = run_all jobs (retry_async job 2 50 2 s).1

  -- A worker between two jobs.
  record IsReady (jobs : List (Exec S (Unit {0}))) (m : Manager (Exec S (Unit {0}))) : Type 0 where
    pub queue : m.queue ≡ some jobs
    pub task : m.task ≡ waiting
    pub active : m.active_jobs ≡ 0
    pub pending : m.pending_job_count ≡ length jobs
    pub idle : length jobs ≡ 0 → m.idle ≡ true

  after_job-IsReady :
      (job : Exec S (Unit {0})) (rest : List (Exec S (Unit {0}))) (m : Manager (Exec S (Unit {0})))
      (r : Outcome (Unit {0}))
      → IsReady (job ∷ rest) m
      → IsReady rest (after_job r (take_job job rest m))
  unfolding take_job settle bury
  after_job-IsReady job rest m (ok tt) h = record {
    queue = refl;
    task = refl;
    active = ground arith;
    pending = ground arith;
    idle = ground arith;
  }
  after_job-IsReady job rest m (err e) h = record {
    queue = refl;
    task = refl;
    active = ground arith;
    pending = ground arith;
    idle = ground arith;
  }

  run_turns_lem :
      (jobs : List (Exec S (Unit {0}))) (m : Manager (Exec S (Unit {0}))) (s : S)
      → IsReady jobs m
      → IsReady [] (run_turns (length jobs) (m, s)).0
        × ((run_turns (length jobs) (m, s)).1 ≡ run_all jobs s)
  unfolding run_turns run_job
  run_turns_lem [] m s h = (h, refl)
  run_turns_lem (job ∷ jobs) m s h =
      let answer = retry_async job 2 50 2 s in
      let (a, b) =
        run_turns_lem jobs (after_job answer.0 (take_job job jobs m)) answer.1
          (after_job-IsReady job jobs m answer.0 h) in
      (rw h.queue a, rw h.queue b)

  -- A manager whose task waits at its queue and that is not stuck: as many turns as there are jobs
  -- in the queue run each of them, in the order in which they were put there and at most three times,
  -- leave the queue empty and set the idle event, whatever jobs fail.
  pub worker_drains :
      (jobs : List (Exec S (Unit {0}))) (m : Manager (Exec S (Unit {0}))) (s : S)
      → Reach fresh m
      → m.task ≡ waiting
      → m.queue ≡ some jobs
      → ¬ IsStuck m
      → ((run_turns (length jobs) (m, s)).0.idle ≡ true)
        × ((run_turns (length jobs) (m, s)).0.queue ≡ some [])
        × ((run_turns (length jobs) (m, s)).1 ≡ run_all jobs s)
  worker_drains jobs m s r w q free =
      let inv = jobs-IsCounted r in
      let settled : (m.active_jobs ≡ 0) × (length m.pending_jobs ≡ 0) =
        (ground arith, ground arith) in
      let (a, b) = run_turns_lem jobs m s (record {
        queue = q;
        task = w;
        active = settled.0;
        pending = ground arith;
        idle = ground arith;
      }) in
      (a.idle refl, a.queue, b)
