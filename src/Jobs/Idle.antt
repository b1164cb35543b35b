-- ===== src/Jobs/Idle.antt =====
-- What `wait_until_idle` of `BackgroundJobManager`, backend/common/background_jobs.py, waits for.
use enterprise_fast_api_boil.Base.{
  ℕ, ◌+◌, ◌-◌, ◌≤◌, ◌<◌, ◌≡◌, ◌⊎◌, refl, arith, true, false, is_some, Option, none, some, List, [],
  ◌∷◌, ◌++◌, length, length-append, length-drop,
}
use enterprise_fast_api_boil.Base.Outcome.{Error}
use enterprise_fast_api_boil.Jobs.{
  Task, Manager, absent, waiting, running, dead_letter_limit, trimmed, fresh, made_queue,
  left_pending, start, enqueue_in_loop, enqueue_outside, take_job, settle, bury, interrupt, stop,
}
use enterprise_fast_api_boil.Jobs.Steps.{
  Step, Reach, starts, enqueues, enqueues_outside, takes, finishes, fails, is_interrupted, stops,
  here, next,
}

length-trimmed :
    (dead : List Error) (e : Error)
    → length dead ≤ dead_letter_limit
    → length (trimmed (dead ++ (e ∷ []))) ≤ dead_letter_limit
length-trimmed dead e h = ground (
  arith,
  length-append dead (e ∷ []),
  length-drop (length (dead ++ (e ∷ [])) - dead_letter_limit) (dead ++ (e ∷ [])),
)

module _ {J : Type 0} where
  abbrev pub busy : Task J → ℕ
  busy absent = 0
  busy waiting = 0
  busy (running job) = 1

  abbrev pub queued : Option (List J) → ℕ
  queued none = 0
  queued (some jobs) = length jobs

  -- A job that is lost by a step: the task is cancelled while it runs.
  abbrev pub lost_by : {m n : Manager J} → Step m n → ℕ
  lost_by (starts m) = 0
  lost_by (enqueues m job) = 0
  lost_by (enqueues_outside m job) = 0
  lost_by (takes m job rest w q) = 0
  lost_by (finishes m job r) = 0
  lost_by (fails m job e r) = 0
  lost_by (is_interrupted m job r) = 1
  lost_by (stops m) = busy m.task

  abbrev pub lost : {m n : Manager J} → Reach m n → ℕ
  lost here = 0
  lost (next r step) = lost r + lost_by step

  -- The counts tell what is waiting and what is running, but for the jobs that were lost, and the
  -- event says that both are zero.
  pub record IsCounted (gone : ℕ) (m : Manager J) : Type 0 where
    pub pending : m.pending_job_count ≡ queued m.queue + length m.pending_jobs
    pub active : m.active_jobs ≡ busy m.task + gone
    pub idle_zero : m.idle ≡ true → m.pending_job_count + m.active_jobs ≡ 0
    pub zero_idle : m.pending_job_count + m.active_jobs ≡ 0 → m.idle ≡ true
    pub buried : length m.dead_letter ≤ dead_letter_limit

  queued-made :
      (q : Option (List J)) (pending : List J)
      → length (made_queue q pending) + length (left_pending q pending) ≡ queued q + length pending
  queued-made none pending = omega arith
  queued-made (some jobs) pending = refl

  Step-IsCounted :
      {m n : Manager J} (gone : ℕ) (step : Step m n)
      → IsCounted gone m
      → IsCounted (gone + lost_by step) n
  unfolding start enqueue_in_loop enqueue_outside take_job settle bury interrupt stop
  Step-IsCounted gone (starts m) inv = record {
    pending = ground (arith, queued-made m.queue m.pending_jobs);
    active = ground (arith, queued-made m.queue m.pending_jobs);
    idle_zero = ground (arith, queued-made m.queue m.pending_jobs);
    zero_idle = ground (arith, queued-made m.queue m.pending_jobs);
    buried = ground (arith, queued-made m.queue m.pending_jobs);
  }
  Step-IsCounted gone (enqueues m job) inv = record {
    pending = ground (
      arith,
      queued-made m.queue m.pending_jobs,
      length-append (made_queue m.queue m.pending_jobs) (job ∷ []),
    );
    active = ground (
      arith,
      queued-made m.queue m.pending_jobs,
      length-append (made_queue m.queue m.pending_jobs) (job ∷ []),
    );
    idle_zero = ground (
      arith,
      queued-made m.queue m.pending_jobs,
      length-append (made_queue m.queue m.pending_jobs) (job ∷ []),
    );
    zero_idle = ground (
      arith,
      queued-made m.queue m.pending_jobs,
      length-append (made_queue m.queue m.pending_jobs) (job ∷ []),
    );
    buried = ground (
      arith,
      queued-made m.queue m.pending_jobs,
      length-append (made_queue m.queue m.pending_jobs) (job ∷ []),
    );
  }
  Step-IsCounted gone (enqueues_outside m job) inv = record {
    pending = ground (arith, length-append m.pending_jobs (job ∷ []));
    active = ground (arith, length-append m.pending_jobs (job ∷ []));
    idle_zero = ground (arith, length-append m.pending_jobs (job ∷ []));
    zero_idle = ground (arith, length-append m.pending_jobs (job ∷ []));
    buried = ground (arith, length-append m.pending_jobs (job ∷ []));
  }
  Step-IsCounted gone (takes m job rest w q) inv = record {
    pending = ground (arith);
    active = ground (arith);
    idle_zero = ground (arith);
    zero_idle = ground (arith);
    buried = ground (arith);
  }
  Step-IsCounted gone (finishes m job r) inv = record {
    pending = ground (arith);
    active = ground (arith);
    idle_zero = ground (arith);
    zero_idle = ground (arith);
    buried = ground (arith);
  }
  Step-IsCounted gone (fails m job e r) inv = record {
    pending = ground (arith, length-trimmed m.dead_letter e);
    active = ground (arith, length-trimmed m.dead_letter e);
    idle_zero = ground (arith, length-trimmed m.dead_letter e);
    zero_idle = ground (arith, length-trimmed m.dead_letter e);
    buried = ground (arith, length-trimmed m.dead_letter e);
  }
  Step-IsCounted gone (is_interrupted m job r) inv = record {
    pending = ground (arith);
    active = ground (arith);
    idle_zero = ground (arith);
    zero_idle = ground (arith);
    buried = ground (arith);
  }
  Step-IsCounted gone (stops m) inv = record {
    pending = ground (arith);
    active = ground (arith);
    idle_zero = ground (arith);
    zero_idle = ground (arith);
    buried = ground (arith);
  }

  fresh-IsCounted : IsCounted 0 fresh
  fresh-IsCounted = record {
    pending = omega arith;
    active = omega arith;
    idle_zero = λ h. refl;
    zero_idle = λ h. refl;
    buried = omega arith;
  }

  pub jobs-IsCounted : {m : Manager J} (r : Reach fresh m) → IsCounted (lost r) m
  jobs-IsCounted here = fresh-IsCounted
  jobs-IsCounted (next r step) = Step-IsCounted (lost r) step (jobs-IsCounted r)

  then_steps : {m n k : Manager J} → Reach m n → Reach n k → Reach m k
  then_steps r here = r
  then_steps r (next r' step) = next (then_steps r r') step

  -- A job that no turn will take, since it came from outside of a loop that has its queue, or
  -- a count that no turn will take back, since its job was interrupted.
  abbrev pub IsStuck : Manager J → Type 0
  IsStuck m =
      ((is_some m.queue ≡ true) × (0 < length m.pending_jobs)) ⊎ (busy m.task < m.active_jobs)

  Step-IsStuck : {m n : Manager J} → Step m n → IsStuck m → IsStuck n
  unfolding start enqueue_in_loop enqueue_outside take_job settle bury interrupt stop
  Step-IsStuck (starts m) h = ground arith
  Step-IsStuck (enqueues m job) h = ground arith
  Step-IsStuck (enqueues_outside m job) h = ground (arith, length-append m.pending_jobs (job ∷ []))
  Step-IsStuck (takes m job rest w q) h = ground arith
  Step-IsStuck (finishes m job r) h = ground arith
  Step-IsStuck (fails m job e r) h = ground arith
  Step-IsStuck (is_interrupted m job r) h = ground arith
  Step-IsStuck (stops m) h = ground arith

  Reach-IsStuck : {m n : Manager J} → IsStuck m → Reach m n → IsStuck n
  Reach-IsStuck h here = h
  Reach-IsStuck h (next r step) = Step-IsStuck step (Reach-IsStuck h r)

  -- From a manager that is stuck, no steps lead to one whose idle event is set.
  pub stuck_never_idle : {m n : Manager J} → Reach fresh m → IsStuck m → Reach m n → n.idle ≡ false
  stuck_never_idle {m} {n} r h r' =
      let inv = jobs-IsCounted (then_steps r r') in let stuck = Reach-IsStuck h r' in ground arith
