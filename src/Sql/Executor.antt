-- ===== src/Sql/Executor.antt =====
-- include/persistence/SqlExecutor.hpp and src/persistence/SqlExecutor.cpp: one worker thread and its
-- queue of jobs. A job is of a type `J`, and what jobs work on, the thread's connection among it, of
-- a type `W`: `run_job` gives what a job leaves, whether or not it throws, and `cleanup` what the
-- clean-up of the thread leaves. Each critical section, and each job, is one step.
pub mod Drain
pub mod Logged
use cpp_reactor.Base.{
  ℕ, zero, suc, Bool, true, false, not, List, [], ◌∷◌, ◌++◌, if◌then◌else◌, length,
}

-- `is_working` is whether the worker thread is there and has not left its loop.
pub record SqlExecutor (J W : Type 0) : Type 0 where
  pub world : W
  pub running : Bool
  pub stopping : Bool
  pub is_working : Bool
  pub job_queue : List J

module _ {J W : Type 0} where
  unfoldable pub create : W → SqlExecutor J W
  create world = record {
    world = world;
    running = false;
    stopping = false;
    is_working = false;
    job_queue = [];
  }

  unfoldable pub start : SqlExecutor J W → SqlExecutor J W
  start e =
      if e.running then e else record e { running = true; stopping = false; is_working = true }

  -- `stop`, up to its wait for the worker thread.
  unfoldable pub request_stop : SqlExecutor J W → SqlExecutor J W
  request_stop e = if not e.running then e else record e { running = false; stopping = true }

  unfoldable pub submit : J → SqlExecutor J W → Bool × SqlExecutor J W
  submit job e =
      if e.stopping then (false, e) else (true, record e { job_queue = e.job_queue ++ job ∷ [] })

module _ {J W : Type 0} (run_job : J → W → W) (cleanup : W → W) where
  -- A round of `run_`, which waits where there is nothing to do.
  unfoldable pub work_on : List J → SqlExecutor J W → SqlExecutor J W
  work_on [] e = if e.stopping then record e { world = cleanup e.world; is_working = false } else e
  work_on (job ∷ jobs) e = record e { world = run_job job e.world; job_queue = jobs }

  unfoldable pub work : SqlExecutor J W → SqlExecutor J W
  unfolding work_on
  work e = if e.is_working then work_on e.job_queue e else e

  -- `n` rounds.
  unfoldable pub rounds : ℕ → SqlExecutor J W → SqlExecutor J W
  unfolding work
  rounds zero e = e
  rounds (suc n) e = rounds n (work e)

  -- The whole of `stop`. The worker takes no more than a round for each job and one to leave.
  unfoldable pub stop : SqlExecutor J W → SqlExecutor J W
  unfolding rounds
  stop e = if not e.running then e else rounds (suc (length e.job_queue)) (request_stop e)
