-- ===== src/System/Steps.antt =====
-- A pool with its workers and its clients, interleaved in any order. Each step is one stretch of
-- code between two releases of the monitor, the end of a task, or the wake-up of a sleeper.
use boost_threadpool.Common.{
  ℕ, ◌<◌, ◌≡◌, ◌⊎◌, Bool, true, false, some, List, [], ◌∷◌, ◌++◌, get_elem?, total, size_mod,
}
use boost_threadpool.Scheduling.Interface.{Scheduler, Lawful}
use boost_threadpool.Core.State.{
  Phase, fetching, waiting, woken, running, leaving, dying, exited, Goal, at_most, blocked,
  notified, timed_out, Pool, pool_core, set_worker, set_client,
}
use boost_threadpool.Core.Guard.{run_end, after_task}
use boost_threadpool.Core.Tasks.{schedule, clear}
use boost_threadpool.Core.Waiting.{wait, timed_wait, resume_wait}
use boost_threadpool.Core.Resize.{resize, worker_died_unexpectedly, worker_destructed}
use boost_threadpool.Core.Execute.{Fetched, took, execute_task, resume_task}
use boost_threadpool.Core.Shutdown.{terminate_all_workers}

-- What a step does to the tasks.
pub data Event (Task : Type 0) : Type 0 where
  quiet : Event Task
  accepted : (task : Task) → Event Task
  emptied : Event Task
  fetched : Fetched Task → Event Task
  ended : (task : Task) → Event Task

module _ {Task : Type 0} where
  abbrev pub asleep : Phase Task → ℕ
  asleep waiting = 1
  asleep fetching = 0
  asleep woken = 0
  asleep (running t) = 0
  asleep leaving = 0
  asleep dying = 0
  asleep exited = 0
  asleep Phase.joined = 0

  -- notify_one wakes one of the sleeping workers, if there is one.
  abbrev pub Picks : ℕ → List (Phase Task) → Type 0
  Picks chosen ws = (get_elem? ws chosen ≡ some waiting) ⊎ (total asleep ws ≡ 0)

-- `callable` says of a task whether it holds a function; `threads` counts the threads that the
-- system can still create.
pub data Step {Task Container : Type 0} (S : Scheduler Task Container) (callable : Task → Bool)
    (p : Pool Task Container) : Event Task → Pool Task Container → Type 0 where
  schedules :
      (chosen : ℕ) (task : Task)
      → Picks chosen p.workers
      → (schedule S chosen task p).1 ≡ true
      → Step S callable p (accepted task) (schedule S chosen task p).0
  refuses :
      (chosen : ℕ) (task : Task)
      → (schedule S chosen task p).1 ≡ false
      → Step S callable p quiet (schedule S chosen task p).0
  clears : Step S callable p emptied (clear S p)
  resizes : (threads n : ℕ) → n < size_mod → Step S callable p quiet (resize threads n p).0
  waits : (task_threshold : ℕ) → Step S callable p quiet (wait S task_threshold p)
  waits_timed : (task_threshold : ℕ) → Step S callable p quiet (timed_wait S task_threshold p)
  terminates :
      (waiting_for_them : Bool)
      → Step S callable p quiet (terminate_all_workers S waiting_for_them p)
  fetches :
      (w : ℕ) {q : Pool Task Container} {o : Fetched Task}
      → get_elem? p.workers w ≡ some fetching
      → execute_task S w p ≡ some (q, o)
      → Step S callable p (fetched o) q
  resumes :
      (w : ℕ) {q : Pool Task Container} {o : Fetched Task}
      → get_elem? p.workers w ≡ some woken
      → resume_task S w p ≡ some (q, o)
      → Step S callable p (fetched o) q
  -- a condition variable may wake a thread that was not notified
  wakes :
      (w : ℕ)
      → get_elem? p.workers w ≡ some waiting
      → Step S callable p quiet (set_worker w woken p)
  ends_task :
      (w : ℕ) (task : Task) (thrown : Bool)
      → get_elem? p.workers w ≡ some (running task)
      → Step S callable p (ended task) (set_worker w (after_task callable thrown task) p)
  destructs :
      (w : ℕ)
      → get_elem? p.workers w ≡ some leaving
      → Step S callable p quiet (worker_destructed w (set_worker w run_end p))
  dies :
      (threads w : ℕ)
      → get_elem? p.workers w ≡ some dying
      → Step S callable p quiet (worker_died_unexpectedly threads w (set_worker w exited p))
  client_resumes :
      (i : ℕ) (goal : Goal)
      → get_elem? p.clients i ≡ some (notified goal)
      → Step S callable p quiet (resume_wait S i goal p)
  client_wakes :
      (i : ℕ) (goal : Goal)
      → get_elem? p.clients i ≡ some (blocked goal)
      → Step S callable p quiet (set_client i (notified goal) p)
  client_times_out :
      (i task_threshold : ℕ)
      → get_elem? p.clients i ≡ some (blocked (at_most true task_threshold))
      → Step S callable p quiet (set_client i timed_out p)

-- The tasks that `schedule` accepted, that workers took, that were removed by `clear`, and whose call
-- is over, each with the latest first.
pub record Log (Task : Type 0) : Type 0 where
  pub scheduled : List Task
  pub started : List Task
  pub dropped : List Task
  pub finished : List Task

module _ {Task Container : Type 0} {S : Scheduler Task Container} (L : Lawful S) where
  abbrev pub log_event : Pool Task Container → Event Task → Log Task → Log Task
  log_event p quiet l = l
  log_event p (accepted t) l = record l { scheduled = t ∷ l.scheduled }
  log_event p emptied l = record l { dropped = L.tasks p.scheduler ++ l.dropped }
  log_event p (fetched Fetched.left) l = l
  log_event p (fetched Fetched.slept) l = l
  log_event p (fetched (took t)) l = record l { started = t ∷ l.started }
  log_event p (ended t) l = record l { finished = t ∷ l.finished }

-- The states of a pool from its construction on, with what happened to its tasks.
pub data Reach {Task Container : Type 0} {S : Scheduler Task Container} (L : Lawful S)
    (callable : Task → Bool) : Pool Task Container → Log Task → Type 0 where
  start :
      Reach L callable
        (pool_core S)
        (record { scheduled = []; started = []; dropped = []; finished = [] })
  later :
      {p q : Pool Task Container} {l : Log Task} {e : Event Task}
      → Reach L callable p l
      → Step S callable p e q
      → Reach L callable q (log_event L p e l)
