-- ===== src/Core/State.antt =====
-- The members of pool_core, and where each of its threads stands.
use boost_threadpool.Common.{ℕ, Bool, false, List, [], set}
use boost_threadpool.Scheduling.Interface.{Scheduler}

-- A worker_thread, by the point that its `run` has reached.
pub data Phase (Task : Type 0) : Type 0 where
  fetching : Phase Task  -- at `m_pool->execute_task()`, before it owns the monitor
  waiting : Phase Task  -- asleep in m_task_or_terminate_workers_event.wait
  woken : Phase Task  -- notified there, before it owns the monitor again
  running : (task : Task) → Phase Task  -- in `task()`, outside the monitor
  leaving : Phase Task  -- execute_task has returned false; before worker_destructed
  dying : Phase Task  -- an exception has left the loop; before worker_died_unexpectedly
  exited : Phase Task  -- `run` is over
  joined : Phase Task  -- `run` is over, and the thread was joined

-- The condition of a loop over m_worker_idle_or_terminated_event.wait: that of `wait`, timed or not,
-- with its threshold, and that of terminate_all_workers.
pub data Goal : Type 0 where
  at_most : (timed : Bool) → (task_threshold : ℕ) → Goal
  none_active : Goal

-- A thread that has called `wait` or `terminate_all_workers(true)`.
pub data Client : Type 0 where
  blocked : Goal → Client  -- asleep in m_worker_idle_or_terminated_event.wait
  notified : Goal → Client  -- notified there, before it owns the monitor again
  returned : Client
  timed_out : Client  -- timed_wait gave up, and `wait` has returned false

-- The counters are of type size_t. A worker is named by its place in `workers`.
pub record Pool (Task Container : Type 0) : Type 0 where
  pub worker_count : ℕ
  pub target_worker_count : ℕ
  pub active_worker_count : ℕ
  pub scheduler : Container
  pub terminating : Bool  -- m_terminate_all_workers
  pub terminated_workers : List ℕ
  pub workers : List (Phase Task)
  pub clients : List Client

module _ {Task Container : Type 0} where
  -- The constructor of pool_core.
  unfoldable pub pool_core : Scheduler Task Container → Pool Task Container
  pool_core S = record {
    worker_count = 0;
    target_worker_count = 0;
    active_worker_count = 0;
    scheduler = S.clear S.created;
    terminating = false;
    terminated_workers = [];
    workers = [];
    clients = [];
  }

  abbrev pub set_worker : ℕ → Phase Task → Pool Task Container → Pool Task Container
  set_worker w phase p = record p { workers = set p.workers w phase }

  abbrev pub set_client : ℕ → Client → Pool Task Container → Pool Task Container
  set_client i c p = record p { clients = set p.clients i c }
