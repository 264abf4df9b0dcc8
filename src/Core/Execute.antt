-- ===== src/Core/Execute.antt =====
-- pool_core.hpp: execute_task, up to the call of the task. It sleeps inside its loop, so it is two
-- functions: one from its first line, one from the return of the condition's `wait`.
pub mod Cases
use boost_threadpool.Common.{
  ℕ, Bool, true, false, Option, none, some, ltb, inc, dec, set, if◌then◌else◌,
}
use boost_threadpool.Scheduling.Interface.{Scheduler}
use boost_threadpool.Core.State.{Phase, waiting, running, Pool, set_worker}
use boost_threadpool.Core.Notify.{notify_all_clients}
use boost_threadpool.Core.Guard.{run_next}

-- How a worker leaves the monitor: `execute_task` returns false, sleeps, or has a task.
pub data Fetched (Task : Type 0) : Type 0 where
  left slept : Fetched Task
  took : (task : Task) → Fetched Task

module _ {Task Container : Type 0} (S : Scheduler Task Container) (worker : ℕ) where
  -- `return false`, on which `run` leaves its loop
  unfoldable pub leave : Pool Task Container → Option (Pool Task Container × Fetched Task)
  unfolding run_next
  leave p = some (set_worker worker (run_next false false) p, left)

  unfoldable pub sleep : Pool Task Container → Option (Pool Task Container × Fetched Task)
  unfolding notify_all_clients
  sleep p = some (
    set_worker worker waiting
        (notify_all_clients (record p { active_worker_count = dec p.active_worker_count })),
    slept,
  )

  -- `none` is undefined behaviour: `top` or `pop` of an empty container.
  unfoldable pub take_task : Pool Task Container → Option (Pool Task Container × Fetched Task)
  take_task p = elim (S.top p.scheduler) [
    | none ↦ none
    | some task ↦ elim (S.pop p.scheduler) [
      | none ↦ none
      | some c ↦ some (set_worker worker (running task) (record p { scheduler = c }), took task)
    ]
  ]

  -- The loop `while(m_scheduler.empty())` and what follows it.
  unfoldable pub await_task : Pool Task Container → Option (Pool Task Container × Fetched Task)
  unfolding leave sleep take_task
  await_task p =
      if S.empty p.scheduler
      then (if ltb p.target_worker_count p.worker_count then leave p else sleep p)
      else take_task p

  unfoldable pub execute_task : Pool Task Container → Option (Pool Task Container × Fetched Task)
  unfolding await_task
  execute_task p = if ltb p.target_worker_count p.worker_count then leave p else await_task p

  unfoldable pub resume_task : Pool Task Container → Option (Pool Task Container × Fetched Task)
  unfolding await_task
  resume_task p = await_task (record p { active_worker_count = inc p.active_worker_count })
