-- ===== src/System/RoundTrips.antt =====
-- What a worker takes after a call of `schedule`.
use boost_threadpool.Common.{ℕ, ◌≤◌, ◌≡◌, refl, some, List, le→ltb}
use boost_threadpool.Scheduling.Lifo.{lifo_scheduler}
use boost_threadpool.Scheduling.Lifo
use boost_threadpool.Core.State.{running, Pool, set_worker}
use boost_threadpool.Core.Notify.{notify_one_worker}
use boost_threadpool.Core.Tasks.{schedule}
use boost_threadpool.Core.Execute.{took, execute_task, await_task, take_task}

module _ {Task : Type 0} where
  -- A worker that comes to fetch a task right after a call of `schedule`, in a lifo pool that does not have
  -- too many workers, takes the task of that call, and leaves the scheduler as it was before the call.
  pub lifo_roundtrip :
      (chosen w : ℕ) (t : Task) (p : Pool Task (List Task))
      → p.worker_count ≤ p.target_worker_count
      → execute_task lifo_scheduler w (schedule lifo_scheduler chosen t p).0
        ≡ some (set_worker w (running t) (notify_one_worker chosen p), took t)
  unfolding execute_task await_task take_task schedule notify_one_worker Lifo.push Lifo.top Lifo.pop
      Lifo.empty
  lifo_roundtrip chosen w t p h = rw (le→ltb p.target_worker_count p.worker_count h) refl
