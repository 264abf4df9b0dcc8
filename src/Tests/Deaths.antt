-- ===== src/Tests/Deaths.antt =====
-- A pool that loses its only worker, and a lifo pool.
use boost_threadpool.Common.{ℕ, ◌≡◌, refl, true, some, List, [], ◌∷◌, arith, inr}
use boost_threadpool.Scheduling.Fifo
use boost_threadpool.Scheduling.Fifo.{fifo_lawful}
use boost_threadpool.Scheduling.Lifo.{lifo_scheduler}
use boost_threadpool.Core.State.{fetching, running, exited, Pool, pool_core, set_worker}
use boost_threadpool.Core.Guard.{after_task}
use boost_threadpool.Core.Notify.{wake_at, notify_one_worker}
use boost_threadpool.Core.Tasks.{schedule}
use boost_threadpool.Core.Resize.{resize, worker_died_unexpectedly}
use boost_threadpool.Core.Execute.{took, execute_task}
use boost_threadpool.System.Steps.{Log, schedules, resizes, fetches, ends_task}
use boost_threadpool.System.Exhausted.{Unresized, no_step, one_step, last_death_strands}
use boost_threadpool.System.RoundTrips.{lifo_roundtrip}
use boost_threadpool.Tests.Setup.{fifo, any_task, Run, new, extend}

-- The only worker executes task 7, which throws.
thrown : Run
unfolding pool_core schedule resize execute_task Fifo.push Fifo.empty Fifo.clear Fifo.top Fifo.pop
    wake_at after_task
thrown =
    extend
      (extend (extend (extend new (schedules 0 7 (inr refl) refl)) (resizes 4 1 (omega arith)))
        (fetches 0 refl refl))
      (ends_task 0 7 true refl)

-- The pool after the death of its worker.
abbrev deserted : Pool ℕ (List ℕ)
deserted = worker_died_unexpectedly 0 0 (set_worker 0 exited thrown.last)

-- The log after another task was scheduled.
abbrev logged : Log ℕ
logged = record thrown.log { scheduled = 8 ∷ thrown.log.scheduled }

later_task :
    Unresized fifo_lawful any_task deserted thrown.log (schedule fifo 0 8 deserted).0 logged
unfolding thrown schedule Fifo.push worker_died_unexpectedly resize
later_task = one_step no_step (schedules 0 8 (inr refl) refl) tt

last_death_strands_example :
    (deserted.target_worker_count ≡ 1)
    × ((schedule fifo 0 8 deserted).0.worker_count ≡ 0)
    × (logged.started ≡ thrown.log.started)
unfolding thrown
last_death_strands_example = last_death_strands fifo_lawful 0 thrown.reach refl refl refl later_task

-- A lifo pool with a free worker.
abbrev lifo : Pool ℕ (List ℕ)
lifo = record (pool_core lifo_scheduler) {
  worker_count = 1;
  target_worker_count = 1;
  active_worker_count = 1;
  scheduler = 4 ∷ [];
  workers = fetching ∷ [];
}

lifo_roundtrip_example :
    execute_task lifo_scheduler 0 (schedule lifo_scheduler 0 5 lifo).0
    ≡ some (set_worker 0 (running 5) (notify_one_worker 0 lifo), took 5)
lifo_roundtrip_example = lifo_roundtrip 0 0 5 lifo (omega arith)
