-- ===== src/Tests/Runs.antt =====
-- Runs of pools of numbered tasks.
use mathlib.Core.List.{Sublist}
use boost_threadpool.Common.{
  ℕ, ◌≡◌, refl, true, false, some, List, [], ◌∷◌, arith, inr, get_elem?, All,
}
use boost_threadpool.Scheduling.Fifo.{fifo_scheduler, fifo_lawful}
use boost_threadpool.Scheduling.Fifo
use boost_threadpool.Scheduling.Prio.{prio_scheduler}
use boost_threadpool.Scheduling.Prio
use boost_threadpool.Scheduling.Containers.{select}
use boost_threadpool.Adaptors.Prio.{PrioTask, less, less_irreflexive, less_transitive}
use boost_threadpool.Core.State.{fetching, running, exited, Pool, pool_core, set_worker}
use boost_threadpool.Core.Guard.{run_end}
use boost_threadpool.Core.Notify.{wake_at}
use boost_threadpool.Core.Tasks.{schedule, clear}
use boost_threadpool.Core.Waiting.{wait}
use boost_threadpool.Core.Resize.{resize, worker_destructed}
use boost_threadpool.Core.Execute.{execute_task}
use boost_threadpool.Core.Shutdown.{terminate_all_workers}
use boost_threadpool.System.Steps.{
  Event, Step, schedules, clears, resizes, waits, terminates, fetches, destructs,
}
use boost_threadpool.Tests.Setup.{fifo, any_task, Run, new, extend}
use boost_threadpool.System.Effects.{Effect, Step-Effect}
use boost_threadpool.System.Starts.{fifo_starts, prio_starts}
use boost_threadpool.System.Waits.{Tests}
use boost_threadpool.System.Joining.{Reach-Joinable}

-- Task 6 is dropped, task 7 is started, and task 8 is pending.
started_one : Run
unfolding pool_core schedule resize clear execute_task Fifo.push Fifo.empty Fifo.clear Fifo.top
    Fifo.pop wake_at
started_one =
    extend
      (extend
        (extend
          (extend (extend (extend new (schedules 0 6 (inr refl) refl)) clears)
            (schedules 0 7 (inr refl) refl))
          (schedules 0 8 (inr refl) refl))
        (resizes 4 1 (omega arith)))
      (fetches 0 refl refl)

fifo_starts_example : Sublist {A = ℕ} (8 ∷ 7 ∷ []) (8 ∷ 7 ∷ 6 ∷ [])
unfolding started_one
fifo_starts_example = fifo_starts started_one.reach

-- Two prioritised tasks and a worker.
abbrev urgent : Pool (PrioTask ℕ) (List (PrioTask ℕ))
urgent = record (pool_core (prio_scheduler less)) {
  worker_count = 1;
  target_worker_count = 1;
  active_worker_count = 1;
  scheduler = task 1 1 ∷ task 10 2 ∷ [];
  workers = fetching ∷ [];
}
  where
    task : ℕ → ℕ → PrioTask ℕ
    task priority number = record { priority = priority; function = some number }

abbrev best : PrioTask ℕ
best = record { priority = 10; function = some 2 }

prio_starts_example :
    All (λ u. less best u ≡ false) (record { priority = 1; function = some 1 } ∷ [])
unfolding pool_core execute_task Prio.empty Prio.top Prio.pop select less
prio_starts_example =
    prio_starts less less_irreflexive less_transitive {callable = λ t. true} {p = urgent}
      {q = set_worker 0 (running best)
        (record urgent { scheduler = record { priority = 1; function = some 1 } ∷ [] })}
      best (fetches 0 refl refl)

-- A new pool with one worker.
staffed : Run
unfolding pool_core resize
staffed = extend new (resizes 4 1 (omega arith))

new_task : Step fifo any_task staffed.last (Event.accepted 9) (schedule fifo 0 9 staffed.last).0
unfolding staffed schedule Fifo.push
new_task = schedules 0 9 (inr refl) refl

Step-Effect_example :
    Effect fifo
      (Event.accepted 9)
      staffed.last.scheduler
      (schedule fifo 0 9 staffed.last).0.scheduler
Step-Effect_example = Step-Effect fifo_lawful {callable = any_task} new_task

abbrev waits_at_once :
    Step fifo any_task (pool_core fifo) Event.quiet (wait fifo 0 (pool_core fifo))
waits_at_once = waits 0

-- The worker has left a pool that terminates its workers.
left_early : Run
unfolding staffed terminate_all_workers execute_task worker_destructed run_end
left_early =
    extend (extend (extend staffed (terminates false)) (fetches 0 refl refl)) (destructs 0 refl)

left_early_state :
    (left_early.last.workers ≡ exited ∷ []) × (left_early.last.terminated_workers ≡ 0 ∷ [])
unfolding left_early
left_early_state = (refl, refl)

Reach-Joinable_example :
    All (λ w. get_elem? left_early.last.workers w ≡ some exited) left_early.last.terminated_workers
Reach-Joinable_example = Reach-Joinable fifo_lawful left_early.reach
