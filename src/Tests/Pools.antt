-- ===== src/Tests/Pools.antt =====
-- Pools of numbered tasks with a fifo scheduler.
use boost_threadpool.Common.{
  ℕ, ◌≡◌, ◌⊎◌, refl, true, false, some, List, [], ◌∷◌, arith, inr, total, get_elem?, ◌≤◌, ◌+◌, ◌*◌,
}
use boost_threadpool.Scheduling.Fifo.{fifo_scheduler, fifo_lawful}
use boost_threadpool.Scheduling.Fifo
use boost_threadpool.Core.State.{
  fetching, running, at_most, blocked, Pool, pool_core, set_worker, leaving,
}
use boost_threadpool.Core.Notify.{wake_at}
use boost_threadpool.Core.Tasks.{schedule, clear}
use boost_threadpool.Core.Waiting.{is_busy, must_wait, wait}
use boost_threadpool.Core.Resize.{resize, retarget, worker_died_unexpectedly}
use boost_threadpool.Core.Resize.Laws.{grown, resize_result, died_result}
use boost_threadpool.Core.Execute.{Fetched, took, execute_task, resume_task}
use boost_threadpool.System.Phases.{live}
use boost_threadpool.System.Steps.{
  asleep, Event, Step, schedules, terminates, resumes, resizes, waits, fetches, Log, Reach,
}
use boost_threadpool.System.Counts.{Counts, Reach-Counts}
use boost_threadpool.System.Conservation.{Conserved, Reach-Conserved}
use boost_threadpool.System.Wakeups.{roused, Reach-Attended}
use boost_threadpool.System.Clients.Notified.{Reach-Rightly}
use boost_threadpool.System.Clients.Missed.{clear_strands, take_strands}
use boost_threadpool.System.Shrink.{Alone, shrink_to_none}
use boost_threadpool.System.Stopping.{rounds, here, next, terminating_bounded, terminating_progress}
use boost_threadpool.System.Stopping.Moves.{work}
use boost_threadpool.Tests.Setup.{fifo, any_task, Run, new, extend}
use boost_threadpool.System.Progress.{execute_task-Defined}
use boost_threadpool.Core.Shutdown.{
  terminate_all_workers, shutdown, wait_for_all_tasks, wait_for_active_tasks,
}
use boost_threadpool.System.Shutdown.{Left, perform_all, shutdown_joins_nobody}

-- Tasks 7 and 8 are pending, and there is one worker.
loaded : Run
unfolding pool_core schedule resize Fifo.push wake_at
loaded =
    extend (extend (extend new (schedules 0 7 (inr refl) refl)) (schedules 0 8 (inr refl) refl))
      (resizes 4 1 (omega arith))

-- The worker executes task 7, task 8 is pending, and a client waits for both.
working : Run
unfolding loaded execute_task wait is_busy Fifo.top Fifo.pop Fifo.empty Fifo.clear
working = extend (extend loaded (fetches 0 refl refl)) (waits 0)

working_state :
    (working.last.workers ≡ running 7 ∷ [])
    × (working.last.clients ≡ blocked (at_most false 0) ∷ [])
    × (working.last.scheduler ≡ 8 ∷ [])
unfolding working
working_state = (refl, refl, refl)

Reach-Counts_example : Counts working.last
Reach-Counts_example = Reach-Counts fifo_lawful working.reach

Reach-Conserved_example : Conserved fifo_lawful working.last working.log
Reach-Conserved_example = Reach-Conserved fifo_lawful working.reach

Reach-Attended_example :
    (total asleep working.last.workers ≡ 0)
    ⊎ (fifo.size working.last.scheduler ≤ total roused working.last.workers)
Reach-Attended_example = Reach-Attended fifo_lawful working.reach

Reach-Rightly_example : must_wait fifo (at_most false 0) working.last ≡ true
unfolding working
Reach-Rightly_example = Reach-Rightly fifo_lawful 0 working.reach refl refl tt

execute_task-Defined_example :
    (q : Pool ℕ (List ℕ)) × (o : Fetched ℕ) × (execute_task fifo 0 loaded.last ≡ some (q, o))
execute_task-Defined_example = (execute_task-Defined fifo_lawful 0 loaded.last).0

-- A pool without workers, with a pending task and a client that waits for all tasks.
stranded : Run
unfolding pool_core schedule wait is_busy Fifo.push Fifo.empty Fifo.clear wake_at
stranded = extend (extend new (schedules 0 7 (inr refl) refl)) (waits 0)

clear_strands_example :
    (must_wait fifo (at_most false 0) (clear fifo stranded.last) ≡ false)
    × (get_elem? (clear fifo stranded.last).clients 0 ≡ some (blocked (at_most false 0)))
unfolding stranded
clear_strands_example = clear_strands fifo_lawful stranded.last 0 0 false refl refl

-- A client waits until at most two tasks are left.
expecting : Run
unfolding loaded wait is_busy Fifo.size
expecting = extend loaded (waits 2)

take_strands_example :
    (t : ℕ) × (q : Pool ℕ (List ℕ)) × (execute_task fifo 0 expecting.last ≡ some (q, took t))
    × (must_wait fifo (at_most false 2) expecting.last ≡ true)
    × (must_wait fifo (at_most false 2) q ≡ false)
    × (get_elem? q.clients 0 ≡ some (blocked (at_most false 2)))
unfolding expecting Fifo.empty Fifo.clear
take_strands_example =
    take_strands fifo_lawful expecting.last 0 0 1 false (omega arith) refl refl (omega arith) refl

shrink_to_none_example :
    (p r : Pool ℕ (List ℕ)) × (l : Log ℕ) × Reach fifo_lawful any_task p l
    × (p.target_worker_count ≡ 2)
    × (p.worker_count ≡ 2)
    × (total live p.workers ≡ 2)
    × Alone fifo any_task (resize 0 1 p).0 r
    × (r.target_worker_count ≡ 1)
    × (r.worker_count ≡ 0)
    × (total live r.workers ≡ 0)
    × (r.terminating ≡ false)
shrink_to_none_example = shrink_to_none fifo_lawful any_task 2 1 (omega arith) (omega arith)

-- A pool whose only worker sleeps.
idle : Run
unfolding pool_core resize execute_task Fifo.empty Fifo.clear
idle = extend (extend new (resizes 4 1 (omega arith))) (fetches 0 refl refl)

shutdown_joins_nobody_example :
    Left idle.last (perform_all fifo (shutdown wait_for_all_tasks) idle.last)
    × Left idle.last (perform_all fifo (shutdown wait_for_active_tasks) idle.last)
unfolding idle Fifo.empty
shutdown_joins_nobody_example =
    shutdown_joins_nobody fifo_lawful idle.last
      (record { none_engaged = refl; none_terminated = refl }) refl

resize_result_example : resize 4 3 idle.last ≡ (grown 2 (retarget 3 idle.last), true)
unfolding idle
resize_result_example = resize_result 4 3 idle.last (omega arith) (omega arith)

died_result_example :
    let q = worker_died_unexpectedly 4 0 (retarget 0 loaded.last) in
    (q.worker_count ≡ 1)
    × (q.active_worker_count ≡ 1)
    × (q.target_worker_count ≡ 1)
    × (q.workers ≡ fetching ∷ fetching ∷ [])
    × (q.clients ≡ [])
    × (q.scheduler ≡ 7 ∷ 8 ∷ [])
unfolding loaded Fifo.clear
died_result_example =
    died_result 3 0 (retarget 0 loaded.last) refl (omega arith) (omega arith) (omega arith)

-- The pool of `idle` terminates its workers, and the worker is notified.
ending : Run
unfolding idle terminate_all_workers
ending = extend idle (terminates false)

terminating_bounded_example :
    1 + total rounds (set_worker 0 leaving (record ending.last { active_worker_count = 1 })).workers
    ≤ 4 * ending.last.worker_count
unfolding ending resume_task Fifo.empty Fifo.clear
terminating_bounded_example =
    terminating_bounded fifo_lawful ending.reach refl (next here (resumes 0 refl refl))

terminating_progress_example :
    (total asleep ending.last.workers ≡ 0)
    × ((ending.last.worker_count ≡ 0)
        ⊎ ((e : Event ℕ) × (q : Pool ℕ (List ℕ)) × (st : Step fifo any_task ending.last e q) × (work
                st
              ≡ 1)))
unfolding ending
terminating_progress_example = terminating_progress fifo_lawful ending.reach refl
