-- ===== src/System/Counts.antt =====
-- The counters of pool_core count the workers: worker_count those whose `run` has not reached its
-- end, active_worker_count those of them that neither sleep nor have just been woken.
pub mod Operations
use boost_threadpool.Common.{
  ℕ, ◌+◌, ◌<◌, ◌≡◌, refl, Bool, true, false, some, [], ◌∷◌, ◌++◌, arith, get_elem?, set, total,
  total-append, total-map, size_mod, inc,
}
use boost_threadpool.Scheduling.Interface.{Scheduler, Lawful}
use boost_threadpool.Core.State.{
  Phase, fetching, waiting, woken, running, leaving, dying, exited, Goal, at_most, none_active,
  returned, Pool, pool_core, set_worker, set_client,
}
use boost_threadpool.Core.Notify.{wake, notify_all_workers, notify_all_clients}
use boost_threadpool.Core.Guard.{run_end, after_task}
use boost_threadpool.Core.Tasks.{schedule, clear}
use boost_threadpool.Core.Waiting.{finish, begin_wait, wait, timed_wait, resume_wait}
use boost_threadpool.Core.Resize.{
  attach, retarget, resize, count_out, worker_died_unexpectedly, worker_destructed,
  size_policy_worker_died,
}
use boost_threadpool.Core.Resize.Cases.{grow_inv, resize_cases}
use boost_threadpool.Core.Execute.{execute_task, resume_task, await_task}
use boost_threadpool.Core.Execute.Cases.{Then, Then-elim, await_task-Then, execute_task-Then}
use boost_threadpool.Core.Shutdown.{terminate_all_workers}
use boost_threadpool.System.Phases.{
  live, engaged, live-wake, engaged-wake, total-wake_at, total-join_all, engaged-le-live, replaced,
}
use boost_threadpool.System.Steps.{
  Event, Step, schedules, refuses, clears, resizes, waits, waits_timed, terminates, fetches,
  resumes, wakes, ends_task, destructs, dies, client_resumes, client_wakes, client_times_out, Log,
  Reach, start, later,
}
pub use boost_threadpool.System.Counts.Operations.{Counts, attach-Counts, count_out-Counts}
use boost_threadpool.System.Counts.Operations.{
  notify_all_workers-Counts, resize-Counts, finish-Counts, worker_destructed-Counts,
  worker_died-Counts,
}

module _ {Task Container : Type 0} (S : Scheduler Task Container) where
  begin_wait-Counts :
      (goal : Goal) (p : Pool Task Container) → Counts p → Counts (begin_wait S goal p)
  unfolding begin_wait
  begin_wait-Counts goal p v =
      ground (arith, finish-Counts goal (record p { clients = p.clients ++ returned ∷ [] }))

  resume_wait-Counts :
      (i : ℕ) (goal : Goal) (p : Pool Task Container) → Counts p → Counts (resume_wait S i goal p)
  unfolding resume_wait
  resume_wait-Counts i goal p v = ground (arith, finish-Counts goal (set_client i returned p))

  terminate-Counts :
      (stays : Bool) (p : Pool Task Container) → Counts p → Counts (terminate_all_workers S stays p)
  unfolding terminate_all_workers
  terminate-Counts stays p v = ground (
    arith,
    begin_wait-Counts none_active (notify_all_workers (stop p)),
    notify_all_workers-Counts (stop p) stop-Counts,
  )
    where
      stop : Pool Task Container → Pool Task Container
      stop q = record q { terminating = true; target_worker_count = 0 }

      stop-Counts : Counts (stop p)
      stop-Counts = ground arith

  -- A worker that owns the monitor has been counted as active, whatever its phase still says.
  await_task-Counts :
      (w : ℕ) (p : Pool Task Container) (a : Phase Task)
      → get_elem? p.workers w ≡ some a
      → live a ≡ 1
      → p.worker_count ≡ total live p.workers
      → p.active_worker_count + engaged a ≡ total engaged p.workers + 1
      → p.worker_count < size_mod
      → p.target_worker_count < size_mod
      → (p.terminating ≡ true → p.target_worker_count ≡ 0)
      → Then (λ q _. Counts q) (await_task S w p)
  unfolding notify_all_clients
  await_task-Counts w p a h la c ac b tb s =
      await_task-Then (λ q _. Counts q) S w p
        (λ _ _. ground (arith, replaced p.workers w a leaving h))
        (λ _ _. ground (arith, replaced p.workers w a waiting h, engaged-le-live p.workers))
        (λ _ t k _ _. ground (arith, replaced p.workers w a (running t) h))

  execute_task-Counts :
      (w : ℕ) (p : Pool Task Container)
      → get_elem? p.workers w ≡ some fetching
      → Counts p
      → Then (λ q _. Counts q) (execute_task S w p)
  execute_task-Counts w p h v =
      execute_task-Then (λ q _. Counts q) S w p
        (λ _. ground (arith, replaced p.workers w fetching leaving h))
        (await_task-Counts w p fetching h refl v.counted (ground arith) v.bounded v.target_bounded
          v.stopped)

  resume_task-Counts :
      (w : ℕ) (p : Pool Task Container)
      → get_elem? p.workers w ≡ some woken
      → Counts p
      → Then (λ q _. Counts q) (resume_task S w p)
  unfolding resume_task
  resume_task-Counts w p h v =
      await_task-Counts w (record p { active_worker_count = inc p.active_worker_count }) woken h
        refl v.counted
        (ground (
          arith,
          engaged-le-live (set p.workers w fetching),
          replaced p.workers w woken fetching h,
        ))
        v.bounded v.target_bounded v.stopped

  schedule-Counts :
      (chosen : ℕ) (t : Task) (p : Pool Task Container)
      → Counts p
      → Counts (schedule S chosen t p).0
  unfolding schedule
  schedule-Counts chosen t p v = ground (
    arith,
    total-wake_at live live-wake chosen p.workers,
    total-wake_at engaged engaged-wake chosen p.workers,
  )

  -- Every step keeps the counters right.
  pub Step-Counts :
      {callable : Task → Bool} {p q : Pool Task Container} {e : Event Task}
      → Step S callable p e q
      → Counts p
      → Counts q
  unfolding clear wait timed_wait after_task
  Step-Counts {p} (schedules chosen t _ _) v = schedule-Counts chosen t p v
  Step-Counts {p} (refuses chosen t _) v = schedule-Counts chosen t p v
  Step-Counts clears v = ground arith
  Step-Counts {p} (resizes threads n h) v = resize-Counts threads n p h v
  Step-Counts {p} (waits k) v = begin_wait-Counts (at_most false k) p v
  Step-Counts {p} (waits_timed k) v = begin_wait-Counts (at_most true k) p v
  Step-Counts {p} (terminates b) v = terminate-Counts b p v
  Step-Counts {p} (fetches w h e) v =
      Then-elim (λ q _. Counts q) S w _ _ _ (execute_task-Counts w p h v) e
  Step-Counts {p} (resumes w h e) v =
      Then-elim (λ q _. Counts q) S w _ _ _ (resume_task-Counts w p h v) e
  Step-Counts {p} (wakes w h) v = ground (arith, replaced p.workers w waiting woken h)
  Step-Counts {p} (ends_task w t thrown h) v =
      ground (
        arith,
        replaced p.workers w (running t) fetching h,
        replaced p.workers w (running t) dying h,
      )
  Step-Counts {p} (destructs w h) v = worker_destructed-Counts p w h v
  Step-Counts {p} (dies threads w h) v = worker_died-Counts p threads w h v
  Step-Counts {p} (client_resumes i goal h) v = resume_wait-Counts i goal p v
  Step-Counts (client_wakes i goal h) v = ground arith
  Step-Counts (client_times_out i k h) v = ground arith

  pool_core-Counts : Counts (pool_core S)
  unfolding pool_core
  pool_core-Counts = ground arith

module _ {Task Container : Type 0} {S : Scheduler Task Container} (L : Lawful S) where
  -- In every state that a pool reaches, m_worker_count is the number of workers whose `run` is not
  -- over, m_active_worker_count the number of those that neither sleep nor have just been notified,
  -- the counters have not wrapped around, and a pool that terminates its workers aims at none.
  pub Reach-Counts :
      {callable : Task → Bool} {p : Pool Task Container} {l : Log Task}
      → Reach L callable p l
      → Counts p
  Reach-Counts start = pool_core-Counts S
  Reach-Counts (later r st) = Step-Counts S st (Reach-Counts r)
