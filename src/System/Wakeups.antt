-- ===== src/System/Wakeups.antt =====
-- No worker sleeps through a task.
pub mod Operations
use boost_threadpool.Common.{
  ℕ, zero, suc, ◌+◌, ◌≤◌, ◌≡◌, refl, ◌⊎◌, inl, inr, Bool, true, false, some, List, [], ◌∷◌, arith,
  map, get_elem?, set, total, total-append, total-set, le-total, if_cases, Bool-cases, inc,
}
use boost_threadpool.Scheduling.Interface.{Scheduler, Lawful}
use boost_threadpool.Scheduling.Laws.{size-push, size-pop, size-clear, size_of_empty}
use boost_threadpool.Core.State.{
  Phase, fetching, waiting, woken, running, leaving, dying, exited, joined, Goal, at_most,
  none_active, Pool, pool_core, set_worker,
}
use boost_threadpool.Core.Notify.{wake, wake_at, notify_all_workers, notify_all_clients}
use boost_threadpool.Core.Guard.{run_end, after_task}
use boost_threadpool.Core.Tasks.{schedule, clear}
use boost_threadpool.Core.Waiting.{finish, must_wait, begin_wait, wait, timed_wait, resume_wait}
use boost_threadpool.Core.Resize.{
  attach, retarget, resize, count_out, worker_died_unexpectedly, worker_destructed,
  size_policy_worker_died,
}
use boost_threadpool.Core.Resize.Cases.{grow_inv, resize_cases}
use boost_threadpool.Core.Execute.{execute_task, resume_task, await_task}
use boost_threadpool.Core.Execute.Cases.{Then, Then-elim, await_task-Then, execute_task-Then}
use boost_threadpool.Core.Shutdown.{terminate_all_workers}
use boost_threadpool.System.Phases.{total-join_all}
use boost_threadpool.System.Steps.{
  asleep, Picks, Event, Step, schedules, refuses, clears, resizes, waits, waits_timed, terminates,
  fetches, resumes, wakes, ends_task, destructs, dies, client_resumes, client_wakes,
  client_times_out, Log, Reach, start, later,
}
pub use boost_threadpool.System.Wakeups.Operations.{roused}
use boost_threadpool.System.Wakeups.Operations.{
  moved, wake_at-waiting, asleep-wake_at, Attended, resize-Attended, begin_wait-Attended,
  resume_wait-Attended, terminate-Attended, replace-Attended, destruct-Attended, die-Attended,
}

module _ {Task Container : Type 0} {S : Scheduler Task Container} (L : Lawful S) where
  schedule-Attended :
      (chosen : ℕ) (t : Task) (p : Pool Task Container)
      → Picks chosen p.workers
      → Attended S p
      → Attended S (schedule S chosen t p).0
  unfolding schedule
  schedule-Attended chosen t p pick v = elim (Bool-cases (S.push t p.scheduler).1) [
    | inl e ↦ simp e (push_wakes e pick)
    | inr e ↦ simp (e, L.refused t p.scheduler e) v
  ]
    where
      push_wakes :
          (S.push t p.scheduler).1 ≡ true
          → Picks chosen p.workers
          → (total asleep (wake_at chosen p.workers) ≡ 0)
            ⊎ (S.size (S.push t p.scheduler).0 ≤ total roused (wake_at chosen p.workers))
      push_wakes e (inl h) =
          rw (wake_at-waiting chosen p.workers h)
            (ground (arith, moved p.workers chosen waiting woken h, size-push L t p.scheduler e))
      push_wakes e (inr h) = inl (omega (arith, asleep-wake_at chosen p.workers))

  refused-Attended :
      (chosen : ℕ) (t : Task) (p : Pool Task Container)
      → (schedule S chosen t p).1 ≡ false
      → Attended S p
      → Attended S (schedule S chosen t p).0
  unfolding schedule
  refused-Attended chosen t p e v = ground (arith, L.refused t p.scheduler)

  await_task-Attended :
      (w : ℕ) (a : Phase Task) (p : Pool Task Container)
      → get_elem? p.workers w ≡ some a
      → asleep a ≡ 0
      → roused a ≤ 1
      → Attended S p
      → Then (λ q _. Attended S q) (await_task S w p)
  unfolding notify_all_clients
  await_task-Attended w a p h s r v =
      await_task-Then (λ q _. Attended S q) S w p
        (λ e _. inr (omega (arith, size_of_empty L p.scheduler e)))
        (λ e _. inr (omega (arith, size_of_empty L p.scheduler e)))
        (λ e t c top pop.
          ground (arith, moved p.workers w a (running t) h, size-pop L p.scheduler c t e top pop))

  execute_task-Attended :
      (w : ℕ) (p : Pool Task Container)
      → get_elem? p.workers w ≡ some fetching
      → Attended S p
      → Then (λ q _. Attended S q) (execute_task S w p)
  execute_task-Attended w p h v =
      execute_task-Then (λ q _. Attended S q) S w p
        (λ _. replace-Attended S w fetching leaving p h refl (omega arith) v)
        (await_task-Attended w fetching p h refl (omega arith) v)

  after_task-Attended :
      (callable : Task → Bool) (thrown : Bool) (t : Task)
      → (asleep (after_task callable thrown t) ≡ 0) × (roused (after_task callable thrown t) ≡ 0)
  unfolding after_task
  after_task-Attended callable thrown t = ground arith

  pub Step-Attended :
      {callable : Task → Bool} {p q : Pool Task Container} {e : Event Task}
      → Step S callable p e q
      → Attended S p
      → Attended S q
  unfolding clear wait timed_wait run_end resume_task
  Step-Attended {p} (schedules chosen t pick _) v = schedule-Attended chosen t p pick v
  Step-Attended {p} (refuses chosen t e) v = refused-Attended chosen t p e v
  Step-Attended {p} clears v = inr (omega (arith, size-clear L p.scheduler))
  Step-Attended {p} (resizes threads n h) v = resize-Attended S threads n p v
  Step-Attended {p} (waits k) v = begin_wait-Attended S (at_most false k) p v
  Step-Attended {p} (waits_timed k) v = begin_wait-Attended S (at_most true k) p v
  Step-Attended {p} (terminates b) v = terminate-Attended S b p
  Step-Attended {p} (fetches w h e) v =
      Then-elim (λ q _. Attended S q) S w _ _ _ (execute_task-Attended w p h v) e
  Step-Attended {p} (resumes w h e) v =
      Then-elim (λ q _. Attended S q) S w _ _ _
        (await_task-Attended w woken (record p { active_worker_count = inc p.active_worker_count })
          h refl (omega arith) v)
        e
  Step-Attended {p} (wakes w h) v = replace-Attended S w waiting woken p h refl (omega arith) v
  Step-Attended {callable} {p} (ends_task w t thrown h) v =
      let (s, r) = after_task-Attended callable thrown t in
      replace-Attended S w (running t) _ p h s (omega arith) v
  Step-Attended {p} (destructs w h) v =
      destruct-Attended S w _ (replace-Attended S w leaving exited p h refl (omega arith) v)
  Step-Attended {p} (dies threads w h) v =
      die-Attended S threads w _ (replace-Attended S w dying exited p h refl (omega arith) v)
  Step-Attended {p} (client_resumes i goal h) v = resume_wait-Attended S i goal p v
  Step-Attended (client_wakes i goal h) v = v
  Step-Attended (client_times_out i k h) v = v

  pool_core-Attended : Attended S (pool_core S)
  unfolding pool_core
  pool_core-Attended = inl refl

  -- In every state that a pool with a lawful scheduler reaches, either no worker sleeps, or there are
  -- at least as many notified workers, which have still to look for a task, as pending tasks: no
  -- notification of a worker is lost.
  pub Reach-Attended :
      {callable : Task → Bool} {p : Pool Task Container} {l : Log Task}
      → Reach L callable p l
      → (total asleep p.workers ≡ 0) ⊎ (S.size p.scheduler ≤ total roused p.workers)
  Reach-Attended start = pool_core-Attended
  Reach-Attended (later r st) = Step-Attended st (Reach-Attended r)
