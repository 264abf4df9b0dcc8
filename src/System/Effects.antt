-- ===== src/System/Effects.antt =====
-- What each step does to the scheduler of the pool.
use boost_threadpool.Common.{ℕ, ◌≡◌, refl, Bool, true, false, some, arith, inc}
use boost_threadpool.Scheduling.Interface.{Scheduler, Lawful}
use boost_threadpool.Core.State.{at_most, Pool}
use boost_threadpool.Core.Notify.{notify_all_clients}
use boost_threadpool.Core.Tasks.{schedule, clear}
use boost_threadpool.Core.Waiting.{wait, timed_wait}
use boost_threadpool.Core.Execute.{
  Fetched, left, slept, took, execute_task, resume_task, await_task,
}
use boost_threadpool.Core.Execute.Cases.{Then, Then-elim, await_task-Then, execute_task-Then}
use boost_threadpool.System.Keeps.{
  resize-Keeps, begin_wait-Keeps, resume_wait-Keeps, terminate-Keeps, worker_destructed-Keeps,
  worker_died-Keeps,
}
use boost_threadpool.System.Steps.{
  Event, quiet, accepted, emptied, fetched, ended, Step, schedules, refuses, clears, resizes, waits,
  waits_timed, terminates, fetches, resumes, wakes, ends_task, destructs, dies, client_resumes,
  client_wakes, client_times_out,
}

module _ {Task Container : Type 0} (S : Scheduler Task Container) where
  -- The call that an event makes of the scheduler `c`, which leaves `d`.
  abbrev pub Effect : Event Task → (c d : Container) → Type 0
  Effect quiet c d = d ≡ c
  Effect (accepted t) c d = S.push t c ≡ (d, true)
  Effect emptied c d = d ≡ S.clear c
  Effect (fetched left) c d = d ≡ c
  Effect (fetched slept) c d = d ≡ c
  Effect (fetched (took t)) c d = (S.empty c ≡ false) × (S.top c ≡ some t) × (S.pop c ≡ some d)
  Effect (ended t) c d = d ≡ c

module _ {Task Container : Type 0} {S : Scheduler Task Container} (L : Lawful S) where
  schedule-Effect :
      (chosen : ℕ) (t : Task) (p : Pool Task Container)
      → (schedule S chosen t p).1 ≡ true
      → Effect S (accepted t) p.scheduler (schedule S chosen t p).0.scheduler
  unfolding schedule
  schedule-Effect chosen t p e = ground arith

  refused-Effect :
      (chosen : ℕ) (t : Task) (p : Pool Task Container)
      → (schedule S chosen t p).1 ≡ false
      → (schedule S chosen t p).0.scheduler ≡ p.scheduler
  unfolding schedule
  refused-Effect chosen t p e = ground (arith, L.refused t p.scheduler)

  abbrev Fetches : (c : Container) → Pool Task Container → Fetched Task → Type 0
  Fetches c q o = Effect S (fetched o) c q.scheduler

  await_task-Effect :
      (w : ℕ) (p : Pool Task Container) → Then (Fetches p.scheduler) (await_task S w p)
  unfolding notify_all_clients
  await_task-Effect w p =
      await_task-Then (Fetches p.scheduler) S w p (λ _ _. refl) (λ _ _. refl)
        (λ e t c top pop. (e, top, pop))

  execute_task-Effect :
      (w : ℕ) (p : Pool Task Container) → Then (Fetches p.scheduler) (execute_task S w p)
  execute_task-Effect w p =
      execute_task-Then (Fetches p.scheduler) S w p (λ _. refl) (await_task-Effect w p)

  -- Each step of a pool makes at most one call that changes its scheduler, the one that its event names: a
  -- push that succeeds when a task is accepted, `clear`, or, when a worker takes a task, the
  -- removal of the top of a scheduler that is not empty. All other steps leave the scheduler as it is.
  pub Step-Effect :
      {callable : Task → Bool} {p q : Pool Task Container} {e : Event Task}
      → Step S callable p e q
      → Effect S e p.scheduler q.scheduler
  unfolding clear wait timed_wait resume_task
  Step-Effect {p} (schedules chosen t _ e) = schedule-Effect chosen t p e
  Step-Effect {p} (refuses chosen t e) = refused-Effect chosen t p e
  Step-Effect clears = refl
  Step-Effect {p} (resizes threads n h) = (resize-Keeps threads n p).same_scheduler
  Step-Effect {p} (waits k) = (begin_wait-Keeps S (at_most false k) p).same_scheduler
  Step-Effect {p} (waits_timed k) = (begin_wait-Keeps S (at_most true k) p).same_scheduler
  Step-Effect {p} (terminates b) = (terminate-Keeps S b p).same_scheduler
  Step-Effect {p} (fetches w h e) =
      Then-elim (Fetches p.scheduler) S w _ _ _ (execute_task-Effect w p) e
  Step-Effect {p} (resumes w h e) =
      Then-elim (Fetches p.scheduler) S w _ _ _
        (await_task-Effect w (record p { active_worker_count = inc p.active_worker_count })) e
  Step-Effect (wakes w h) = refl
  Step-Effect (ends_task w t thrown h) = refl
  Step-Effect (destructs w h) = (worker_destructed-Keeps w _).same_scheduler
  Step-Effect (dies threads w h) = (worker_died-Keeps threads w _).same_scheduler
  Step-Effect {p} (client_resumes i goal h) = (resume_wait-Keeps S i goal p).same_scheduler
  Step-Effect (client_wakes i goal h) = refl
  Step-Effect (client_times_out i k h) = refl
