-- ===== src/System/Stopping/Flag.antt =====
-- m_terminate_all_workers: who sets it, and that no worker sleeps while it is set.
use boost_threadpool.Common.{
  ℕ, ◌≡◌, refl, sym, ◌∙◌, ◌⊎◌, inl, inr, Bool, true, false, List, [], ◌∷◌, ◌++◌, arith, map, total,
  if_cases, inc,
}
use boost_threadpool.Scheduling.Interface.{Scheduler, Lawful}
use boost_threadpool.Core.State.{
  Phase, Goal, at_most, none_active, returned, Pool, pool_core, set_client,
}
use boost_threadpool.Core.Notify.{wake, notify_all_workers, notify_all_clients}
use boost_threadpool.Core.Guard.{after_task}
use boost_threadpool.Core.Tasks.{schedule, clear}
use boost_threadpool.Core.Waiting.{finish, must_wait, begin_wait, wait, timed_wait, resume_wait}
use boost_threadpool.Core.Resize.{
  attach, retarget, resize, count_out, worker_died_unexpectedly, worker_destructed,
  size_policy_worker_died,
}
use boost_threadpool.Core.Resize.Cases.{grow_inv, resize_cases}
use boost_threadpool.Core.Execute.{execute_task, resume_task, await_task}
use boost_threadpool.Core.Execute.Cases.{Then, Then-elim, await_task-Then, execute_task-Then}
use boost_threadpool.Core.Shutdown.{terminate_all_workers}
use boost_threadpool.System.Counts.{Reach-Counts}
use boost_threadpool.System.Steps.{
  asleep, Event, Step, schedules, refuses, clears, resizes, waits, waits_timed, terminates, fetches,
  resumes, wakes, ends_task, destructs, dies, client_resumes, client_wakes, client_times_out, Log,
  Reach, start, later,
}
use boost_threadpool.System.Stopping.Moves.{Falls, Step-falls, begin_wait_falls}

module _ {Task : Type 0} where
  pub asleep-Falls : Falls (asleep {Task = Task}) 0
  unfolding after_task
  asleep-Falls = record {
    notified = λ a. ground arith;
    joins = λ a. ground arith;
    fetching_leaving = omega arith;
    woken_leaving = omega arith;
    woken_running = λ t. omega arith;
    waiting_woken = omega arith;
    running_next = λ callable thrown t. ground arith;
    leaving_exited = omega arith;
    dying_exited = omega arith;
  }

  none_asleep : (ws : List (Phase Task)) → total asleep (map wake ws) ≡ 0
  none_asleep [] = refl
  none_asleep (a ∷ ws) = ground (arith, none_asleep ws)

module _ {Task Container : Type 0} where
  abbrev Same : (p q : Pool Task Container) → Type 0
  Same p q = q.terminating ≡ p.terminating

  resize-Same : (threads n : ℕ) (p : Pool Task Container) → Same p (resize threads n p).0
  unfolding attach notify_all_workers
  resize-Same threads n p =
      resize_cases (λ r. Same p r.0) threads n p (λ _. refl)
        (λ _ _. grow_inv (Same p) (λ q _ k. k) threads (retarget n p) refl) (λ _ _. refl)

  finish-Same : (goal : Goal) (p : Pool Task Container) → Same p (finish goal p)
  unfolding finish
  finish-Same (at_most timed threshold) p = refl
  finish-Same none_active p = refl

  died-Same :
      (threads w : ℕ) (p : Pool Task Container) → Same p (worker_died_unexpectedly threads w p)
  unfolding worker_died_unexpectedly size_policy_worker_died count_out
  died-Same threads w p =
      if_cases (Same p) p.terminating _ _ (λ _. refl) (λ _. resize-Same threads _ (count_out p))

module _ {Task Container : Type 0} (S : Scheduler Task Container) where
  begin_wait-Same : (goal : Goal) (p : Pool Task Container) → Same p (begin_wait S goal p)
  unfolding begin_wait
  begin_wait-Same goal p =
      if_cases (Same p) (must_wait S goal p) _ _ (λ _. refl)
        (λ _. finish-Same goal (record p { clients = p.clients ++ returned ∷ [] }))

  resume_wait-Same :
      (i : ℕ) (goal : Goal) (p : Pool Task Container) → Same p (resume_wait S i goal p)
  unfolding resume_wait
  resume_wait-Same i goal p =
      if_cases (Same p) (must_wait S goal p) _ _ (λ _. refl)
        (λ _. finish-Same goal (set_client i returned p))

  schedule-Same :
      (chosen : ℕ) (t : Task) (p : Pool Task Container) → Same p (schedule S chosen t p).0
  unfolding schedule
  schedule-Same chosen t p = ground arith

  await_task-Same : (w : ℕ) (p : Pool Task Container) → Then (λ q _. Same p q) (await_task S w p)
  unfolding notify_all_clients
  await_task-Same w p =
      await_task-Then (λ q _. Same p q) S w p (λ _ _. refl) (λ _ _. refl) (λ _ t c _ _. refl)

  execute_task-Same :
      (w : ℕ) (p : Pool Task Container) → Then (λ q _. Same p q) (execute_task S w p)
  execute_task-Same w p =
      execute_task-Then (λ q _. Same p q) S w p (λ _. refl) (await_task-Same w p)

  -- After terminate_all_workers the flag is set, and every worker has been notified.
  abbrev Stopped : Pool Task Container → Type 0
  Stopped q = (q.terminating ≡ true) × (total asleep q.workers ≡ 0)

  terminate-Stopped :
      (stays : Bool) (p : Pool Task Container) → Stopped (terminate_all_workers S stays p)
  unfolding terminate_all_workers notify_all_workers
  terminate-Stopped stays p =
      if_cases Stopped stays _ _
        (λ _. (
          begin_wait-Same none_active woken_up,
          omega (
            arith,
            begin_wait_falls asleep asleep-Falls S none_active woken_up,
            none_asleep p.workers,
          ),
        ))
        (λ _. (refl, none_asleep p.workers))
    where
      woken_up : Pool Task Container
      woken_up = notify_all_workers (record p { terminating = true; target_worker_count = 0 })

  -- Only terminate_all_workers changes the flag.
  Step-Stopped :
      {callable : Task → Bool} {p q : Pool Task Container} {e : Event Task}
      → Step S callable p e q
      → Same p q ⊎ Stopped q
  unfolding clear wait timed_wait resume_task worker_destructed count_out
  Step-Stopped {p} (schedules chosen x _ _) = inl (schedule-Same chosen x p)
  Step-Stopped {p} (refuses chosen x _) = inl (schedule-Same chosen x p)
  Step-Stopped clears = inl refl
  Step-Stopped {p} (resizes threads n h) = inl (resize-Same threads n p)
  Step-Stopped {p} (waits n) = inl (begin_wait-Same (at_most false n) p)
  Step-Stopped {p} (waits_timed n) = inl (begin_wait-Same (at_most true n) p)
  Step-Stopped {p} (terminates b) = inr (terminate-Stopped b p)
  Step-Stopped {p} (fetches w h e) =
      inl (Then-elim (λ q _. Same p q) S w _ _ _ (execute_task-Same w p) e)
  Step-Stopped {p} (resumes w h e) = inl (
      Then-elim (λ q _. Same p q) S w _ _ _
        (await_task-Same w (record p { active_worker_count = inc p.active_worker_count })) e)
  Step-Stopped (wakes w h) = inl refl
  Step-Stopped (ends_task w x thrown h) = inl refl
  Step-Stopped {p} (destructs w h) =
      inl (if_cases (λ q. Same p q) p.terminating _ _ (λ _. refl) (λ _. refl))
  Step-Stopped {p} (dies threads w h) = inl (died-Same threads w _)
  Step-Stopped {p} (client_resumes i goal h) = inl (resume_wait-Same i goal p)
  Step-Stopped (client_wakes i goal h) = inl refl
  Step-Stopped (client_times_out i n h) = inl refl

  pub Step-flag :
      {callable : Task → Bool} {p q : Pool Task Container} {e : Event Task}
      → Step S callable p e q
      → p.terminating ≡ true
      → q.terminating ≡ true
  Step-flag st t = elim (Step-Stopped st) [ inl same ↦ same ∙ t | inr stopped ↦ stopped.0 ]

module _ {Task Container : Type 0} {S : Scheduler Task Container} (L : Lawful S) where
  -- While the flag is set no worker sleeps.
  pub Reach-awake :
      {callable : Task → Bool} {p : Pool Task Container} {l : Log Task}
      → Reach L callable p l
      → p.terminating ≡ true
      → total asleep p.workers ≡ 0
  unfolding pool_core
  Reach-awake start t = refl
  Reach-awake (later {p} r st) t = elim (Step-Stopped S st) [
    | inl same ↦
        let before = sym same ∙ t in
        omega (
          arith,
          Step-falls asleep asleep-Falls S (Reach-Counts L r) before st,
          Reach-awake r before,
        )
    | inr stopped ↦ stopped.1
  ]
