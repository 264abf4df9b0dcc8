-- ===== src/System/Stopping/Moves.antt =====
-- What a step of a pool that terminates its workers does to a sum over them.
use boost_threadpool.Common.{
  ℕ, zero, suc, ◌+◌, ◌*◌, ◌≤◌, ◌<◌, ◌≡◌, refl, Bool, true, false, some, List, [], ◌∷◌, ◌++◌, arith,
  map, get_elem?, set, total, total-set, le-total, inc, if_cases, lt→ltb,
}
use boost_threadpool.Scheduling.Interface.{Scheduler}
use boost_threadpool.Core.State.{
  Phase, fetching, waiting, woken, running, leaving, dying, exited, Goal, at_most, none_active,
  returned, Pool, set_client,
}
use boost_threadpool.Core.Notify.{wake, wake_at, notify_all_workers}
use boost_threadpool.Core.Guard.{run_end, after_task}
use boost_threadpool.Core.Tasks.{schedule, clear}
use boost_threadpool.Core.Waiting.{
  join, join_at, join_all, finish, must_wait, begin_wait, wait, timed_wait, resume_wait,
}
use boost_threadpool.Core.Resize.{resize, count_out, worker_died_unexpectedly, worker_destructed}
use boost_threadpool.Core.Execute.{execute_task, resume_task, await_task, leave}
use boost_threadpool.Core.Execute.Cases.{Then, Then-elim, await_task-Then}
use boost_threadpool.Core.Shutdown.{terminate_all_workers}
use boost_threadpool.System.Phases.{live}
use boost_threadpool.System.Counts.{Counts}
use boost_threadpool.System.Steps.{
  Event, Step, schedules, refuses, clears, resizes, waits, waits_timed, terminates, fetches,
  resumes, wakes, ends_task, destructs, dies, client_resumes, client_wakes, client_times_out,
}

-- 1 for a step of a worker.
abbrev pub work :
    {Task Container : Type 0} {S : Scheduler Task Container} {callable : Task → Bool}
    {p q : Pool Task Container} {e : Event Task}
    → Step S callable p e q
    → ℕ
work (schedules chosen t pick h) = 0
work (refuses chosen t h) = 0
work clears = 0
work (resizes threads n h) = 0
work (waits k) = 0
work (waits_timed k) = 0
work (terminates b) = 0
work (fetches w h e) = 1
work (resumes w h e) = 1
work (wakes w h) = 1
work (ends_task w t thrown h) = 1
work (destructs w h) = 1
work (dies threads w h) = 1
work (client_resumes i goal h) = 0
work (client_wakes i goal h) = 0
work (client_times_out i k h) = 0

-- A weight that no move of a worker raises, and that each of them lowers by `k`, as far as
-- workers of a pool that terminates them make it.
pub record Falls {Task : Type 0} (f : Phase Task → ℕ) (k : ℕ) : Type 0 where
  pub notified : (a : Phase Task) → f (wake a) ≤ f a
  pub joins : (a : Phase Task) → f (join a) ≤ f a
  pub fetching_leaving : f leaving + k ≤ f fetching
  pub woken_leaving : f leaving + k ≤ f woken
  pub woken_running : (t : Task) → f (running t) + k ≤ f woken
  pub waiting_woken : f woken + k ≤ f waiting
  pub running_next :
      (callable : Task → Bool) (thrown : Bool) (t : Task)
      → f (after_task callable thrown t) + k ≤ f (running t)
  pub leaving_exited : f exited + k ≤ f leaving
  pub dying_exited : f exited + k ≤ f dying

module _ {Task : Type 0} (f : Phase Task → ℕ) {k : ℕ} (F : Falls f k) where
  map_falls : (ws : List (Phase Task)) → total f (map wake ws) ≤ total f ws
  map_falls [] = omega arith
  map_falls (a ∷ ws) = omega (arith, F.notified a, map_falls ws)

  wake_at_falls : (i : ℕ) (ws : List (Phase Task)) → total f (wake_at i ws) ≤ total f ws
  unfolding wake_at
  wake_at_falls i [] = omega arith
  wake_at_falls zero (a ∷ ws) = omega (arith, F.notified a)
  wake_at_falls (suc i) (a ∷ ws) = omega (arith, wake_at_falls i ws)

  join_at_falls : (i : ℕ) (ws : List (Phase Task)) → total f (join_at i ws) ≤ total f ws
  unfolding join_at
  join_at_falls i [] = omega arith
  join_at_falls zero (a ∷ ws) = omega (arith, F.joins a)
  join_at_falls (suc i) (a ∷ ws) = omega (arith, join_at_falls i ws)

  join_all_falls : (is : List ℕ) (ws : List (Phase Task)) → total f (join_all is ws) ≤ total f ws
  unfolding join_all
  join_all_falls [] ws = omega arith
  join_all_falls (i ∷ is) ws = omega (arith, join_all_falls is (join_at i ws), join_at_falls i ws)

  set_falls :
      (ws : List (Phase Task)) (w : ℕ) (a b : Phase Task)
      → get_elem? ws w ≡ some a
      → f b + k ≤ f a
      → total f (set ws w b) + k * 1 ≤ total f ws
  set_falls ws w a b h le = omega (arith, total-set f ws w b a h, le-total f ws w a h)

module _ {Task Container : Type 0} (f : Phase Task → ℕ) {k : ℕ} (F : Falls f k) where
  abbrev pub Below : (n : ℕ) (p q : Pool Task Container) → Type 0
  Below n p q = total f q.workers + k * n ≤ total f p.workers

  finish_falls : (goal : Goal) (p : Pool Task Container) → Below 0 p (finish goal p)
  unfolding finish
  finish_falls (at_most timed threshold) p = omega arith
  finish_falls none_active p = omega (arith, join_all_falls f F p.terminated_workers p.workers)

  module _ (S : Scheduler Task Container) where
    pub begin_wait_falls : (goal : Goal) (p : Pool Task Container) → Below 0 p (begin_wait S goal p)
    unfolding begin_wait
    begin_wait_falls goal p =
        if_cases (Below 0 p) (must_wait S goal p) _ _ (λ _. omega arith)
          (λ _. finish_falls goal (record p { clients = p.clients ++ returned ∷ [] }))

    resume_wait_falls :
        (i : ℕ) (goal : Goal) (p : Pool Task Container) → Below 0 p (resume_wait S i goal p)
    unfolding resume_wait
    resume_wait_falls i goal p =
        if_cases (Below 0 p) (must_wait S goal p) _ _ (λ _. omega arith)
          (λ _. finish_falls goal (set_client i returned p))

    schedule_falls :
        (chosen : ℕ) (t : Task) (p : Pool Task Container) → Below 0 p (schedule S chosen t p).0
    unfolding schedule
    schedule_falls chosen t p = ground (arith, wake_at_falls f F chosen p.workers)

    terminate_falls :
        (stays : Bool) (p : Pool Task Container) → Below 0 p (terminate_all_workers S stays p)
    unfolding terminate_all_workers notify_all_workers
    terminate_falls stays p =
        if_cases (Below 0 p) stays _ _
          (λ _. omega (
            arith,
            begin_wait_falls none_active
                (notify_all_workers (record p { terminating = true; target_worker_count = 0 })),
            map_falls f F p.workers,
          ))
          (λ _. omega (arith, map_falls f F p.workers))

    -- There are more workers than wanted, so none goes to sleep.
    await_task_falls :
        (w : ℕ) (p : Pool Task Container)
        → p.target_worker_count < p.worker_count
        → get_elem? p.workers w ≡ some woken
        → Then (λ q _. Below 1 p q) (await_task S w p)
    await_task_falls w p l h =
        await_task-Then (λ q _. Below 1 p q) S w p
          (λ _ _. set_falls f F p.workers w woken leaving h F.woken_leaving)
          (λ _ g. absurd (omega arith))
          (λ _ t c _ _. set_falls f F p.workers w woken (running t) h (F.woken_running t))

    execute_task_falls :
        (w : ℕ) (p : Pool Task Container)
        → p.target_worker_count < p.worker_count
        → get_elem? p.workers w ≡ some fetching
        → Then (λ q _. Below 1 p q) (execute_task S w p)
    unfolding execute_task leave
    execute_task_falls w p l h =
        rw (lt→ltb p.target_worker_count p.worker_count l)
          (set_falls f F p.workers w fetching leaving h F.fetching_leaving)

    some_workers :
        (p : Pool Task Container) (w : ℕ) (a : Phase Task)
        → Counts p
        → p.terminating ≡ true
        → get_elem? p.workers w ≡ some a
        → live a ≡ 1
        → p.target_worker_count < p.worker_count
    some_workers p w a v e h la =
        omega (arith, v.stopped e, v.counted, le-total live p.workers w a h)

    -- A step of a pool that terminates its workers, by a worker or by someone else.
    pub Step-falls :
        {callable : Task → Bool} {p q : Pool Task Container} {e : Event Task}
        → Counts p
        → p.terminating ≡ true
        → (st : Step S callable p e q) → Below (work st) p q
    unfolding clear wait timed_wait resume_task run_end worker_destructed count_out
        worker_died_unexpectedly resize
    Step-falls {p} v t (schedules chosen x _ _) = schedule_falls chosen x p
    Step-falls {p} v t (refuses chosen x _) = schedule_falls chosen x p
    Step-falls v t clears = omega arith
    Step-falls {p} v t (resizes threads n h) = rw t (omega arith)
    Step-falls {p} v t (waits n) = begin_wait_falls (at_most false n) p
    Step-falls {p} v t (waits_timed n) = begin_wait_falls (at_most true n) p
    Step-falls {p} v t (terminates b) = terminate_falls b p
    Step-falls {p} v t (fetches w h e) =
        Then-elim (λ q _. Below 1 p q) S w _ _ _
          (execute_task_falls w p (some_workers p w fetching v t h refl) h) e
    Step-falls {p} v t (resumes w h e) =
        Then-elim (λ q _. Below 1 p q) S w _ _ _
          (await_task_falls w (record p { active_worker_count = inc p.active_worker_count })
            (some_workers p w woken v t h refl) h)
          e
    Step-falls {p} v t (wakes w h) = set_falls f F p.workers w waiting woken h F.waiting_woken
    Step-falls {callable} {p} v t (ends_task w x thrown h) =
        set_falls f F p.workers w (running x) _ h (F.running_next callable thrown x)
    Step-falls {p} v t (destructs w h) =
        rw t (set_falls f F p.workers w leaving exited h F.leaving_exited)
    Step-falls {p} v t (dies threads w h) =
        rw t (set_falls f F p.workers w dying exited h F.dying_exited)
    Step-falls {p} v t (client_resumes i goal h) = resume_wait_falls i goal p
    Step-falls v t (client_wakes i goal h) = omega arith
    Step-falls v t (client_times_out i n h) = omega arith
