-- ===== src/System/Completion.antt =====
-- A client that waits for all tasks: the end of its wait, and the workers meanwhile.
use mathlib.Core.List.Perm
use boost_threadpool.Common.{
  ℕ, zero, suc, ◌≡◌, ◌⊎◌, inl, inr, refl, subst, Bool, true, false, some, List, [], ◌∷◌, ◌++◌, Perm,
  arith, get_elem?, total, nil_of_length,
}
use boost_threadpool.Scheduling.Interface.{Scheduler, Lawful}
use boost_threadpool.Scheduling.Laws.{size_of_empty}
use boost_threadpool.Core.State.{
  Phase, fetching, waiting, woken, running, leaving, dying, exited, joined, Goal, at_most,
  none_active, blocked, Pool,
}
use boost_threadpool.Core.Waiting.{is_busy, must_wait}
use boost_threadpool.System.Phases.{live, engaged}
use boost_threadpool.System.Running.{running_tasks}
use boost_threadpool.System.Steps.{
  asleep, Event, Step, schedules, refuses, clears, resizes, waits, waits_timed, terminates, fetches,
  resumes, wakes, ends_task, destructs, dies, client_resumes, client_wakes, client_times_out, Log,
  Reach,
}
use boost_threadpool.System.Counts.{Reach-Counts}
use boost_threadpool.System.Conservation.{Reach-Conserved}
use boost_threadpool.System.Wakeups.{roused, Reach-Attended}
use boost_threadpool.System.Clients.{Exact}
use boost_threadpool.System.Clients.Notified.{Reach-Rightly}
use boost_threadpool.System.Progress.{execute_task-Defined}

module _ {Task : Type 0} where
  idle_running : (ws : List (Phase Task)) → total engaged ws ≡ 0 → running_tasks ws ≡ []
  idle_running [] h = refl
  idle_running (fetching ∷ ws) h = absurd (omega arith)
  idle_running (waiting ∷ ws) h = idle_running ws (omega arith)
  idle_running (woken ∷ ws) h = idle_running ws (omega arith)
  idle_running (running t ∷ ws) h = absurd (omega arith)
  idle_running (leaving ∷ ws) h = absurd (omega arith)
  idle_running (dying ∷ ws) h = absurd (omega arith)
  idle_running (exited ∷ ws) h = idle_running ws (omega arith)
  idle_running (joined ∷ ws) h = idle_running ws (omega arith)

module _ {Task Container : Type 0} {S : Scheduler Task Container} (L : Lawful S) where
  not_busy :
      (p : Pool Task Container)
      → is_busy S 0 p ≡ false
      → (p.active_worker_count ≡ 0) × (S.empty p.scheduler ≡ true)
  unfolding is_busy
  not_busy p h = ground arith

  -- Where nothing is pending or being executed, the accepted tasks are the finished and the removed ones.
  pub all_finished :
      {callable : Task → Bool} {p : Pool Task Container} {l : Log Task}
      → Reach L callable p l
      → L.tasks p.scheduler ≡ []
      → running_tasks p.workers ≡ []
      → Perm l.scheduled (l.finished ++ l.dropped)
  all_finished {l} r pending executing =
      let c = Reach-Conserved L r in
      Perm.trans
        (subst (λ ts. Perm l.scheduled (ts ++ (l.started ++ l.dropped))) pending c.accounted)
        (Perm.append_right l.dropped
          (subst (λ ts. Perm l.started (ts ++ l.finished)) executing c.executed))

  -- In every reached state in which a `wait` with threshold 0 need not wait, no task is pending or being
  -- executed, and the tasks that were accepted are, each once, the finished ones and those that
  -- `clear` removed.
  pub wait_completes :
      {callable : Task → Bool} {p : Pool Task Container} {l : Log Task} (timed : Bool)
      → Reach L callable p l
      → must_wait S (at_most timed 0) p ≡ false
      → (L.tasks p.scheduler ≡ [])
        × (running_tasks p.workers ≡ [])
        × Perm l.scheduled (l.finished ++ l.dropped)
  unfolding must_wait
  wait_completes {p} timed r h =
      let (a, e) = not_busy p h in
      let pending : L.tasks p.scheduler ≡ [] =
        nil_of_length (L.tasks p.scheduler)
          (omega (arith, size_of_empty L p.scheduler e, L.size_tasks p.scheduler)) in
      let executing : running_tasks p.workers ≡ [] =
        idle_running p.workers (omega (arith, a, (Reach-Counts L r).active_counted)) in
      (pending, executing, all_finished r pending executing)

module _ {Task Container : Type 0} {S : Scheduler Task Container} (L : Lawful S) where
  -- All workers sleep: then nobody has a reason to wait.
  all_asleep :
      (p : Pool Task Container) (goal : Goal)
      → Exact goal
      → p.active_worker_count ≡ 0
      → S.size p.scheduler ≡ 0
      → must_wait S goal p ≡ false
  unfolding must_wait is_busy
  all_asleep p (at_most timed zero) x a s = ground (arith, L.empty_size p.scheduler)
  all_asleep p (at_most timed (suc k)) x a s = absurd x
  all_asleep p none_active x a s = ground arith

-- 1 for a step that a worker makes by itself: all of its steps but a wake-up out of its sleep.
abbrev pub acts :
    {Task Container : Type 0} {S : Scheduler Task Container} {callable : Task → Bool}
    {p q : Pool Task Container} {e : Event Task}
    → Step S callable p e q
    → ℕ
acts (schedules chosen t pick h) = 0
acts (refuses chosen t h) = 0
acts clears = 0
acts (resizes threads n h) = 0
acts (waits k) = 0
acts (waits_timed k) = 0
acts (terminates b) = 0
acts (fetches w h e) = 1
acts (resumes w h e) = 1
acts (wakes w h) = 0
acts (ends_task w t thrown h) = 1
acts (destructs w h) = 1
acts (dies threads w h) = 1
acts (client_resumes i goal h) = 0
acts (client_wakes i goal h) = 0
acts (client_times_out i k h) = 0

module _ {Task : Type 0} where
  -- Among the workers that are alive there is one that does not sleep, or all of them sleep.
  awake_or_asleep :
      (ws : List (Phase Task))
      → ((w : ℕ) × (a : Phase Task) × (get_elem? ws w ≡ some a) × (live a ≡ 1) × (asleep a ≡ 0))
        ⊎ ((total engaged ws ≡ 0) × (total roused ws ≡ 0) × (total asleep ws ≡ total live ws))
  awake_or_asleep [] = inr (refl, refl, refl)
  awake_or_asleep (fetching ∷ ws) = inl (0, fetching, refl, refl, refl)
  awake_or_asleep (woken ∷ ws) = inl (0, woken, refl, refl, refl)
  awake_or_asleep (running t ∷ ws) = inl (0, running t, refl, refl, refl)
  awake_or_asleep (leaving ∷ ws) = inl (0, leaving, refl, refl, refl)
  awake_or_asleep (dying ∷ ws) = inl (0, dying, refl, refl, refl)
  awake_or_asleep (waiting ∷ ws) = elim (awake_or_asleep ws) [
    | inl (w, a, e, l, s) ↦ inl (suc w, a, e, l, s)
    | inr (e, r, s) ↦ inr (omega arith, omega arith, omega arith)
  ]
  awake_or_asleep (exited ∷ ws) = elim (awake_or_asleep ws) [
    | inl (w, a, e, l, s) ↦ inl (suc w, a, e, l, s)
    | inr (e, r, s) ↦ inr (omega arith, omega arith, omega arith)
  ]
  awake_or_asleep (joined ∷ ws) = elim (awake_or_asleep ws) [
    | inl (w, a, e, l, s) ↦ inl (suc w, a, e, l, s)
    | inr (e, r, s) ↦ inr (omega arith, omega arith, omega arith)
  ]

module _ {Task Container : Type 0} {S : Scheduler Task Container} (L : Lawful S)
    {callable : Task → Bool} where
  worker_acts :
      (p : Pool Task Container) (w : ℕ) (a : Phase Task)
      → get_elem? p.workers w ≡ some a
      → live a ≡ 1
      → asleep a ≡ 0
      → (e : Event Task) × (q : Pool Task Container) × (st : Step S callable p e q) × (acts st ≡ 1)
  worker_acts p w fetching h l s =
      let (q, o, e) = (execute_task-Defined L w p).0 in (_, q, fetches w h e, refl)
  worker_acts p w waiting h l s = absurd (omega arith)
  worker_acts p w woken h l s =
      let (q, o, e) = (execute_task-Defined L w p).1 in (_, q, resumes w h e, refl)
  worker_acts p w (running t) h l s = (_, _, ends_task w t false h, refl)
  worker_acts p w leaving h l s = (_, _, destructs w h, refl)
  worker_acts p w dying h l s = (_, _, dies 0 w h, refl)
  worker_acts p w exited h l s = absurd (omega arith)
  worker_acts p w joined h l s = absurd (omega arith)

  -- As long as `clear` has removed no task: while a client sleeps in `wait` with threshold 0 or in
  -- terminate_all_workers, a worker can make a step by itself, without any further notification, or the pool
  -- has no worker left. So such a client waits for a pool that gets on, never for a deadlock.
  pub wait_progress :
      {p : Pool Task Container} {l : Log Task} {goal : Goal} (i : ℕ)
      → Reach L callable p l
      → l.dropped ≡ []
      → get_elem? p.clients i ≡ some (blocked goal)
      → Exact goal
      → (p.worker_count ≡ 0)
        ⊎ ((e : Event Task) × (q : Pool Task Container) × (st : Step S callable p e q) × (acts st
              ≡ 1))
  wait_progress {p} {goal} i r d b x = elim (awake_or_asleep p.workers) [
    | inl (w, a, h, l, s) ↦ inr (worker_acts p w a h l s)
    | inr (e, ro, s) ↦ elim (Reach-Attended L r) [
      | inl none ↦ inl (omega (arith, none, s, (Reach-Counts L r).counted))
      | inr few ↦
          let idle =
            all_asleep L p goal x (omega (arith, e, (Reach-Counts L r).active_counted))
              (omega (arith, few, ro)) in
          let busy = Reach-Rightly L i r d b x in absurd (cc)
    ]
  ]
