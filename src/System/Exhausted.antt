-- ===== src/System/Exhausted.antt =====
-- A worker dies by an exception and the system has no thread left for its successor: static_size ignores
-- that `resize` has failed.
use boost_threadpool.Common.{
  ℕ, ◌≡◌, refl, ◌∙◌, Bool, true, false, some, arith, get_elem?, le-total, if_cases,
}
use boost_threadpool.Scheduling.Interface.{Scheduler, Lawful}
use boost_threadpool.Core.State.{
  Phase, fetching, woken, running, leaving, dying, exited, Goal, at_most, none_active, Pool,
  set_worker,
}
use boost_threadpool.Core.Notify.{notify_all_workers}
use boost_threadpool.Core.Tasks.{schedule, clear}
use boost_threadpool.Core.Waiting.{
  must_wait, finish, begin_wait, resume_wait, wait, timed_wait, join_terminated,
}
use boost_threadpool.Core.Resize.{worker_died_unexpectedly}
use boost_threadpool.Core.Resize.Laws.{died_short}
use boost_threadpool.Core.Shutdown.{terminate_all_workers}
use boost_threadpool.System.Phases.{live, engaged, engaged-le-live}
use boost_threadpool.System.Steps.{
  Event, Step, schedules, refuses, clears, resizes, waits, waits_timed, terminates, fetches,
  resumes, wakes, ends_task, destructs, dies, client_resumes, client_wakes, client_times_out, Log,
  log_event, Reach, later,
}
use boost_threadpool.System.Counts.{Reach-Counts}

-- Every step but a call of `resize`.
abbrev pub KeepsTarget :
    {Task Container : Type 0} {S : Scheduler Task Container} {callable : Task → Bool}
    {p q : Pool Task Container} {e : Event Task}
    → Step S callable p e q
    → Type 0
KeepsTarget (schedules chosen t pick h) = Unit
KeepsTarget (refuses chosen t h) = Unit
KeepsTarget clears = Unit
KeepsTarget (resizes threads n h) = ⊥
KeepsTarget (waits k) = Unit
KeepsTarget (waits_timed k) = Unit
KeepsTarget (terminates b) = Unit
KeepsTarget (fetches w h e) = Unit
KeepsTarget (resumes w h e) = Unit
KeepsTarget (wakes w h) = Unit
KeepsTarget (ends_task w t thrown h) = Unit
KeepsTarget (destructs w h) = Unit
KeepsTarget (dies threads w h) = Unit
KeepsTarget (client_resumes i goal h) = Unit
KeepsTarget (client_wakes i goal h) = Unit
KeepsTarget (client_times_out i k h) = Unit

-- What may follow a state without a call of `resize`.
pub data Unresized {Task Container : Type 0} {S : Scheduler Task Container} (L : Lawful S)
    (callable : Task → Bool) (p : Pool Task Container) (l : Log Task)
    : Pool Task Container → Log Task → Type 0 where
  no_step : Unresized L callable p l p l
  one_step :
      {q r : Pool Task Container} {m : Log Task} {e : Event Task}
      → Unresized L callable p l q m
      → (st : Step S callable q e r) → KeepsTarget st
      → Unresized L callable p l r (log_event L q e m)

module _ {Task Container : Type 0} (S : Scheduler Task Container) where
  worker_count-finish :
      (goal : Goal) (p : Pool Task Container) → (finish goal p).worker_count ≡ p.worker_count
  unfolding finish join_terminated
  worker_count-finish (at_most timed k) p = refl
  worker_count-finish none_active p = refl

  worker_count-begin_wait :
      (goal : Goal) (p : Pool Task Container) → (begin_wait S goal p).worker_count ≡ p.worker_count
  unfolding begin_wait
  worker_count-begin_wait goal p =
      if_cases (λ (q : Pool Task Container). q.worker_count ≡ p.worker_count) (must_wait S goal p) _
        _ (λ _. refl) (λ _. worker_count-finish goal _)

  worker_count-resume_wait :
      (i : ℕ) (goal : Goal) (p : Pool Task Container)
      → (resume_wait S i goal p).worker_count ≡ p.worker_count
  unfolding resume_wait
  worker_count-resume_wait i goal p =
      if_cases (λ (q : Pool Task Container). q.worker_count ≡ p.worker_count) (must_wait S goal p) _
        _ (λ _. refl) (λ _. worker_count-finish goal _)

  worker_count-terminate :
      (b : Bool) (p : Pool Task Container)
      → (terminate_all_workers S b p).worker_count ≡ p.worker_count
  unfolding terminate_all_workers notify_all_workers
  worker_count-terminate true p = worker_count-begin_wait none_active _
  worker_count-terminate false p = refl

  worker_count-schedule :
      (chosen : ℕ) (t : Task) (p : Pool Task Container)
      → (schedule S chosen t p).0.worker_count ≡ p.worker_count
  unfolding schedule
  worker_count-schedule chosen t p = ground arith

module _ {Task Container : Type 0} where
  -- Without workers and without `resize`, no worker appears and no task is taken.
  abbrev Idle : Pool Task Container → (l m : Log Task) → Type 0
  Idle q l m = (q.worker_count ≡ 0) × (m.started ≡ l.started)

module _ {Task Container : Type 0} {S : Scheduler Task Container} (L : Lawful S)
    {callable : Task → Bool} where
  none_live :
      {p : Pool Task Container} {l : Log Task} (w : ℕ) (a : Phase Task)
      → Reach L callable p l
      → p.worker_count ≡ 0
      → get_elem? p.workers w ≡ some a
      → live a ≡ 1
      → ⊥
  none_live {p} w a r z h e =
      absurd (omega (arith, z, e, (Reach-Counts L r).counted, le-total live p.workers w a h))

  Step-Idle :
      {p q : Pool Task Container} {l : Log Task} {e : Event Task}
      → Reach L callable p l
      → (st : Step S callable p e q) → KeepsTarget st
      → p.worker_count ≡ 0
      → Idle q l (log_event L p e l)
  unfolding clear wait timed_wait
  Step-Idle {p} r (schedules chosen t pick h) n z = (worker_count-schedule S chosen t p ∙ z, refl)
  Step-Idle {p} r (refuses chosen t h) n z = (worker_count-schedule S chosen t p ∙ z, refl)
  Step-Idle r clears n z = (z, refl)
  Step-Idle r (resizes threads k h) n z = absurd n
  Step-Idle {p} r (waits k) n z = (worker_count-begin_wait S (at_most false k) p ∙ z, refl)
  Step-Idle {p} r (waits_timed k) n z = (worker_count-begin_wait S (at_most true k) p ∙ z, refl)
  Step-Idle {p} r (terminates b) n z = (worker_count-terminate S b p ∙ z, refl)
  Step-Idle r (fetches w h e) n z = absurd (none_live w fetching r z h refl)
  Step-Idle r (resumes w h e) n z = absurd (none_live w woken r z h refl)
  Step-Idle r (wakes w h) n z = (z, refl)
  Step-Idle r (ends_task w t thrown h) n z = absurd (none_live w (running t) r z h refl)
  Step-Idle r (destructs w h) n z = absurd (none_live w leaving r z h refl)
  Step-Idle r (dies threads w h) n z = absurd (none_live w dying r z h refl)
  Step-Idle {p} r (client_resumes i goal h) n z = (worker_count-resume_wait S i goal p ∙ z, refl)
  Step-Idle r (client_wakes i goal h) n z = (z, refl)
  Step-Idle r (client_times_out i k h) n z = (z, refl)

  Unresized-Reach :
      {p : Pool Task Container} {l : Log Task} {q : Pool Task Container} {m : Log Task}
      → Reach L callable p l
      → Unresized L callable p l q m
      → Reach L callable q m
  Unresized-Reach r no_step = r
  Unresized-Reach r (one_step u st n) = later (Unresized-Reach r u) st

  Unresized-Idle :
      {p : Pool Task Container} {l : Log Task} {q : Pool Task Container} {m : Log Task}
      → Reach L callable p l
      → p.worker_count ≡ 0
      → Unresized L callable p l q m
      → Idle q l m
  Unresized-Idle r z no_step = (z, refl)
  Unresized-Idle r z (one_step u st n) =
      let (z', k) = Unresized-Idle r z u in
      let (z'', k') = Step-Idle (Unresized-Reach r u) st n z' in (z'', k' ∙ k)

  -- In every reached state: when the last worker dies by an exception in a pool that is not shutting down,
  -- and the system has no thread left, the death is handled without an error, and the pool is left with the
  -- target 1 and no worker. Whatever happens then, without a call of `resize` the pool has no worker again
  -- and takes no task, however many threads the system has later.
  pub last_death_strands :
      {p q : Pool Task Container} {l m : Log Task} (w : ℕ)
      → Reach L callable p l
      → get_elem? p.workers w ≡ some dying
      → p.terminating ≡ false
      → p.worker_count ≡ 1
      → let d = worker_died_unexpectedly 0 w (set_worker w exited p) in
        Unresized L callable d l q m
        → (d.target_worker_count ≡ 1) × (q.worker_count ≡ 0) × (m.started ≡ l.started)
  last_death_strands {p} w r h t one u =
      let c = Reach-Counts L r in
      let (fewer, target) =
        died_short w (set_worker w exited p) t
          (omega (arith, c.active_counted, le-total engaged p.workers w dying h))
          (omega (arith, c.counted, c.active_counted, engaged-le-live p.workers))
          (omega (arith, one)) in
      let (none, same) = Unresized-Idle (later r (dies 0 w h)) (omega (arith, fewer, one)) u in
      (target ∙ one, none, same)
