-- ===== src/System/Clients/Notified.antt =====
-- Every step but a `clear` that removes tasks wakes the clients that it gives what they wait for.
use boost_threadpool.Common.{
  ℕ, ◌<◌, ◌≡◌, refl, inl, inr, Bool, true, false, some, List, [], ◌∷◌, ◌++◌, arith, get_elem?, set,
  Bool-cases, inc, All-map, All-set, le-total, length, ap, All-get,
}
use boost_threadpool.Scheduling.Interface.{Scheduler, Lawful}
use boost_threadpool.Scheduling.Laws.{size-push, size-clear}
use boost_threadpool.Core.State.{
  fetching, woken, running, leaving, dying, Goal, at_most, blocked, notified, timed_out, Pool,
  pool_core, set_worker,
}
use boost_threadpool.Core.Notify.{wake_at, notify_all_clients}
use boost_threadpool.Core.Guard.{run_end, after_task}
use boost_threadpool.Core.Tasks.{schedule, clear}
use boost_threadpool.Core.Waiting.{is_busy, must_wait, wait, timed_wait}
use boost_threadpool.Core.Execute.{left, slept, took, execute_task, resume_task, await_task}
use boost_threadpool.Core.Execute.Cases.{Then, Then-elim, await_task-Then, execute_task-Then}
use boost_threadpool.System.Phases.{engaged, engaged-le-live, replaced}
use boost_threadpool.System.Counts.{Counts, count_out-Counts, Reach-Counts}
use boost_threadpool.System.Steps.{
  Event, quiet, accepted, emptied, fetched, ended, log_event, Step, schedules, refuses, clears,
  resizes, waits, waits_timed, terminates, fetches, resumes, wakes, ends_task, destructs, dies,
  client_resumes, client_wakes, client_times_out, Log, Reach, start, later,
}
use boost_threadpool.System.Clients.{
  Exact, Rightly, Informed, Rightly-mono, busy_of_pending, Informed-active, Informed-same,
  Informed-clients, Informed_notified, begin_wait-Informed, resume_wait-Informed,
  terminate-Informed, resize-Informed, destruct-Informed, die-Informed,
}

append-eq-nil {ℓ} : {A : Type ℓ} (xs ys : List A) → xs ++ ys ≡ [] → (xs ≡ []) × (ys ≡ [])
append-eq-nil [] ys h = (refl, h)
append-eq-nil (x ∷ xs) ys h = absurd (cc)

module _ {Task Container : Type 0} {S : Scheduler Task Container} (L : Lawful S) where
  await_task-Informed :
      (w : ℕ) (p : Pool Task Container)
      → 0 < p.active_worker_count
      → Informed S p
      → Then (λ q _. Informed S q) (await_task S w p)
  unfolding notify_all_clients
  await_task-Informed w p h v =
      await_task-Then (λ q _. Informed S q) S w p
        (λ _ _. Informed-same S p (set_worker w leaving p) refl refl refl v)
        (λ _ _. Informed_notified S _ p.clients)
        (λ _ t c _ _.
          Informed-active S p (set_worker w (running t) (record p { scheduler = c })) refl h v)

  execute_task-Informed :
      (w : ℕ) (p : Pool Task Container)
      → get_elem? p.workers w ≡ some fetching
      → Counts p
      → Informed S p
      → Then (λ q _. Informed S q) (execute_task S w p)
  execute_task-Informed w p h c v =
      execute_task-Then (λ q _. Informed S q) S w p
        (λ _. Informed-same S p (set_worker w leaving p) refl refl refl v)
        (await_task-Informed w p (ground (arith, le-total engaged p.workers w fetching h)) v)

  resume_task-Informed :
      (w : ℕ) (p : Pool Task Container)
      → get_elem? p.workers w ≡ some woken
      → Counts p
      → Informed S p
      → Then (λ q _. Informed S q) (resume_task S w p)
  unfolding resume_task
  resume_task-Informed w p h c v =
      await_task-Informed w engaged_one counted (Informed-active S p engaged_one refl counted v)
    where
      engaged_one : Pool Task Container
      engaged_one = record p { active_worker_count = inc p.active_worker_count }

      counted : 0 < inc p.active_worker_count
      counted =
          ground (
            arith,
            engaged-le-live (set p.workers w fetching),
            replaced p.workers w woken fetching h,
          )

  schedule-Informed :
      (chosen : ℕ) (t : Task) (p : Pool Task Container)
      → Informed S p
      → Informed S (schedule S chosen t p).0
  unfolding schedule
  schedule-Informed chosen t p v = elim (Bool-cases (S.push t p.scheduler).1) [
    | inl e ↦ simp e (
        All-map (Rightly S p) (Rightly S (pushed e))
          (Rightly-mono S p (pushed e)
            (λ _.
              busy_of_pending S (pushed e) (
                ground (arith, size-push L t p.scheduler e, L.empty_size (S.push t p.scheduler).0)))
            (λ h. h))
          p.clients v)
    | inr e ↦ simp (e, L.refused t p.scheduler e) v
  ]
    where
      pushed : (S.push t p.scheduler).1 ≡ true → Pool Task Container
      pushed e = record p {
        scheduler = (S.push t p.scheduler).0;
        workers = wake_at chosen p.workers;
      }

  clear-Informed :
      (p : Pool Task Container) → L.tasks p.scheduler ≡ [] → Informed S p → Informed S (clear S p)
  unfolding clear is_busy
  clear-Informed p e v =
      All-map (Rightly S p) (Rightly S (clear S p))
        (Rightly-mono S p (clear S p)
          (λ b. ground (
            arith,
            ap length e,
            L.size_tasks p.scheduler,
            L.empty_size p.scheduler,
            L.empty_size (S.clear p.scheduler),
            size-clear L p.scheduler,
          ))
          (λ h. h))
        p.clients v

  pub Step-Informed :
      {callable : Task → Bool} {p q : Pool Task Container} {e : Event Task}
      → Step S callable p e q
      → (e ≡ emptied → L.tasks p.scheduler ≡ [])
      → Counts p
      → Informed S p
      → Informed S q
  unfolding wait timed_wait run_end
  Step-Informed {p} (schedules chosen t pick _) f c v = schedule-Informed chosen t p v
  Step-Informed {p} (refuses chosen t e) f c v = schedule-Informed chosen t p v
  Step-Informed {p} clears f c v = clear-Informed p (f refl) v
  Step-Informed {p} (resizes threads n h) f c v = resize-Informed S threads n p h c v
  Step-Informed {p} (waits k) f c v = begin_wait-Informed S (at_most false k) p v
  Step-Informed {p} (waits_timed k) f c v = begin_wait-Informed S (at_most true k) p v
  Step-Informed {p} (terminates b) f c v = terminate-Informed S b p v
  Step-Informed {p} (fetches w h e) f c v =
      Then-elim (λ q _. Informed S q) S w _ _ _ (execute_task-Informed w p h c v) e
  Step-Informed {p} (resumes w h e) f c v =
      Then-elim (λ q _. Informed S q) S w _ _ _ (resume_task-Informed w p h c v) e
  Step-Informed {p} (wakes w h) f c v = Informed-same S p (set_worker w woken p) refl refl refl v
  Step-Informed {callable} {p} (ends_task w t thrown h) f c v =
      Informed-same S p (set_worker w (after_task callable thrown t) p) refl refl refl v
  Step-Informed {p} (destructs w h) f c v = destruct-Informed S w _
  Step-Informed {p} (dies threads w h) f c v =
      die-Informed S threads w _ (count_out-Counts p w dying h refl refl c)
  Step-Informed {p} (client_resumes i goal h) f c v = resume_wait-Informed S i goal p v
  Step-Informed {p} (client_wakes i goal h) f c v =
      Informed-clients S p _ (All-set (Rightly S p) p.clients i (notified goal) v tt)
  Step-Informed {p} (client_times_out i k h) f c v =
      Informed-clients S p _ (All-set (Rightly S p) p.clients i timed_out v tt)

  dropped_before :
      (p : Pool Task Container) (e : Event Task) (l : Log Task)
      → (log_event L p e l).dropped ≡ []
      → (l.dropped ≡ []) × (e ≡ emptied → L.tasks p.scheduler ≡ [])
  dropped_before p quiet l h = (h, λ e. absurd (cc))
  dropped_before p (accepted t) l h = (h, λ e. absurd (cc))
  dropped_before p emptied l h =
      let (x, y) = append-eq-nil (L.tasks p.scheduler) l.dropped h in (y, λ _. x)
  dropped_before p (fetched left) l h = (h, λ e. absurd (cc))
  dropped_before p (fetched slept) l h = (h, λ e. absurd (cc))
  dropped_before p (fetched (took t)) l h = (h, λ e. absurd (cc))
  dropped_before p (ended t) l h = (h, λ e. absurd (cc))

  Reach-Informed :
      {callable : Task → Bool} {p : Pool Task Container} {l : Log Task}
      → Reach L callable p l
      → l.dropped ≡ []
      → Informed S p
  unfolding pool_core
  Reach-Informed start h = tt
  Reach-Informed (later {p} {l} {e} r st) h =
      let (before, nothing) = dropped_before p e l h in
      Step-Informed st nothing (Reach-Counts L r) (Reach-Informed r before)

  -- As long as `clear` has removed no task: a client that sleeps in `wait` with threshold 0, or in
  -- terminate_all_workers, and was not notified, still has something to wait for. So no notification of
  -- such a client is lost.
  pub Reach-Rightly :
      {callable : Task → Bool} {p : Pool Task Container} {l : Log Task} {goal : Goal} (i : ℕ)
      → Reach L callable p l
      → l.dropped ≡ []
      → get_elem? p.clients i ≡ some (blocked goal)
      → Exact goal
      → must_wait S goal p ≡ true
  Reach-Rightly {p} {goal} i r h e x =
      All-get (Rightly S p) p.clients i (blocked goal) (Reach-Informed r h) e x
