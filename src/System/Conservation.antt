-- ===== src/System/Conservation.antt =====
-- No task is lost or executed twice.
use mathlib.Core.List.{perm_middle}
use mathlib.Core.List.Perm
use boost_threadpool.Common.{
  ℕ, ◌≡◌, refl, subst, Bool, true, false, some, [], ◌∷◌, ◌++◌, Perm, arith, get_elem?, set, inc,
}
use boost_threadpool.Scheduling.Interface.{Scheduler, Lawful}
use boost_threadpool.Scheduling.Laws.{takes_at}
use boost_threadpool.Core.State.{
  Phase, fetching, waiting, woken, running, leaving, dying, exited, at_most, Pool, pool_core,
  set_worker,
}
use boost_threadpool.Core.Notify.{notify_all_clients}
use boost_threadpool.Core.Guard.{run_end, after_task}
use boost_threadpool.Core.Tasks.{schedule, clear}
use boost_threadpool.Core.Waiting.{wait, timed_wait}
use boost_threadpool.Core.Execute.{Fetched, execute_task, resume_task, await_task}
use boost_threadpool.Core.Execute.Cases.{Then, Then-elim, await_task-Then, execute_task-Then}
use boost_threadpool.System.Running.{
  perm_left_comm, task_of, running_tasks, running_tasks-wake_at, running_tasks-set,
}
use boost_threadpool.System.Keeps.{
  Keeps, resize-Keeps, begin_wait-Keeps, resume_wait-Keeps, terminate-Keeps, set_worker-Keeps,
  worker_destructed-Keeps, worker_died-Keeps,
}
use boost_threadpool.System.Steps.{
  Event, accepted, emptied, fetched, ended, Step, schedules, refuses, clears, resizes, waits,
  waits_timed, terminates, fetches, resumes, wakes, ends_task, destructs, dies, client_resumes,
  client_wakes, client_times_out, Log, log_event, Reach, start, later,
}

module _ {Task Container : Type 0} {S : Scheduler Task Container} (L : Lawful S) where
  -- Every task that was accepted is pending, was taken or was removed by `clear`, and every task that
  -- was taken is being executed or is finished; each as often as it was accepted.
  pub record Conserved (p : Pool Task Container) (l : Log Task) : Type 0 where
    pub accounted : Perm l.scheduled (L.tasks p.scheduler ++ (l.started ++ l.dropped))
    pub executed : Perm l.started (running_tasks p.workers ++ l.finished)

  pool_core-Conserved :
      Conserved (pool_core S) (record { scheduled = []; started = []; dropped = []; finished = [] })
  unfolding pool_core
  pool_core-Conserved = record {
    accounted = rw (L.cleared S.created) Perm.rfl;
    executed = Perm.rfl;
  }

  Keeps-Conserved :
      {p q : Pool Task Container} {l : Log Task} → Keeps p q → Conserved p l → Conserved q l
  Keeps-Conserved {p} {q} {l} k v = record {
    accounted = rw k.same_scheduler v.accounted;
    executed = rw k.same_running v.executed;
  }

  schedule_accepted :
      (chosen : ℕ) (t : Task) (p : Pool Task Container)
      → (schedule S chosen t p).1 ≡ true
      → ((S.push t p.scheduler).1 ≡ true)
        × ((schedule S chosen t p).0.scheduler ≡ (S.push t p.scheduler).0)
        × (running_tasks (schedule S chosen t p).0.workers ≡ running_tasks p.workers)
  unfolding schedule
  schedule_accepted chosen t p e = ground (arith, running_tasks-wake_at chosen p.workers)

  schedule-Conserved :
      (chosen : ℕ) (t : Task) (p : Pool Task Container) (l : Log Task)
      → (schedule S chosen t p).1 ≡ true
      → Conserved p l
      → Conserved (schedule S chosen t p).0 (log_event L p (accepted t) l)
  schedule-Conserved chosen t p l e v =
      let (pushed, same, kept) = schedule_accepted chosen t p e in
      record {
        accounted = rw same (
            Perm.trans (Perm.cons t v.accounted) (
              Perm.symm
                (Perm.append_right (l.started ++ l.dropped) (L.accepted t p.scheduler pushed))));
        executed = rw kept v.executed;
      }

  refuse-Keeps :
      (chosen : ℕ) (t : Task) (p : Pool Task Container)
      → (schedule S chosen t p).1 ≡ false
      → Keeps p (schedule S chosen t p).0
  unfolding schedule
  refuse-Keeps chosen t p e = ground (arith, L.refused t p.scheduler)

  clear-Conserved :
      (p : Pool Task Container) (l : Log Task)
      → Conserved p l
      → Conserved (clear S p) (log_event L p emptied l)
  unfolding clear
  clear-Conserved p l v = record {
    accounted =
        rw (L.cleared p.scheduler)
          (Perm.trans v.accounted (perm_left_comm (L.tasks p.scheduler) l.started l.dropped));
    executed = v.executed;
  }

  take-Conserved :
      (w : ℕ) (a : Phase Task) (p : Pool Task Container) (l : Log Task) (c : Container) (t : Task)
      → get_elem? p.workers w ≡ some a
      → task_of a ≡ []
      → S.empty p.scheduler ≡ false
      → S.top p.scheduler ≡ some t
      → S.pop p.scheduler ≡ some c
      → Conserved p l
      → Conserved
          (set_worker w (running t) (record p { scheduler = c }))
          (record l { started = t ∷ l.started })
  take-Conserved w a p l c t h e k top pop v = record {
    accounted = Perm.trans v.accounted (
        Perm.trans
          (Perm.append_right (l.started ++ l.dropped) (takes_at L p.scheduler c t k top pop))
          (Perm.symm (perm_middle (L.tasks c) (l.started ++ l.dropped))));
    executed = Perm.trans (Perm.cons t v.executed) (
        Perm.append_right l.finished (
          subst
            (λ x.
              Perm (t ∷ running_tasks p.workers) (x ++ running_tasks (set p.workers w (running t))))
            e (running_tasks-set p.workers w a (running t) h)));
  }

  abbrev Fetches : Pool Task Container → Log Task → Pool Task Container → Fetched Task → Type 0
  Fetches p l q o = Conserved q (log_event L p (fetched o) l)

  await_task-Conserved :
      (w : ℕ) (a : Phase Task) (p p' : Pool Task Container) (l : Log Task)
      → get_elem? p.workers w ≡ some a
      → task_of a ≡ []
      → Conserved p l
      → Then (Fetches p' l) (await_task S w p)
  unfolding notify_all_clients
  await_task-Conserved w a p p' l h e v =
      await_task-Then (Fetches p' l) S w p
        (λ _ _. Keeps-Conserved (set_worker-Keeps w a leaving p h e refl) v)
        (λ _ _.
          let k = set_worker-Keeps w a waiting p h e refl in
          Keeps-Conserved
            (record { same_scheduler = k.same_scheduler; same_running = k.same_running }) v)
        (λ k t c top pop. take-Conserved w a p l c t h e k top pop v)

  execute_task-Conserved :
      (w : ℕ) (p : Pool Task Container) (l : Log Task)
      → get_elem? p.workers w ≡ some fetching
      → Conserved p l
      → Then (Fetches p l) (execute_task S w p)
  execute_task-Conserved w p l h v =
      execute_task-Then (Fetches p l) S w p
        (λ _. Keeps-Conserved (set_worker-Keeps w fetching leaving p h refl refl) v)
        (await_task-Conserved w fetching p p l h refl v)

  resume_task-Conserved :
      (w : ℕ) (p : Pool Task Container) (l : Log Task)
      → get_elem? p.workers w ≡ some woken
      → Conserved p l
      → Then (Fetches p l) (resume_task S w p)
  unfolding resume_task
  resume_task-Conserved w p l h v =
      await_task-Conserved w woken (record p { active_worker_count = inc p.active_worker_count }) p
        l h refl (record { accounted = v.accounted; executed = v.executed })

  task_of-after_task :
      (callable : Task → Bool) (thrown : Bool) (t : Task)
      → task_of (after_task callable thrown t) ≡ []
  unfolding after_task
  task_of-after_task callable thrown t = ground arith

  end_task-Conserved :
      (callable : Task → Bool) (thrown : Bool) (w : ℕ) (t : Task) (p : Pool Task Container)
      (l : Log Task)
      → get_elem? p.workers w ≡ some (running t)
      → Conserved p l
      → Conserved (set_worker w (after_task callable thrown t) p) (log_event L p (ended t) l)
  end_task-Conserved callable thrown w t p l h v = record {
    accounted = v.accounted;
    executed = Perm.trans v.executed (
        Perm.trans
          (Perm.append_right l.finished (
            subst
              (λ x. Perm (x ++ running_tasks p.workers) (t ∷ running_tasks (set p.workers w next)))
              (task_of-after_task callable thrown t)
              (running_tasks-set p.workers w (running t) next h)))
          (Perm.symm (perm_middle (running_tasks (set p.workers w next)) l.finished)));
  }
    where
      next : Phase Task
      next = after_task callable thrown t

  -- Every step keeps the account.
  pub Step-Conserved :
      {callable : Task → Bool} {p q : Pool Task Container} {e : Event Task} (l : Log Task)
      → Step S callable p e q
      → Conserved p l
      → Conserved q (log_event L p e l)
  unfolding wait timed_wait run_end
  Step-Conserved {p} l (schedules chosen t _ e) v = schedule-Conserved chosen t p l e v
  Step-Conserved {p} l (refuses chosen t e) v = Keeps-Conserved (refuse-Keeps chosen t p e) v
  Step-Conserved {p} l clears v = clear-Conserved p l v
  Step-Conserved {p} l (resizes threads n h) v = Keeps-Conserved (resize-Keeps threads n p) v
  Step-Conserved {p} l (waits k) v = Keeps-Conserved (begin_wait-Keeps S (at_most false k) p) v
  Step-Conserved {p} l (waits_timed k) v = Keeps-Conserved (begin_wait-Keeps S (at_most true k) p) v
  Step-Conserved {p} l (terminates b) v = Keeps-Conserved (terminate-Keeps S b p) v
  Step-Conserved {p} l (fetches w h e) v =
      Then-elim (Fetches p l) S w _ _ _ (execute_task-Conserved w p l h v) e
  Step-Conserved {p} l (resumes w h e) v =
      Then-elim (Fetches p l) S w _ _ _ (resume_task-Conserved w p l h v) e
  Step-Conserved {p} l (wakes w h) v =
      Keeps-Conserved (set_worker-Keeps w waiting woken p h refl refl) v
  Step-Conserved {callable} {p} l (ends_task w t thrown h) v =
      end_task-Conserved callable thrown w t p l h v
  Step-Conserved {p} l (destructs w h) v =
      Keeps-Conserved (worker_destructed-Keeps w _)
        (Keeps-Conserved (set_worker-Keeps w leaving exited p h refl refl) v)
  Step-Conserved {p} l (dies threads w h) v =
      Keeps-Conserved (worker_died-Keeps threads w _)
        (Keeps-Conserved (set_worker-Keeps w dying exited p h refl refl) v)
  Step-Conserved {p} l (client_resumes i goal h) v =
      Keeps-Conserved (resume_wait-Keeps S i goal p) v
  Step-Conserved l (client_wakes i goal h) v = record {
    accounted = v.accounted;
    executed = v.executed;
  }
  Step-Conserved l (client_times_out i k h) v = record {
    accounted = v.accounted;
    executed = v.executed;
  }

  -- In every state that a pool with a lawful scheduler reaches, the accepted tasks are, each once, the
  -- pending ones, those that workers took and those that `clear` removed; and the tasks that were
  -- taken are, each once, those being executed and the finished ones. So no task is lost, and none
  -- is executed twice.
  pub Reach-Conserved :
      {callable : Task → Bool} {p : Pool Task Container} {l : Log Task}
      → Reach L callable p l
      → Conserved p l
  Reach-Conserved start = pool_core-Conserved
  Reach-Conserved (later {l} r st) = Step-Conserved l st (Reach-Conserved r)
