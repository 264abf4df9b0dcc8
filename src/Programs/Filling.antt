-- ===== src/Programs/Filling.antt =====
-- What holds while a program runs that schedules its tasks before its pool has a thread.
use boost_threadpool.Common.{
  ℕ, zero, suc, ◌≡◌, ◌⊎◌, inl, inr, refl, ap, sym, subst, ◌∙◌, Bool, true, some, List, [], ◌∷◌,
  arith, get_elem?, if_cases,
}
use boost_threadpool.Scheduling.Interface.{Scheduler, Lawful}
use boost_threadpool.Scheduling.Runs.{Takes, none_yet, one_more}
use boost_threadpool.Core.State.{Pool, pool_core}
use boost_threadpool.Core.Notify.{wake_at, notify_one_worker, notify_all_workers}
use boost_threadpool.Core.Tasks.{schedule}
use boost_threadpool.Core.Resize.{resize, retarget}
use boost_threadpool.Core.Resize.Cases.{grow_inv, resize_cases}
use boost_threadpool.Core.Execute.{left, slept, took}
use boost_threadpool.Core.Shutdown.{perform, Call}
use boost_threadpool.System.Steps.{
  Event, quiet, accepted, emptied, fetched, ended, Step, Log, log_event,
}
use boost_threadpool.System.Effects.{Effect, Step-Effect}
use boost_threadpool.System.Follow.{Internal, Plain, Internal-Plain}
use boost_threadpool.Programs.Client.{
  Instruction, schedule_task, resize_to, call, Place, Issue, schedules_it, in_vain, resizes_it,
  calls_it, Issue-Step, Run, enter, issue, come_back, goes_on,
}
use boost_threadpool.Programs.Invariant.{NoSchedules}
use boost_threadpool.Programs.Completion.{NoClears}

module _ {Task Container : Type 0} {S : Scheduler Task Container} (L : Lawful S)
    (full : Container) where
  -- The program neither schedules nor removes a task.
  abbrev pub Final : List (Instruction Task) → Type 0
  Final rest = NoSchedules rest × NoClears rest

  -- Before its first thread, the program fills the container `c` up to `full`.
  abbrev pub Fills : Container → List (Instruction Task) → Type 0
  Fills c [] = c ≡ full
  Fills c (schedule_task t ∷ rest) = Fills (S.push t c).0 rest
  Fills c (resize_to zero ∷ rest) = Fills c rest
  Fills c (resize_to (suc n) ∷ rest) = (c ≡ full) × Final rest
  Fills c (call k ∷ rest) = (c ≡ full) × Final (call k ∷ rest)

  pub record Bare (p : Pool Task Container) (started : List Task) : Type 0 where
    pub no_workers : p.workers ≡ []
    pub no_clients : p.clients ≡ []
    pub none_counted : p.worker_count ≡ 0
    pub none_started : started ≡ []

  abbrev pub Filled : Pool Task Container → Log Task → List (Instruction Task) → Type 0
  Filled p l rest =
      (Bare p l.started × Fills p.scheduler rest)
      ⊎ (Final rest × Takes S full l.started p.scheduler)

  none_at : {A : Type 0} (xs : List A) (i : ℕ) (a : A) → xs ≡ [] → get_elem? xs i ≡ some a → ⊥
  none_at [] i a e h = cc
  none_at (x ∷ xs) i a e h = cc

  -- In a pool without threads nothing happens by itself.
  Bare-idle :
      {callable : Task → Bool} {p q : Pool Task Container} {e : Event Task} {started : List Task}
      → (st : Step S callable p e q) → Internal st
      → Bare p started
      → ⊥
  Bare-idle (Step.schedules chosen t pick h) n b = n
  Bare-idle (Step.refuses chosen t h) n b = n
  Bare-idle Step.clears n b = n
  Bare-idle (Step.resizes threads k h) n b = n
  Bare-idle (Step.waits k) n b = n
  Bare-idle (Step.waits_timed k) n b = n
  Bare-idle (Step.terminates x) n b = n
  Bare-idle {p} (Step.fetches w h e) n b = none_at p.workers w _ b.no_workers h
  Bare-idle {p} (Step.resumes w h e) n b = none_at p.workers w _ b.no_workers h
  Bare-idle {p} (Step.wakes w h) n b = none_at p.workers w _ b.no_workers h
  Bare-idle {p} (Step.ends_task w t thrown h) n b = none_at p.workers w _ b.no_workers h
  Bare-idle {p} (Step.destructs w h) n b = none_at p.workers w _ b.no_workers h
  Bare-idle {p} (Step.dies threads w h) n b = none_at p.workers w _ b.no_workers h
  Bare-idle {p} (Step.client_resumes i goal h) n b = none_at p.clients i _ b.no_clients h
  Bare-idle {p} (Step.client_wakes i goal h) n b = none_at p.clients i _ b.no_clients h
  Bare-idle (Step.client_times_out i k h) n b = n

  -- A step that neither adds nor removes tasks takes at most one.
  Plain-Takes :
      (p : Pool Task Container) (d : Container) (l : Log Task) (e : Event Task)
      → Plain e
      → Effect S e p.scheduler d
      → Takes S full l.started p.scheduler
      → Takes S full (log_event L p e l).started d
  Plain-Takes p d l quiet n h k = subst (Takes S full l.started) (sym h) k
  Plain-Takes p d l (accepted t) n h k = absurd n
  Plain-Takes p d l emptied n h k = absurd n
  Plain-Takes p d l (fetched left) n h k = subst (Takes S full l.started) (sym h) k
  Plain-Takes p d l (fetched slept) n h k = subst (Takes S full l.started) (sym h) k
  Plain-Takes p d l (fetched (took t)) n (_, top, pop) k = one_more k top pop
  Plain-Takes p d l (ended t) n h k = subst (Takes S full l.started) (sym h) k

  Bare-schedule :
      (chosen : ℕ) (t : Task) (p : Pool Task Container) (l : Log Task)
      → Bare p l.started
      → Bare (schedule S chosen t p).0 l.started
        × ((schedule S chosen t p).0.scheduler ≡ (S.push t p.scheduler).0)
  unfolding schedule notify_one_worker wake_at
  Bare-schedule chosen t p l b =
      if_cases
        (λ (r : Pool Task Container × Bool).
          Bare r.0 l.started × (r.0.scheduler ≡ (S.push t p.scheduler).0))
        (S.push t p.scheduler).1 _ _
        (λ _. (
          record {
            no_workers = ap (wake_at chosen) b.no_workers;
            no_clients = b.no_clients;
            none_counted = b.none_counted;
            none_started = b.none_started;
          },
          refl,
        ))
        (λ _. (
          record {
            no_workers = b.no_workers;
            no_clients = b.no_clients;
            none_counted = b.none_counted;
            none_started = b.none_started;
          },
          refl,
        ))

  Bare-resize :
      (threads : ℕ) (p : Pool Task Container) (l : Log Task)
      → Bare p l.started
      → Bare (resize threads 0 p).0 l.started
  unfolding notify_all_workers
  Bare-resize threads p l b =
      resize_cases (λ r. Bare r.0 l.started) threads 0 p (λ _. b)
        (λ _ _.
          (grow_inv (λ q. (q.target_worker_count ≡ 0) × Bare q l.started)
            (λ q h k. absurd (omega (arith, h, k.0))) threads (retarget 0 p) (refl, retargeted)).1)
        (λ _ h. absurd (omega (arith, h)))
    where
      retargeted : Bare (retarget 0 p) l.started
      retargeted = record {
        no_workers = b.no_workers;
        no_clients = b.no_clients;
        none_counted = b.none_counted;
        none_started = b.none_started;
      }

  -- What is left of a full container, when nobody has taken of it yet.
  pub first_Takes :
      (c d : Container) (l : Log Task) (p : Pool Task Container)
      → Bare p l.started
      → c ≡ full
      → d ≡ c
      → Takes S full l.started d
  first_Takes c d l p b e k =
      subst (λ ts. Takes S full ts d) (sym b.none_started)
        (subst (Takes S full []) (sym (k ∙ e)) none_yet)

  same :
      (p : Pool Task Container) {q : Pool Task Container} {i : Instruction Task} {at : Place}
      → Issue S p i quiet q at
      → q.scheduler ≡ p.scheduler
  same p v = Step-Effect L {callable = λ t. true} (Issue-Step v)

  Issue-Filled :
      {p q : Pool Task Container} {i : Instruction Task} {e : Event Task} {at : Place}
      (l : Log Task) (rest : List (Instruction Task))
      → Issue S p i e q at
      → Filled p l (i ∷ rest)
      → Filled q (log_event L p e l) rest
  unfolding perform
  Issue-Filled {p} l rest (schedules_it chosen t pick h) (inl (b, f)) =
      let (b', e) = Bare-schedule chosen t p l b in inl (b', subst (λ c. Fills c rest) (sym e) f)
  Issue-Filled {p} l rest (in_vain chosen t h) (inl (b, f)) =
      let (b', e) = Bare-schedule chosen t p l b in inl (b', subst (λ c. Fills c rest) (sym e) f)
  Issue-Filled {p} l rest (resizes_it threads zero h) (inl (b, f)) = inl (
    Bare-resize threads p l b,
    subst (λ c. Fills c rest) (sym (same p (resizes_it threads zero h))) f,
  )
  Issue-Filled {p} l rest (resizes_it threads (suc n) h) (inl (b, f)) =
      inr (f.1, first_Takes _ _ l p b f.0 (same p (resizes_it threads (suc n) h)))
  Issue-Filled {p} l rest (calls_it Call.waits) (inl (b, f)) =
      inr (f.1, first_Takes _ _ l p b f.0 (same p (calls_it Call.waits)))
  Issue-Filled {p} l rest (calls_it Call.clears) (inl (b, f)) = absurd f.1.1
  Issue-Filled {p} l rest (calls_it (Call.terminates x)) (inl (b, f)) =
      inr (f.1, first_Takes _ _ l p b f.0 (same p (calls_it (Call.terminates x))))
  Issue-Filled l rest (schedules_it chosen t pick h) (inr (f, k)) = absurd f.0
  Issue-Filled l rest (in_vain chosen t h) (inr (f, k)) = absurd f.0
  Issue-Filled {p} l rest (resizes_it threads n h) (inr (f, k)) =
      inr (f, subst (Takes S full l.started) (sym (same p (resizes_it threads n h))) k)
  Issue-Filled {p} l rest (calls_it Call.waits) (inr (f, k)) =
      inr (f, subst (Takes S full l.started) (sym (same p (calls_it Call.waits))) k)
  Issue-Filled {p} l rest (calls_it Call.clears) (inr (f, k)) = absurd f.1
  Issue-Filled {p} l rest (calls_it (Call.terminates x)) (inr (f, k)) =
      inr (f, subst (Takes S full l.started) (sym (same p (calls_it (Call.terminates x)))) k)

  goes_on-Filled :
      {callable : Task → Bool} {p q : Pool Task Container} {e : Event Task} (l : Log Task)
      (rest : List (Instruction Task))
      → (st : Step S callable p e q) → Internal st
      → Filled p l rest
      → Filled q (log_event L p e l) rest
  goes_on-Filled l rest st n (inl (b, f)) = absurd (Bare-idle st n b)
  goes_on-Filled {p} {q} {e} l rest st n (inr (f, k)) =
      inr (f, Plain-Takes p q.scheduler l e (Internal-Plain st n) (Step-Effect L st) k)

  pub Run-Filled :
      {callable : Task → Bool} {program : List (Instruction Task)} {p : Pool Task Container}
      {l : Log Task} {rest : List (Instruction Task)} {at : Place}
      → Fills (S.clear S.created) program
      → Run L callable program p l rest at
      → Filled p l rest
  unfolding pool_core
  Run-Filled f enter =
      inl (
        record { no_workers = refl; no_clients = refl; none_counted = refl; none_started = refl },
        f,
      )
  Run-Filled f (issue {l} {rest} r i) = Issue-Filled l rest i (Run-Filled f r)
  Run-Filled f (come_back r h) = Run-Filled f r
  Run-Filled f (goes_on {p} {q} {l} {rest} {e} r st n) = goes_on-Filled l rest st n (Run-Filled f r)
