-- ===== src/Programs/Completion.antt =====
-- What a block has done when its pool is gone: the programs that wait for their tasks, among them
-- those whose pool waits for all tasks in its shutdown.
use mathlib.Core.List.Perm
use boost_threadpool.Common.{
  ℕ, ◌≡◌, inl, inr, refl, ap, subst, ◌∙◌, Bool, none, List, [], ◌∷◌, ◌++◌, Perm, append-nil,
}
use boost_threadpool.Scheduling.Interface.{Scheduler, Lawful}
use boost_threadpool.Core.State.{Pool}
use boost_threadpool.Core.Shutdown.{wait_for_all_tasks, shutdown, Call}
use boost_threadpool.System.Steps.{Event, Log, log_event}
use boost_threadpool.System.Completion.{all_finished}
use boost_threadpool.System.Follow.{Internal-Plain}
use boost_threadpool.Programs.Client.{
  Instruction, schedule_task, resize_to, call, scope, Place, Issue, schedules_it, in_vain,
  resizes_it, calls_it, Run, enter, issue, come_back, goes_on, Run-Reach,
}
use boost_threadpool.Programs.Done.{Done}
use boost_threadpool.Programs.Invariant.{
  WillWait, tasks_of, Accepting, Plain-log, finished-Stage, Run-Holds,
}

module _ {Task : Type 0} where
  abbrev pub NoClears : List (Instruction Task) → Type 0
  NoClears [] = Unit
  NoClears (schedule_task t ∷ rest) = NoClears rest
  NoClears (resize_to n ∷ rest) = NoClears rest
  NoClears (call Call.waits ∷ rest) = NoClears rest
  NoClears (call Call.clears ∷ rest) = ⊥
  NoClears (call (Call.terminates b) ∷ rest) = NoClears rest

  pub NoClears-append :
      (xs ys : List (Instruction Task)) → NoClears xs → NoClears ys → NoClears (xs ++ ys)
  NoClears-append [] ys h k = k
  NoClears-append (schedule_task t ∷ xs) ys h k = NoClears-append xs ys h k
  NoClears-append (resize_to n ∷ xs) ys h k = NoClears-append xs ys h k
  NoClears-append (call Call.waits ∷ xs) ys h k = NoClears-append xs ys h k
  NoClears-append (call Call.clears ∷ xs) ys h k = absurd h
  NoClears-append (call (Call.terminates b) ∷ xs) ys h k = NoClears-append xs ys h k

  WillWait-append : (xs ys : List (Instruction Task)) → WillWait ys → WillWait (xs ++ ys)
  WillWait-append [] ys h = h
  WillWait-append (schedule_task t ∷ xs) ys h = WillWait-append xs ys h
  WillWait-append (resize_to n ∷ xs) ys h = WillWait-append xs ys h
  WillWait-append (call Call.waits ∷ xs) ys h = inr (WillWait-append xs ys h)
  WillWait-append (call Call.clears ∷ xs) ys h = WillWait-append xs ys h
  WillWait-append (call (Call.terminates b) ∷ xs) ys h = WillWait-append xs ys h

  tasks_of-append :
      (xs ys : List (Instruction Task)) → tasks_of (xs ++ ys) ≡ tasks_of xs ++ tasks_of ys
  tasks_of-append [] ys = refl
  tasks_of-append (schedule_task t ∷ xs) ys = ap (◌∷◌ t) (tasks_of-append xs ys)
  tasks_of-append (resize_to n ∷ xs) ys = tasks_of-append xs ys
  tasks_of-append (call c ∷ xs) ys = tasks_of-append xs ys

  pub scope-NoClears :
      (n : ℕ) (body : List (Instruction Task))
      → NoClears body
      → NoClears (scope wait_for_all_tasks n body)
  unfolding scope shutdown
  scope-NoClears n body h = NoClears-append body _ h tt

  pub scope-WillWait :
      (n : ℕ) (body : List (Instruction Task)) → WillWait (scope wait_for_all_tasks n body)
  unfolding scope shutdown
  scope-WillWait n body = WillWait-append body _ (inl tt)

  scope_tasks :
      (n : ℕ) (body : List (Instruction Task))
      → tasks_of (scope wait_for_all_tasks n body) ≡ tasks_of body
  unfolding scope shutdown
  scope_tasks n body = tasks_of-append body _ ∙ append-nil (tasks_of body)

module _ {Task Container : Type 0} {S : Scheduler Task Container} (L : Lawful S) where
  Issue-drops :
      {p q : Pool Task Container} {i : Instruction Task} {e : Event Task} {at : Place}
      (l : Log Task) (rest : List (Instruction Task))
      → Issue S p i e q at
      → NoClears (i ∷ rest)
      → ((log_event L p e l).dropped ≡ l.dropped) × NoClears rest
  Issue-drops l rest (schedules_it chosen t pick h) k = (refl, k)
  Issue-drops l rest (in_vain chosen t h) k = (refl, k)
  Issue-drops l rest (resizes_it threads n h) k = (refl, k)
  Issue-drops l rest (calls_it Call.waits) k = (refl, k)
  Issue-drops l rest (calls_it Call.clears) k = absurd k
  Issue-drops l rest (calls_it (Call.terminates b)) k = (refl, k)

  pub Run_drops_none :
      {callable : Task → Bool} {program : List (Instruction Task)} {p : Pool Task Container}
      {l : Log Task} {rest : List (Instruction Task)} {at : Place}
      → NoClears program
      → Run L callable program p l rest at
      → (l.dropped ≡ []) × NoClears rest
  Run_drops_none n enter = (refl, n)
  Run_drops_none n (issue {l} {rest} r i) =
      let (d, k) = Run_drops_none n r in let (e, k') = Issue-drops l rest i k in (e ∙ d, k')
  Run_drops_none n (come_back r h) = Run_drops_none n r
  Run_drops_none n (goes_on {p} {l} {e} r st m) =
      let (d, k) = Run_drops_none n r in ((Plain-log L p l e (Internal-Plain st m)).1 ∙ d, k)

module _ {Task Container : Type 0} {S : Scheduler Task Container} (L : Lawful S)
    {callable : Task → Bool} where
  -- A client that runs a program to its end, alone with the pool's workers, over a scheduler that
  -- refuses no task: if the program waits for all tasks after it has scheduled the last one, then at its
  -- end nothing is pending or being executed, and the tasks it has scheduled are, each once, the finished
  -- ones and those that its calls of `clear` removed.
  pub program_completes :
      {program : List (Instruction Task)} {p : Pool Task Container} {l : Log Task}
      → Accepting S
      → WillWait program
      → Run L callable program p l [] none
      → Done L p × Perm (tasks_of program) (l.finished ++ l.dropped)
  program_completes {program} {p} {l} a w r =
      let (g, k) = Run-Holds L a w r in
      let d = finished-Stage L p g in
      (
        d,
        Perm.trans (Perm.symm (subst (λ ts. Perm ts (tasks_of program)) (append-nil l.scheduled) k))
            (all_finished L (Run-Reach L r) d.0 d.1),
      )

  -- The block of a pool whose shutdown policy is wait_for_all_tasks, over a scheduler that refuses no
  -- task, does not end before its tasks: whatever it calls, if not `clear`, and however many threads
  -- it begins with, at its end the tasks that it has scheduled are finished, each once, and no other.
  pub scope_finishes :
      {p : Pool Task Container} {l : Log Task} (initial_threads : ℕ)
      (body : List (Instruction Task))
      → Accepting S
      → NoClears body
      → Run L callable (scope wait_for_all_tasks initial_threads body) p l [] none
      → Done L p × Perm (tasks_of body) l.finished
  scope_finishes {l} n body a clean r =
      let (d, k) = program_completes a (scope-WillWait n body) r in
      let (none_dropped, _) = Run_drops_none L (scope-NoClears n body clean) r in
      let finished : l.finished ++ l.dropped ≡ l.finished =
        ap (λ ts. l.finished ++ ts) none_dropped ∙ append-nil l.finished in
      (d, subst (λ ts. Perm ts l.finished) (scope_tasks n body) (subst (Perm _) finished k))
