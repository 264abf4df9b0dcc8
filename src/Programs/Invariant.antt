-- ===== src/Programs/Invariant.antt =====
-- What holds while a program runs that waits for its tasks after it has scheduled the last one.
use mathlib.Core.List.{perm_middle}
use mathlib.Core.List.Perm
use boost_threadpool.Common.{
  ℕ, ◌≡◌, ◌⊎◌, inl, inr, refl, sym, subst, Bool, true, false, none, some, List, [], ◌∷◌, ◌++◌, Perm,
  arith, length, get_elem?,
}
use boost_threadpool.Scheduling.Interface.{Scheduler, Lawful}
use boost_threadpool.Core.State.{Goal, at_most, returned, Pool}
use boost_threadpool.Core.Tasks.{schedule}
use boost_threadpool.Core.Execute.{left, slept, took}
use boost_threadpool.Core.Shutdown.{Call, perform}
use boost_threadpool.System.Steps.{
  Event, quiet, Step, Log, log_event, fetched, ended, accepted, emptied, Reach,
}
use boost_threadpool.System.Follow.{Internal, Plain, Internal-Plain}
use boost_threadpool.Programs.Client.{
  Instruction, schedule_task, resize_to, call, Place, Issue, schedules_it, in_vain, resizes_it,
  calls_it, Run, enter, issue, come_back, goes_on, Run-Reach,
}
use boost_threadpool.Programs.Standing.{Stands, returned-Done, Run-Stands}
use boost_threadpool.Programs.Done.{Done, quiet-Done, Internal-Done, clear-Done}

module _ {Task : Type 0} where
  abbrev pub NoSchedules : List (Instruction Task) → Type 0
  NoSchedules [] = Unit
  NoSchedules (schedule_task t ∷ rest) = ⊥
  NoSchedules (resize_to n ∷ rest) = NoSchedules rest
  NoSchedules (call c ∷ rest) = NoSchedules rest

  -- The program waits for all tasks, and schedules none after that.
  abbrev pub WillWait : List (Instruction Task) → Type 0
  WillWait [] = ⊥
  WillWait (schedule_task t ∷ rest) = WillWait rest
  WillWait (resize_to n ∷ rest) = WillWait rest
  WillWait (call Call.waits ∷ rest) = NoSchedules rest ⊎ WillWait rest
  WillWait (call Call.clears ∷ rest) = WillWait rest
  WillWait (call (Call.terminates b) ∷ rest) = WillWait rest

  -- The tasks that a program schedules.
  abbrev pub tasks_of : List (Instruction Task) → List Task
  tasks_of [] = []
  tasks_of (schedule_task t ∷ rest) = t ∷ tasks_of rest
  tasks_of (resize_to n ∷ rest) = tasks_of rest
  tasks_of (call c ∷ rest) = tasks_of rest

-- The scheduler refuses no task.
abbrev pub Accepting : {Task Container : Type 0} → Scheduler Task Container → Type 0
Accepting {Task} {Container} S = (t : Task) (c : Container) → (S.push t c).1 ≡ true

module _ {Task Container : Type 0} {S : Scheduler Task Container} (L : Lawful S) where
  -- The program has its last wait before it, or it is in that wait, or nothing is left to do.
  abbrev Stage : Pool Task Container → List (Instruction Task) → Place → Type 0
  Stage p rest at =
      WillWait rest ⊎ (NoSchedules rest × (Done L p ⊎ ((i : ℕ) × (at ≡ some (i, at_most false 0)))))

  pub schedule-accepts :
      (chosen : ℕ) (t : Task) (p : Pool Task Container)
      → (schedule S chosen t p).1 ≡ (S.push t p.scheduler).1
  unfolding schedule
  schedule-accepts chosen t p = ground arith

  Ready : Pool Task Container → List (Instruction Task) → Type 0
  Ready p rest = WillWait rest ⊎ (NoSchedules rest × Done L p)

  quiet_issue :
      {callable : Task → Bool} {p q : Pool Task Container} {l : Log Task}
      (rest : List (Instruction Task))
      → Reach L callable p l
      → Step S callable p quiet q
      → Ready p rest
      → Ready q rest
  unfolding Ready
  quiet_issue rest r st (inl w) = inl w
  quiet_issue rest r st (inr (n, d)) = inr (n, quiet-Done L r st d)

  Stage-of :
      (p : Pool Task Container) (rest : List (Instruction Task)) (at : Place)
      → Ready p rest
      → Stage p rest at
  unfolding Ready
  Stage-of p rest at (inl w) = inl w
  Stage-of p rest at (inr (n, d)) = inr (n, inl d)

  Ready-of :
      (p : Pool Task Container) (rest : List (Instruction Task)) → Stage p rest none → Ready p rest
  unfolding Ready
  Ready-of p rest (inl w) = inl w
  Ready-of p rest (inr (n, inl d)) = inr (n, d)
  Ready-of p rest (inr (n, inr (i, e))) = absurd (cc)

  -- At the end of the program.
  pub finished-Stage : (p : Pool Task Container) → Stage p [] none → Done L p
  finished-Stage p (inl never) = absurd never
  finished-Stage p (inr (n, inl d)) = d
  finished-Stage p (inr (n, inr (i, e))) = absurd (cc)

  Issue-Stage :
      {callable : Task → Bool} {p q : Pool Task Container} {l : Log Task} {i : Instruction Task}
      {e : Event Task} {at : Place} (rest : List (Instruction Task))
      → Accepting S
      → Reach L callable p l
      → Issue S p i e q at
      → Ready p (i ∷ rest)
      → Stage q rest at
  unfolding Ready perform
  Issue-Stage rest a r (schedules_it chosen t pick h) (inl w) = inl w
  Issue-Stage rest a r (schedules_it chosen t pick h) (inr (n, d)) = absurd n
  Issue-Stage {p} rest a r (in_vain chosen t h) k =
      absurd (ground (arith, schedule-accepts chosen t p, a t p.scheduler))
  Issue-Stage {callable} {q} rest a r (resizes_it threads n h) k =
      Stage-of q rest none (quiet_issue {callable = callable} rest r (Step.resizes threads n h) k)
  Issue-Stage {p} rest a r (calls_it Call.waits) (inl (inl n)) =
      inr (n, inr (length p.clients, refl))
  Issue-Stage rest a r (calls_it Call.waits) (inl (inr w)) = inl w
  Issue-Stage {callable} rest a r (calls_it Call.waits) (inr (n, d)) =
      inr (n, inl (quiet-Done L {callable = callable} r (Step.waits 0) d))
  Issue-Stage rest a r (calls_it Call.clears) (inl w) = inl w
  Issue-Stage {p} rest a r (calls_it Call.clears) (inr (n, d)) = inr (n, inl (clear-Done L p d))
  Issue-Stage {callable} {q} {at} rest a r (calls_it (Call.terminates b)) k =
      Stage-of q rest at (quiet_issue {callable = callable} rest r (Step.terminates b) k)

  issue_tasks :
      {p q : Pool Task Container} {i : Instruction Task} {e : Event Task} {at : Place}
      (l : Log Task) (rest all : List (Instruction Task))
      → Accepting S
      → Issue S p i e q at
      → Perm (l.scheduled ++ tasks_of (i ∷ rest)) (tasks_of all)
      → Perm ((log_event L p e l).scheduled ++ tasks_of rest) (tasks_of all)
  issue_tasks l rest all a (schedules_it chosen t pick h) k =
      Perm.trans (Perm.symm (perm_middle l.scheduled (tasks_of rest))) k
  issue_tasks {p} l rest all a (in_vain chosen t h) k =
      absurd (ground (arith, schedule-accepts chosen t p, a t p.scheduler))
  issue_tasks l rest all a (resizes_it threads n h) k = k
  issue_tasks l rest all a (calls_it Call.waits) k = k
  issue_tasks l rest all a (calls_it Call.clears) k = k
  issue_tasks l rest all a (calls_it (Call.terminates b)) k = k

  -- A wait that has returned has found nothing left to do.
  come_back-Stage :
      (p : Pool Task Container) (rest : List (Instruction Task)) (i : ℕ) (g : Goal)
      → get_elem? p.clients i ≡ some returned
      → Stands L p (some (i, g))
      → Stage p rest (some (i, g))
      → Stage p rest none
  come_back-Stage p rest i g h s (inl w) = inl w
  come_back-Stage p rest i g h s (inr (n, inl d)) = inr (n, inl d)
  come_back-Stage p rest i g h s (inr (n, inr (j, e))) =
      let is : g ≡ at_most false 0 = cc in
      inr (n, inl (returned-Done L p i h (subst (λ x. Stands L p (some (i, x))) is s)))

  goes_on-Stage :
      {callable : Task → Bool} {p q : Pool Task Container} {l : Log Task} {e : Event Task}
      (rest : List (Instruction Task)) (at : Place)
      → Reach L callable p l
      → (st : Step S callable p e q) → Internal st
      → Stage p rest at
      → Stage q rest at
  goes_on-Stage rest at r st n (inl w) = inl w
  goes_on-Stage rest at r st n (inr (k, inl d)) = inr (k, inl (Internal-Done L r st n d))
  goes_on-Stage rest at r st n (inr (k, inr w)) = inr (k, inr w)

  -- The two logs agree on what was accepted and what was removed.
  abbrev pub SameInput : Log Task → Log Task → Type 0
  SameInput l m = (m.scheduled ≡ l.scheduled) × (m.dropped ≡ l.dropped)

  pub Plain-log :
      (p : Pool Task Container) (l : Log Task) (e : Event Task)
      → Plain e
      → SameInput l (log_event L p e l)
  Plain-log p l quiet n = (refl, refl)
  Plain-log p l (accepted t) n = absurd n
  Plain-log p l emptied n = absurd n
  Plain-log p l (fetched left) n = (refl, refl)
  Plain-log p l (fetched slept) n = (refl, refl)
  Plain-log p l (fetched (took t)) n = (refl, refl)
  Plain-log p l (ended t) n = (refl, refl)

  -- The invariant.
  abbrev Holds :
      Pool Task Container → Log Task → (rest program : List (Instruction Task)) → Place → Type 0
  Holds p l rest program at =
      Stage p rest at × Perm (l.scheduled ++ tasks_of rest) (tasks_of program)

  pub Run-Holds :
      {callable : Task → Bool} {program : List (Instruction Task)} {p : Pool Task Container}
      {l : Log Task} {rest : List (Instruction Task)} {at : Place}
      → Accepting S
      → WillWait program
      → Run L callable program p l rest at
      → Holds p l rest program at
  Run-Holds a w enter = (inl w, Perm.rfl)
  Run-Holds {program} a w (issue {p} {l} {rest} r i) =
      let (g, k) = Run-Holds a w r in
      (Issue-Stage rest a (Run-Reach L r) i (Ready-of p _ g), issue_tasks l rest program a i k)
  Run-Holds a w (come_back {p} {rest} {c} {g} r h) =
      let (k, e) = Run-Holds a w r in (come_back-Stage p rest c g h (Run-Stands L r) k, e)
  Run-Holds {program} a w (goes_on {p} {l} {rest} {e} {at} r st n) =
      let (k, perm) = Run-Holds a w r in
      (
        goes_on-Stage rest at (Run-Reach L r) st n k,
        subst (λ ts. Perm (ts ++ tasks_of rest) (tasks_of program))
            (sym (Plain-log p l e (Internal-Plain st n)).0) perm,
      )
