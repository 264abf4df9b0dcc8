-- ===== src/Programs/Backlog.antt =====
-- Programs that schedule their tasks before their pool has a thread.
use mathlib.Core.List.{reverse}
use boost_threadpool.Common.{
  zero, suc, ◌+◌, ◌≡◌, inl, inr, refl, ap, sym, subst, ◌∙◌, Bool, none, List, [], ◌∷◌, ◌++◌, arith,
  map, length, perm-length, length-append, append-nil, append_assoc,
}
use boost_threadpool.Scheduling.Interface.{Scheduler, Lawful}
use boost_threadpool.Scheduling.Runs.{push_all, take_all, Takes, take_all-Takes}
use boost_threadpool.Core.State.{Pool}
use boost_threadpool.Core.Shutdown.{wait_for_all_tasks, shutdown}
use boost_threadpool.System.Steps.{Log}
use boost_threadpool.System.Running.{running_tasks}
use boost_threadpool.System.Conservation.{Reach-Conserved}
use boost_threadpool.Programs.Client.{
  Instruction, schedule_task, resize_to, call, scope, Run, Run-Reach,
}
use boost_threadpool.Programs.Invariant.{NoSchedules, Accepting, tasks_of}
use boost_threadpool.Programs.Completion.{NoClears, NoClears-append, scope_finishes}
use boost_threadpool.Programs.Filling.{Final, Fills, Filled, first_Takes, Run-Filled}

module _ {Task : Type 0} where
  NoSchedules-append :
      (xs ys : List (Instruction Task)) → NoSchedules xs → NoSchedules ys → NoSchedules (xs ++ ys)
  NoSchedules-append [] ys h k = k
  NoSchedules-append (schedule_task t ∷ xs) ys h k = absurd h
  NoSchedules-append (resize_to n ∷ xs) ys h k = NoSchedules-append xs ys h k
  NoSchedules-append (call c ∷ xs) ys h k = NoSchedules-append xs ys h k

  NoClears-schedules : (ts : List Task) → NoClears (map schedule_task ts)
  NoClears-schedules [] = tt
  NoClears-schedules (t ∷ ts) = NoClears-schedules ts

module _ {Task Container : Type 0} {S : Scheduler Task Container} (L : Lawful S) where
  Final-Fills :
      (full : Container) (rest : List (Instruction Task))
      → Final L full rest
      → Fills L full full rest
  Final-Fills full [] h = refl
  Final-Fills full (schedule_task t ∷ rest) h = absurd h.0
  Final-Fills full (resize_to zero ∷ rest) h = Final-Fills full rest h
  Final-Fills full (resize_to (suc n) ∷ rest) h = (refl, h)
  Final-Fills full (call k ∷ rest) h = (refl, h)

  schedule_all-Fills :
      (ts : List Task) (c : Container) (rest : List (Instruction Task))
      → Final L (push_all S ts c) rest
      → Fills L (push_all S ts c) c (map schedule_task ts ++ rest)
  unfolding push_all
  schedule_all-Fills [] c rest h = Final-Fills c rest h
  schedule_all-Fills (t ∷ ts) c rest h = schedule_all-Fills ts (S.push t c).0 rest h

  scope-Fills :
      (ts : List Task) (rest : List (Instruction Task))
      → NoSchedules rest
      → NoClears rest
      → let full = push_all S ts (S.clear S.created) in
        Fills L full (S.clear S.created) (scope wait_for_all_tasks 0 (map schedule_task ts ++ rest))
  unfolding scope shutdown
  scope-Fills ts rest h k =
      subst (Fills L (push_all S ts (S.clear S.created)) (S.clear S.created))
        (sym (append_assoc (map schedule_task ts) rest _))
        (schedule_all-Fills ts (S.clear S.created) (rest ++ map call (shutdown wait_for_all_tasks))
          (NoSchedules-append rest _ h tt, NoClears-append rest _ k tt))

  Filled-Takes :
      (full : Container) (p : Pool Task Container) (l : Log Task)
      → Filled L full p l []
      → Takes S full l.started p.scheduler
  Filled-Takes full p l (inl (b, e)) = first_Takes L full p.scheduler p.scheduler l p b e refl
  Filled-Takes full p l (inr (f, k)) = k

module _ {Task : Type 0} where
  length-tasks_of :
      (ts : List Task) (rest : List (Instruction Task))
      → NoSchedules rest
      → length (tasks_of (map schedule_task ts ++ rest)) ≡ length ts
  length-tasks_of [] [] h = refl
  length-tasks_of [] (schedule_task t ∷ rest) h = absurd h
  length-tasks_of [] (resize_to n ∷ rest) h = length-tasks_of [] rest h
  length-tasks_of [] (call c ∷ rest) h = length-tasks_of [] rest h
  length-tasks_of (t ∷ ts) rest h = ap suc (length-tasks_of ts rest h)

module _ {Task Container : Type 0} {S : Scheduler Task Container} (L : Lawful S)
    {callable : Task → Bool} where
  -- A block that creates its pool without threads, schedules all of its tasks over a scheduler that refuses
  -- none, and then calls anything but `schedule` and `clear`: when it ends, with the shutdown policy
  -- wait_for_all_tasks, its pool has taken its tasks in just the order in which the scheduling policy
  -- hands them out when they are pushed one after the other and then removed one after the other,
  -- however many threads have worked on them.
  pub backlog_order :
      {p : Pool Task Container} {l : Log Task} (ts : List Task) (rest : List (Instruction Task))
      → Accepting S
      → NoSchedules rest
      → NoClears rest
      → Run L callable (scope wait_for_all_tasks 0 (map schedule_task ts ++ rest)) p l [] none
      → reverse l.started ≡ take_all S (length ts) (push_all S ts (S.clear S.created))
  unfolding take_all
  backlog_order {p} {l} ts rest a h k r =
      let full = push_all S ts (S.clear S.created) in
      let taken = Filled-Takes L full p l (Run-Filled L full (scope-Fills L ts rest h k) r) in
      let (d, finished) =
        scope_finishes L 0 (map schedule_task ts ++ rest) a
          (NoClears-append (map schedule_task ts) rest (NoClears-schedules ts) k) r in
      let executed = (Reach-Conserved L (Run-Reach L r)).executed in
      let n : length l.started + 0 ≡ length ts = omega (
        arith,
        perm-length executed,
        perm-length finished,
        length-tasks_of ts rest h,
        length-append (running_tasks p.workers) l.finished,
        ap length d.1,
      ) in
      sym (append-nil (reverse l.started))
      ∙ sym (take_all-Takes S 0 taken)
      ∙ ap (λ m. take_all S m full) n
