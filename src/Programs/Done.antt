-- ===== src/Programs/Done.antt =====
-- A pool that has nothing to do.
use boost_threadpool.Common.{
  ℕ, zero, suc, ◌≡◌, ap, subst, Bool, some, List, [], ◌∷◌, ◌++◌, arith, get_elem?, length,
  length-append, perm-length, nil_of_length,
}
use boost_threadpool.Scheduling.Interface.{Scheduler, Lawful}
use boost_threadpool.Core.State.{
  Phase, fetching, waiting, woken, running, leaving, dying, exited, joined, Pool,
}
use boost_threadpool.Core.Execute.{Fetched, left, slept, took}
use boost_threadpool.Core.Tasks.{clear}
use boost_threadpool.System.Running.{running_tasks}
use boost_threadpool.System.Steps.{
  Event, quiet, fetched, Step, schedules, refuses, clears, resizes, waits, waits_timed, terminates,
  fetches, resumes, wakes, ends_task, destructs, dies, client_resumes, client_wakes,
  client_times_out, Log, Reach, later,
}
use boost_threadpool.System.Conservation.{Conserved, Reach-Conserved}
use boost_threadpool.System.Effects.{Step-Effect}
use boost_threadpool.System.Follow.{Internal}

module _ {Task : Type 0} where
  running_somewhere :
      (ws : List (Phase Task)) (w : ℕ) (t : Task)
      → get_elem? ws w ≡ some (running t)
      → running_tasks ws ≡ []
      → ⊥
  running_somewhere [] w t h e = cc
  running_somewhere (a ∷ ws) zero t h e =
      let f : a ≡ running t = cc in
      let k : running_tasks (running t ∷ ws) ≡ [] = subst (λ b. running_tasks (b ∷ ws) ≡ []) f e in
      cc
  running_somewhere (running u ∷ ws) (suc w) t h e = cc
  running_somewhere (fetching ∷ ws) (suc w) t h e = running_somewhere ws w t h e
  running_somewhere (waiting ∷ ws) (suc w) t h e = running_somewhere ws w t h e
  running_somewhere (woken ∷ ws) (suc w) t h e = running_somewhere ws w t h e
  running_somewhere (leaving ∷ ws) (suc w) t h e = running_somewhere ws w t h e
  running_somewhere (dying ∷ ws) (suc w) t h e = running_somewhere ws w t h e
  running_somewhere (exited ∷ ws) (suc w) t h e = running_somewhere ws w t h e
  running_somewhere (joined ∷ ws) (suc w) t h e = running_somewhere ws w t h e

module _ {Task Container : Type 0} {S : Scheduler Task Container} (L : Lawful S) where
  -- No task is pending or being executed.
  abbrev pub Done : Pool Task Container → Type 0
  Done p = (L.tasks p.scheduler ≡ []) × (running_tasks p.workers ≡ [])

  -- Where the account of the tasks is the same, there is as much to do.
  same_log-Done :
      (p q : Pool Task Container) (l : Log Task)
      → Conserved L p l
      → Conserved L q l
      → Done p
      → Done q
  same_log-Done p q l u v (a, b) =
      let n : length (running_tasks q.workers) ≡ 0 = omega (
        arith,
        perm-length u.executed,
        perm-length v.executed,
        length-append (running_tasks p.workers) l.finished,
        length-append (running_tasks q.workers) l.finished,
        ap length b,
      ) in
      let m : length (L.tasks q.scheduler) ≡ 0 = omega (
        arith,
        perm-length u.accounted,
        perm-length v.accounted,
        length-append (L.tasks p.scheduler) (l.started ++ l.dropped),
        length-append (L.tasks q.scheduler) (l.started ++ l.dropped),
        ap length a,
      ) in
      (nil_of_length (L.tasks q.scheduler) m, nil_of_length (running_tasks q.workers) n)

  pub quiet-Done :
      {callable : Task → Bool} {p q : Pool Task Container} {l : Log Task}
      → Reach L callable p l
      → Step S callable p quiet q
      → Done p
      → Done q
  quiet-Done {p} {q} {l} r st d =
      same_log-Done p q l (Reach-Conserved L r) (Reach-Conserved L (later r st)) d

  fetched-Done :
      {callable : Task → Bool} {p q : Pool Task Container} {l : Log Task} (o : Fetched Task)
      → Reach L callable p l
      → Step S callable p (fetched o) q
      → Done p
      → Done q
  fetched-Done {p} {q} {l} left r st d =
      same_log-Done p q l (Reach-Conserved L r) (Reach-Conserved L (later r st)) d
  fetched-Done {p} {q} {l} slept r st d =
      same_log-Done p q l (Reach-Conserved L r) (Reach-Conserved L (later r st)) d
  fetched-Done {p} (took t) r st d =
      let (e, _, _) = Step-Effect L st in
      absurd (ground (arith, e, L.empty_size p.scheduler, L.size_tasks p.scheduler, ap length d.0))

  -- Workers find nothing to do.
  pub Internal-Done :
      {callable : Task → Bool} {p q : Pool Task Container} {e : Event Task} {l : Log Task}
      → Reach L callable p l
      → (st : Step S callable p e q) → Internal st
      → Done p
      → Done q
  Internal-Done r (fetches w {o} h e) n d = fetched-Done o r (fetches w h e) d
  Internal-Done r (resumes w {o} h e) n d = fetched-Done o r (resumes w h e) d
  Internal-Done r (wakes w h) n d = quiet-Done r (wakes w h) d
  Internal-Done {p} r (ends_task w t thrown h) n d = absurd (running_somewhere p.workers w t h d.1)
  Internal-Done r (destructs w h) n d = quiet-Done r (destructs w h) d
  Internal-Done r (dies threads w h) n d = quiet-Done r (dies threads w h) d
  Internal-Done r (client_resumes i goal h) n d = quiet-Done r (client_resumes i goal h) d
  Internal-Done r (client_wakes i goal h) n d = quiet-Done r (client_wakes i goal h) d
  Internal-Done r (schedules chosen t pick h) n d = absurd n
  Internal-Done r (refuses chosen t h) n d = absurd n
  Internal-Done r clears n d = absurd n
  Internal-Done r (resizes threads k h) n d = absurd n
  Internal-Done r (waits k) n d = absurd n
  Internal-Done r (waits_timed k) n d = absurd n
  Internal-Done r (terminates b) n d = absurd n
  Internal-Done r (client_times_out i k h) n d = absurd n

  pub clear-Done : (p : Pool Task Container) → Done p → Done (clear S p)
  unfolding clear
  clear-Done p d = (L.cleared p.scheduler, d.1)
