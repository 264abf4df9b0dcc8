-- ===== src/System/Clients.antt =====
-- Whom the notifications of m_worker_idle_or_terminated_event reach.
pub mod Notified
pub mod Missed
use boost_threadpool.Common.{
  ℕ, zero, suc, ◌+◌, ◌≤◌, ◌<◌, ◌≡◌, ◌≢◌, refl, sym, subst, ◌⊎◌, inl, inr, Bool, true, false, some,
  List, [], ◌∷◌, ◌++◌, arith, map, get_elem?, set, total, if_cases, Bool-cases, inc, All, All-map,
  All-append, All-set, le-total, size_mod,
}
use boost_threadpool.Scheduling.Interface.{Scheduler, Lawful}
use boost_threadpool.Scheduling.Laws.{size-push, size_of_empty}
use boost_threadpool.Core.State.{
  Phase, fetching, waiting, woken, running, leaving, dying, exited, joined, Goal, at_most,
  none_active, Client, blocked, notified, returned, timed_out, Pool, pool_core, set_worker,
  set_client,
}
use boost_threadpool.Core.Notify.{notify, notify_all_workers, notify_all_clients}
use boost_threadpool.Core.Tasks.{schedule, clear}
use boost_threadpool.Core.Waiting.{
  finish, is_busy, must_wait, begin_wait, wait, timed_wait, resume_wait, join_terminated,
}
use boost_threadpool.Core.Resize.{
  attach, retarget, resize, count_out, worker_died_unexpectedly, worker_destructed,
  size_policy_worker_died,
}
use boost_threadpool.Core.Resize.Cases.{grow_inv, resize_cases}
use boost_threadpool.Core.Execute.{Fetched, execute_task, resume_task, await_task}
use boost_threadpool.Core.Execute.Cases.{Then, Then-elim, await_task-Then, execute_task-Then}
use boost_threadpool.Core.Shutdown.{terminate_all_workers}
use boost_threadpool.System.Phases.{engaged, live, engaged-le-live, replaced}
use boost_threadpool.System.Counts.{
  Counts, attach-Counts, count_out-Counts, Step-Counts, Reach-Counts,
}
use boost_threadpool.System.Steps.{
  Event, Step, schedules, refuses, clears, resizes, waits, waits_timed, terminates, fetches,
  resumes, wakes, ends_task, destructs, dies, client_resumes, client_wakes, client_times_out, Log,
  Reach, start, later,
}

-- The loops that wait for all tasks, or for all active workers.
abbrev pub Exact : Goal → Type 0
Exact (at_most timed zero) = Unit
Exact (at_most timed (suc k)) = ⊥
Exact none_active = Unit

module _ {Task Container : Type 0} (S : Scheduler Task Container) where
  -- A client that sleeps in such a loop has a reason to.
  abbrev pub Rightly : Pool Task Container → Client → Type 0
  Rightly p (blocked goal) = Exact goal → must_wait S goal p ≡ true
  Rightly p (notified goal) = Unit
  Rightly p returned = Unit
  Rightly p timed_out = Unit

  abbrev pub Informed : Pool Task Container → Type 0
  Informed p = All (Rightly p) p.clients

  pub Rightly-mono :
      (p q : Pool Task Container)
      → (is_busy S 0 p ≡ true → is_busy S 0 q ≡ true)
      → (0 < p.active_worker_count → 0 < q.active_worker_count)
      → (c : Client) → Rightly p c
      → Rightly q c
  unfolding must_wait
  Rightly-mono p q f g (blocked (at_most timed zero)) h = λ e. f (h e)
  Rightly-mono p q f g (blocked (at_most timed (suc k))) h = λ e. absurd e
  Rightly-mono p q f g (blocked none_active) h =
      λ e. let k : 0 < q.active_worker_count = g (ground (arith, h e)) in ground arith
  Rightly-mono p q f g (notified goal) h = tt
  Rightly-mono p q f g returned h = tt
  Rightly-mono p q f g timed_out h = tt

  busy_of_active : (q : Pool Task Container) → 0 < q.active_worker_count → is_busy S 0 q ≡ true
  unfolding is_busy
  busy_of_active q h = ground arith

  pub busy_of_pending :
      (q : Pool Task Container) → S.empty q.scheduler ≡ false → is_busy S 0 q ≡ true
  unfolding is_busy
  busy_of_pending q h = ground arith

  -- An active worker is a reason for everybody.
  pub Informed-active :
      (p q : Pool Task Container)
      → q.clients ≡ p.clients
      → 0 < q.active_worker_count
      → Informed p
      → Informed q
  Informed-active p q e h v =
      subst (λ cs. All (Rightly q) cs) (sym e)
        (All-map (Rightly p) (Rightly q) (Rightly-mono p q (λ _. busy_of_active q h) (λ _. h))
          p.clients v)

  pub Informed-same :
      (p q : Pool Task Container)
      → q.clients ≡ p.clients
      → q.active_worker_count ≡ p.active_worker_count
      → q.scheduler ≡ p.scheduler
      → Informed p
      → Informed q
  unfolding is_busy
  Informed-same p q e a s v =
      subst (λ cs. All (Rightly q) cs) (sym e)
        (All-map (Rightly p) (Rightly q) (Rightly-mono p q (λ b. rw (a, s) b) (λ h. omega arith))
          p.clients v)

  pub Informed_notified :
      (q : Pool Task Container) (cs : List Client) → All (Rightly q) (map notify cs)
  Informed_notified q [] = tt
  Informed_notified q (blocked g ∷ cs) = (tt, Informed_notified q cs)
  Informed_notified q (notified g ∷ cs) = (tt, Informed_notified q cs)
  Informed_notified q (returned ∷ cs) = (tt, Informed_notified q cs)
  Informed_notified q (timed_out ∷ cs) = (tt, Informed_notified q cs)

  must_wait_clients :
      (goal : Goal) (p : Pool Task Container) (cs : List Client)
      → must_wait S goal (record p { clients = cs }) ≡ must_wait S goal p
  unfolding must_wait
  must_wait_clients (at_most timed k) p cs = refl
  must_wait_clients none_active p cs = refl

  pub Informed-clients :
      (p : Pool Task Container) (cs : List Client)
      → All (Rightly p) cs
      → Informed (record p { clients = cs })
  unfolding is_busy
  Informed-clients p cs v =
      All-map (Rightly p) (Rightly (record p { clients = cs })) (Rightly-mono p _ (λ b. b) (λ h. h))
        cs v

  finish-Informed : (goal : Goal) (p : Pool Task Container) → Informed p → Informed (finish goal p)
  unfolding finish
  finish-Informed (at_most timed k) p v = v
  finish-Informed none_active p v = Informed-same p (join_terminated p) refl refl refl v

  pub begin_wait-Informed :
      (goal : Goal) (p : Pool Task Container) → Informed p → Informed (begin_wait S goal p)
  unfolding begin_wait
  begin_wait-Informed goal p v =
      if_cases Informed (must_wait S goal p) _ _
        (λ e.
          Informed-clients p _
            (All-append (Rightly p) p.clients (blocked goal ∷ []) v ((λ _. e), tt)))
        (λ _.
          finish-Informed goal _
            (Informed-clients p _ (All-append (Rightly p) p.clients (returned ∷ []) v (tt, tt))))

  pub resume_wait-Informed :
      (i : ℕ) (goal : Goal) (p : Pool Task Container)
      → Informed p
      → Informed (resume_wait S i goal p)
  unfolding resume_wait
  resume_wait-Informed i goal p v =
      if_cases Informed (must_wait S goal p) _ _
        (λ e. Informed-clients p _ (All-set (Rightly p) p.clients i (blocked goal) v (λ _. e)))
        (λ _.
          finish-Informed goal _
            (Informed-clients p _ (All-set (Rightly p) p.clients i returned v tt)))

  pub terminate-Informed :
      (stays : Bool) (p : Pool Task Container)
      → Informed p
      → Informed (terminate_all_workers S stays p)
  unfolding terminate_all_workers notify_all_workers
  terminate-Informed stays p v =
      if_cases Informed stays _ _
        (λ _. begin_wait-Informed none_active stopped (Informed-same p stopped refl refl refl v))
        (λ _. Informed-same p stopped refl refl refl v)
    where
      stopped : Pool Task Container
      stopped = notify_all_workers (record p { terminating = true; target_worker_count = 0 })

  attach-Informed :
      (p : Pool Task Container)
      → p.worker_count < p.target_worker_count
      → Counts p × Informed p
      → Counts (attach p) × Informed (attach p)
  unfolding attach
  attach-Informed p h (c, v) = (
    attach-Counts p h c,
    Informed-active p (attach p) refl (ground (arith, engaged-le-live p.workers)) v,
  )

  pub resize-Informed :
      (threads n : ℕ) (p : Pool Task Container)
      → n < size_mod
      → Counts p
      → Informed p
      → Informed (resize threads n p).0
  unfolding notify_all_workers
  resize-Informed threads n p h c v =
      resize_cases (λ r. Informed r.0) threads n p (λ _. v)
        (λ e _.
          (grow_inv (λ q. Counts q × Informed q) attach-Informed threads (retarget n p)
            (ground arith, Informed-same p (retarget n p) refl refl refl v)).1)
        (λ _ _. Informed-same p (notify_all_workers (retarget n p)) refl refl refl v)

  count_out-Informed : (p : Pool Task Container) → Informed (count_out p)
  unfolding count_out
  count_out-Informed p = Informed_notified (count_out p) p.clients

  pub destruct-Informed : (w : ℕ) (p : Pool Task Container) → Informed (worker_destructed w p)
  unfolding worker_destructed
  destruct-Informed w p =
      if_cases Informed (count_out p).terminating _ _
        (λ _.
          Informed-same (count_out p)
            (record (count_out p) {
              terminated_workers = (count_out p).terminated_workers ++ w ∷ [];
            })
            refl refl refl (count_out-Informed p))
        (λ _. count_out-Informed p)

  pub die-Informed :
      (threads w : ℕ) (p : Pool Task Container)
      → Counts (count_out p)
      → Informed (worker_died_unexpectedly threads w p)
  unfolding worker_died_unexpectedly size_policy_worker_died
  die-Informed threads w p c =
      if_cases Informed (count_out p).terminating _ _
        (λ _.
          Informed-same (count_out p)
            (record (count_out p) {
              terminated_workers = (count_out p).terminated_workers ++ w ∷ [];
            })
            refl refl refl (count_out-Informed p))
        (λ _. resize-Informed threads _ (count_out p) (omega arith) c (count_out-Informed p))
