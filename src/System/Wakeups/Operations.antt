-- ===== src/System/Wakeups/Operations.antt =====
-- The operations that take no task: none of them leaves a pending task unattended.
use boost_threadpool.Common.{
  ℕ, zero, suc, ◌+◌, ◌≤◌, ◌≡◌, refl, ◌⊎◌, inl, Bool, true, some, List, [], ◌∷◌, arith, map,
  get_elem?, set, total, total-append, total-set, le-total, if_cases,
}
use boost_threadpool.Scheduling.Interface.{Scheduler}
use boost_threadpool.Core.State.{
  Phase, fetching, waiting, woken, running, leaving, dying, exited, joined, Goal, at_most,
  none_active, Pool, set_worker,
}
use boost_threadpool.Core.Notify.{wake, wake_at, notify_all_workers}
use boost_threadpool.Core.Waiting.{finish, must_wait, begin_wait, resume_wait}
use boost_threadpool.Core.Resize.{
  attach, retarget, resize, count_out, worker_died_unexpectedly, worker_destructed,
  size_policy_worker_died,
}
use boost_threadpool.Core.Resize.Cases.{grow_inv, resize_cases}
use boost_threadpool.Core.Shutdown.{terminate_all_workers}
use boost_threadpool.System.Phases.{total-join_all}
use boost_threadpool.System.Steps.{asleep}

module _ {Task : Type 0} where
  abbrev pub roused : Phase Task → ℕ
  roused woken = 1
  roused fetching = 0
  roused waiting = 0
  roused (running t) = 0
  roused leaving = 0
  roused dying = 0
  roused exited = 0
  roused joined = 0

  pub record Moved (ws vs : List (Phase Task)) (a b : Phase Task) : Type 0 where
    pub sleeps : total asleep vs + asleep a ≡ total asleep ws + asleep b
    pub rouses : total roused vs + roused a ≡ total roused ws + roused b
    pub some_asleep : asleep a ≤ total asleep ws
    pub some_roused : roused a ≤ total roused ws

  pub moved :
      (ws : List (Phase Task)) (w : ℕ) (a b : Phase Task)
      → get_elem? ws w ≡ some a
      → Moved ws (set ws w b) a b
  moved ws w a b h = record {
    sleeps = total-set asleep ws w b a h;
    rouses = total-set roused ws w b a h;
    some_asleep = le-total asleep ws w a h;
    some_roused = le-total roused ws w a h;
  }

  pub wake_at-waiting :
      (i : ℕ) (ws : List (Phase Task))
      → get_elem? ws i ≡ some waiting
      → wake_at i ws ≡ set ws i woken
  unfolding wake_at
  wake_at-waiting i [] h = refl
  wake_at-waiting zero (p ∷ ps) h = let e : p ≡ waiting = cc in rw e
  wake_at-waiting (suc i) (p ∷ ps) h = rw (wake_at-waiting i ps h)

  pub asleep-wake_at :
      (i : ℕ) (ws : List (Phase Task)) → total asleep (wake_at i ws) ≤ total asleep ws
  unfolding wake_at
  asleep-wake_at i [] = omega arith
  asleep-wake_at zero (p ∷ ps) = ground arith
  asleep-wake_at (suc i) (p ∷ ps) = omega (arith, asleep-wake_at i ps)

  asleep-wake : (ws : List (Phase Task)) → total asleep (map wake ws) ≡ 0
  asleep-wake [] = refl
  asleep-wake (p ∷ ps) = ground (arith, asleep-wake ps)

module _ {Task Container : Type 0} (S : Scheduler Task Container) where
  -- While a worker sleeps, each pending task has a worker that was notified and will look for it.
  abbrev pub Attended : Pool Task Container → Type 0
  Attended p = (total asleep p.workers ≡ 0) ⊎ (S.size p.scheduler ≤ total roused p.workers)

  attach-Attended : (p : Pool Task Container) → Attended p → Attended (attach p)
  unfolding attach
  attach-Attended p v = ground (
    arith,
    total-append asleep p.workers (fetching ∷ []),
    total-append roused p.workers (fetching ∷ []),
  )

  pub resize-Attended :
      (threads n : ℕ) (p : Pool Task Container) → Attended p → Attended (resize threads n p).0
  unfolding notify_all_workers
  resize-Attended threads n p v =
      resize_cases (λ r. Attended r.0) threads n p (λ _. v)
        (λ _ _. grow_inv Attended (λ q _ k. attach-Attended q k) threads (retarget n p) v)
        (λ _ _. inl (asleep-wake p.workers))

  finish-Attended : (goal : Goal) (p : Pool Task Container) → Attended p → Attended (finish goal p)
  unfolding finish
  finish-Attended (at_most timed k) p v = v
  finish-Attended none_active p v = ground (
    arith,
    total-join_all asleep (λ a. ground arith) p.terminated_workers p.workers,
    total-join_all roused (λ a. ground arith) p.terminated_workers p.workers,
  )

  pub begin_wait-Attended :
      (goal : Goal) (p : Pool Task Container) → Attended p → Attended (begin_wait S goal p)
  unfolding begin_wait
  begin_wait-Attended goal p v =
      if_cases Attended (must_wait S goal p) _ _ (λ _. v) (λ _. finish-Attended goal _ v)

  pub resume_wait-Attended :
      (i : ℕ) (goal : Goal) (p : Pool Task Container)
      → Attended p
      → Attended (resume_wait S i goal p)
  unfolding resume_wait
  resume_wait-Attended i goal p v =
      if_cases Attended (must_wait S goal p) _ _ (λ _. v) (λ _. finish-Attended goal _ v)

  pub terminate-Attended :
      (stays : Bool) (p : Pool Task Container) → Attended (terminate_all_workers S stays p)
  unfolding terminate_all_workers notify_all_workers
  terminate-Attended stays p =
      if_cases Attended stays _ _
        (λ _.
          begin_wait-Attended none_active
            (notify_all_workers (record p { terminating = true; target_worker_count = 0 }))
            (inl (asleep-wake p.workers)))
        (λ _. inl (asleep-wake p.workers))

  pub replace-Attended :
      (w : ℕ) (a b : Phase Task) (p : Pool Task Container)
      → get_elem? p.workers w ≡ some a
      → asleep b ≡ 0
      → roused a ≤ roused b
      → Attended p
      → Attended (set_worker w b p)
  replace-Attended w a b p h s r v = ground (arith, moved p.workers w a b h)

  pub destruct-Attended :
      (w : ℕ) (p : Pool Task Container) → Attended p → Attended (worker_destructed w p)
  unfolding worker_destructed count_out
  destruct-Attended w p v = ground arith

  pub die-Attended :
      (threads w : ℕ) (p : Pool Task Container)
      → Attended p
      → Attended (worker_died_unexpectedly threads w p)
  unfolding worker_died_unexpectedly size_policy_worker_died count_out
  die-Attended threads w p v =
      if_cases Attended p.terminating _ _ (λ _. v) (λ _. resize-Attended threads _ (count_out p) v)
