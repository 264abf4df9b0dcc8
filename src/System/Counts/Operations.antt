-- ===== src/System/Counts/Operations.antt =====
-- The counters, and the operations that change the number of workers.
use boost_threadpool.Common.{
  ℕ, ◌<◌, ◌≡◌, refl, true, some, [], ◌∷◌, arith, get_elem?, total, total-append, total-map,
  size_mod, inc,
}
use boost_threadpool.Core.State.{
  Phase, fetching, leaving, dying, exited, Goal, at_most, none_active, Pool, set_worker,
}
use boost_threadpool.Core.Notify.{wake, notify_all_workers}
use boost_threadpool.Core.Guard.{run_end}
use boost_threadpool.Core.Waiting.{finish}
use boost_threadpool.Core.Resize.{
  attach, retarget, resize, count_out, worker_died_unexpectedly, worker_destructed,
  size_policy_worker_died,
}
use boost_threadpool.Core.Resize.Cases.{grow_inv, resize_cases}
use boost_threadpool.System.Phases.{
  live, engaged, live-wake, engaged-wake, total-join_all, engaged-le-live, replaced,
}

module _ {Task Container : Type 0} where
  pub record Counts (p : Pool Task Container) : Type 0 where
    pub counted : p.worker_count ≡ total live p.workers
    pub active_counted : p.active_worker_count ≡ total engaged p.workers
    pub bounded : p.worker_count < size_mod
    pub target_bounded : p.target_worker_count < size_mod
    pub stopped : p.terminating ≡ true → p.target_worker_count ≡ 0

  pub notify_all_workers-Counts :
      (p : Pool Task Container) → Counts p → Counts (notify_all_workers p)
  unfolding notify_all_workers
  notify_all_workers-Counts p v = ground (
    arith,
    total-map live wake live-wake p.workers,
    total-map engaged wake engaged-wake p.workers,
  )

  pub attach-Counts :
      (p : Pool Task Container)
      → p.worker_count < p.target_worker_count
      → Counts p
      → Counts (attach p)
  unfolding attach
  attach-Counts p h v = ground (
    arith,
    total-append live p.workers (fetching ∷ []),
    total-append engaged p.workers (fetching ∷ []),
    engaged-le-live p.workers,
  )

  pub resize-Counts :
      (threads n : ℕ) (p : Pool Task Container)
      → n < size_mod
      → Counts p
      → Counts (resize threads n p).0
  resize-Counts threads n p h v =
      resize_cases (λ r. Counts r.0) threads n p (λ _. v)
        (λ e _. grow_inv Counts attach-Counts threads (retarget n p) (ground arith))
        (λ e _. notify_all_workers-Counts (retarget n p) (ground arith))

  pub finish-Counts : (goal : Goal) (p : Pool Task Container) → Counts p → Counts (finish goal p)
  unfolding finish
  finish-Counts (at_most timed threshold) p v = v
  finish-Counts none_active p v = ground (
    arith,
    total-join_all live (λ a. ground arith) p.terminated_workers p.workers,
    total-join_all engaged (λ a. ground arith) p.terminated_workers p.workers,
  )

  -- A worker whose phase counts leaves the counters.
  pub count_out-Counts :
      (p : Pool Task Container) (w : ℕ) (a : Phase Task)
      → get_elem? p.workers w ≡ some a
      → live a ≡ 1
      → engaged a ≡ 1
      → Counts p
      → Counts (count_out (set_worker w exited p))
  unfolding count_out
  count_out-Counts p w a h la ea v =
      ground (arith, replaced p.workers w a exited h, engaged-le-live p.workers)

  pub worker_destructed-Counts :
      (p : Pool Task Container) (w : ℕ)
      → get_elem? p.workers w ≡ some leaving
      → Counts p
      → Counts (worker_destructed w (set_worker w run_end p))
  unfolding worker_destructed run_end
  worker_destructed-Counts p w h v = ground (arith, count_out-Counts p w leaving h refl refl v)

  pub worker_died-Counts :
      (p : Pool Task Container) (threads w : ℕ)
      → get_elem? p.workers w ≡ some dying
      → Counts p
      → Counts (worker_died_unexpectedly threads w (set_worker w exited p))
  unfolding worker_died_unexpectedly size_policy_worker_died
  worker_died-Counts p threads w h v = ground (
    arith,
    count_out-Counts p w dying h refl refl v,
    resize-Counts threads (inc (count_out (set_worker w exited p)).worker_count)
        (count_out (set_worker w exited p)),
  )
