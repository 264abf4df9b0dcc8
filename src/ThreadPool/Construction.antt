-- ===== src/ThreadPool/Construction.antt =====
-- A new thread_pool.
use boost_threadpool.Common.{
  ℕ, ◌-◌, ◌<◌, ◌≡◌, refl, ap, ◌∙◌, arith, replicate, size_mod, ltb, if◌then◌else◌, if_cases,
}
use boost_threadpool.Scheduling.Interface.{Scheduler, Lawful}
use boost_threadpool.Scheduling.Laws.{size-clear}
use boost_threadpool.Core.State.{fetching, pool_core}
use boost_threadpool.Core.Resize.{retarget, resize, size_policy_init}
use boost_threadpool.Core.Resize.Laws.{grown, resize_branches}
use boost_threadpool.Core.Tasks
use boost_threadpool.ThreadPool.Members.{thread_pool, size, active, pending}

-- The number of threads that a pool gets: the one asked for, or as many as the system has.
abbrev pub granted : (threads initial_threads : ℕ) → ℕ
granted threads initial_threads = if ltb threads initial_threads then threads else initial_threads

module _ {Task Container : Type 0} {S : Scheduler Task Container} (L : Lawful S) where
  granted-resize :
      (threads n : ℕ)
      → n < size_mod
      → (resize threads n (pool_core S)).0 ≡ grown (granted threads n) (retarget n (pool_core S))
  unfolding pool_core
  granted-resize threads n b =
      let (_, enough, short, _) = resize_branches threads n (pool_core S) (omega arith) b in
      if_cases (λ m. (resize threads n (pool_core S)).0 ≡ grown m (retarget n (pool_core S)))
        (ltb threads n) threads n (λ l. ap (λ r. r.0) (short refl (ground arith)))
        (λ l.
          let e : n - 0 ≡ n = omega arith in
          ap (λ r. r.0) (enough refl (omega arith) (ground arith))
          ∙ ap (λ m. grown m (retarget n (pool_core S))) e)

  -- A new pool has the number of threads asked for, or as many as the system could create; all of
  -- them are new and count as active, no task is pending, and the target is the number asked for.
  pub thread_pool_result :
      (threads initial_threads : ℕ)
      → initial_threads < size_mod
      → let tp = thread_pool S threads initial_threads in
        (size tp ≡ granted threads initial_threads)
        × (active tp ≡ granted threads initial_threads)
        × (pending S tp ≡ 0)
        × (tp.core.target_worker_count ≡ initial_threads)
        × (tp.core.workers ≡ replicate (granted threads initial_threads) fetching)
  unfolding thread_pool size active pending Tasks.size Tasks.active Tasks.pending size_policy_init
      pool_core
  thread_pool_result threads n b =
      rw (granted-resize threads n b) (omega arith, omega arith, size-clear L S.created, refl, refl)
