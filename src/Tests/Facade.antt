-- ===== src/Tests/Facade.antt =====
-- A thread_pool and a scheduled future.
use boost_threadpool.Common.{
  ℕ, ◌≡◌, ◌≢◌, ◌⊎◌, true, false, some, List, [], ◌∷◌, ◌++◌, Perm, arith, get_elem?, All, replicate,
}
use boost_threadpool.Scheduling.Fifo.{fifo_scheduler, fifo_lawful}
use boost_threadpool.Scheduling.Fifo
use boost_threadpool.Core.State.{fetching, pool_core}
use boost_threadpool.Futures.Impl.{future_impl}
use boost_threadpool.Tests.Setup.{fifo}
use boost_threadpool.ThreadPool.Members.{thread_pool, size, active, pending}
use boost_threadpool.ThreadPool.Construction.{thread_pool_result}
use boost_threadpool.ThreadPool.Schedule.{FutureTask, FuturePool, schedule_future}
use boost_threadpool.ThreadPool.Promises.{Known, schedule_future_result}

thread_pool_result_example :
    let tp = thread_pool fifo 5 3 in
    (size tp ≡ 3)
    × (active tp ≡ 3)
    × (pending fifo tp ≡ 0)
    × (tp.core.target_worker_count ≡ 3)
    × (tp.core.workers ≡ replicate 3 fetching)
thread_pool_result_example = thread_pool_result fifo_lawful 5 3 (omega arith)

abbrev no_futures : FuturePool ℕ ℕ (List (FutureTask ℕ))
no_futures = record { store = []; pool = pool_core fifo_scheduler }

schedule_future_result_example :
    let r = schedule_future fifo_scheduler 0 0 true 7 no_futures in
    let t : FutureTask ℕ = record { function = 7; future = r.1 } in
    Known fifo_lawful r.0
    × (r.0.store ≡ no_futures.store ++ future_impl 0 true ∷ [])
    × (get_elem? r.0.store r.1 ≡ some (future_impl 0 true))
    × ((((fifo_scheduler.push t no_futures.pool.scheduler).1 ≡ true)
          × Perm r.0.pool.scheduler (t ∷ no_futures.pool.scheduler))
        ⊎ (((fifo_scheduler.push t no_futures.pool.scheduler).1 ≡ false)
            × (r.0.pool ≡ no_futures.pool)
            × All (λ u. u.future ≢ r.1) r.0.pool.scheduler))
unfolding pool_core Fifo.clear
schedule_future_result_example = schedule_future_result fifo_lawful 0 0 true 7 no_futures tt
