-- ===== src/Core/Resize.antt =====
-- pool_core.hpp: resize, worker_died_unexpectedly and worker_destructed; create_and_attach of
-- worker_thread.hpp; static_size and resize_controller of boost/threadpool/size_policies.hpp.
pub mod Cases
pub mod Laws
use boost_threadpool.Common.{
  ℕ, zero, suc, ◌+◌, Bool, true, false, not, List, [], ◌∷◌, ◌++◌, ltb, leb, inc, dec, if◌then◌else◌,
}
use boost_threadpool.Core.State.{Phase, fetching, Pool, set_worker}
use boost_threadpool.Core.Notify.{notify_all_workers, notify_all_clients}
use boost_threadpool.Core.Guard.{run_end}

module _ {Task Container : Type 0} where
  -- A new thread starts at the head of its loop.
  unfoldable pub create_and_attach : Pool Task Container → Pool Task Container
  create_and_attach p = record p { workers = p.workers ++ fetching ∷ [] }

  unfoldable pub attach : Pool Task Container → Pool Task Container
  unfolding create_and_attach
  attach p = record (create_and_attach p) {
    worker_count = inc p.worker_count;
    active_worker_count = inc p.active_worker_count;
  }

  -- The loop of `resize`. After `threads` more threads the system has no resources left, and
  -- the next one throws thread_resource_error.
  unfoldable pub grow : (threads : ℕ) → Pool Task Container → Pool Task Container × Bool
  unfolding attach
  grow zero p = (p, not (ltb p.worker_count p.target_worker_count))
  grow (suc threads) p =
      let rest = grow threads (attach p) in
      if ltb p.worker_count p.target_worker_count then rest else (p, true)

  abbrev pub retarget : ℕ → Pool Task Container → Pool Task Container
  retarget worker_count p = record p { target_worker_count = worker_count }

  unfoldable pub resize :
      (threads worker_count : ℕ) → Pool Task Container → Pool Task Container × Bool
  unfolding grow notify_all_workers
  resize threads worker_count p =
      if p.terminating
      then (p, false)
      else (let q = retarget worker_count p in
          if leb q.worker_count q.target_worker_count
          then grow threads q
          else (notify_all_workers q, true))

  -- static_size::worker_died_unexpectedly
  unfoldable pub size_policy_worker_died :
      (threads new_worker_count : ℕ) → Pool Task Container → Pool Task Container
  unfolding resize
  size_policy_worker_died threads new_worker_count p = (resize threads (inc new_worker_count) p).0

  -- static_size::init, by which the constructor of thread_pool sets the number of threads
  unfoldable pub size_policy_init :
      (threads worker_count : ℕ) → Pool Task Container → Pool Task Container
  unfolding resize
  size_policy_init threads worker_count p = (resize threads worker_count p).0

  -- What worker_died_unexpectedly and worker_destructed have in common.
  unfoldable pub count_out : Pool Task Container → Pool Task Container
  unfolding notify_all_clients
  count_out p = notify_all_clients (record p {
    worker_count = dec p.worker_count;
    active_worker_count = dec p.active_worker_count;
  })

  unfoldable pub worker_died_unexpectedly :
      (threads worker : ℕ) → Pool Task Container → Pool Task Container
  unfolding count_out size_policy_worker_died
  worker_died_unexpectedly threads worker p =
      let q = count_out p in
      if q.terminating
      then record q { terminated_workers = q.terminated_workers ++ worker ∷ [] }
      else size_policy_worker_died threads q.worker_count q

  unfoldable pub worker_destructed : (worker : ℕ) → Pool Task Container → Pool Task Container
  unfolding count_out
  worker_destructed worker p =
      let q = count_out p in
      if q.terminating
      then record q { terminated_workers = q.terminated_workers ++ worker ∷ [] }
      else q
