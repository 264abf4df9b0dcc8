-- ===== src/Core/Waiting.antt =====
-- pool_core.hpp: `wait`, with and without a time limit. A call blocks, or returns at once; a client
-- that was notified tests its condition again.
use boost_threadpool.Common.{
  ℕ, zero, suc, ◌+◌, ◌%◌, Bool, true, false, not, ◌||◌, List, [], ◌∷◌, ◌++◌, ltb, ◌==◌, size_mod,
  if◌then◌else◌,
}
use boost_threadpool.Scheduling.Interface.{Scheduler}
use boost_threadpool.Core.State.{
  Phase, fetching, waiting, woken, running, leaving, dying, exited, joined, Goal, at_most,
  none_active, blocked, returned, Pool, set_client,
}

module _ {Task : Type 0} where
  -- thread::join returns for a worker whose `run` is over.
  abbrev pub join : Phase Task → Phase Task
  join exited = joined
  join fetching = fetching
  join waiting = waiting
  join woken = woken
  join (running t) = running t
  join leaving = leaving
  join dying = dying
  join joined = joined

  unfoldable pub join_at : ℕ → List (Phase Task) → List (Phase Task)
  join_at i [] = []
  join_at zero (p ∷ ps) = join p ∷ ps
  join_at (suc i) (p ∷ ps) = p ∷ join_at i ps

  unfoldable pub join_all : List ℕ → List (Phase Task) → List (Phase Task)
  unfolding join_at
  join_all [] ws = ws
  join_all (w ∷ rest) ws = join_all rest (join_at w ws)

module _ {Task Container : Type 0} where
  -- The end of terminate_all_workers, after its loop.
  unfoldable pub join_terminated : Pool Task Container → Pool Task Container
  unfolding join_all
  join_terminated p = record p {
    workers = join_all p.terminated_workers p.workers;
    terminated_workers = [];
  }

  -- What follows the loop.
  unfoldable pub finish : Goal → Pool Task Container → Pool Task Container
  unfolding join_terminated
  finish (at_most timed task_threshold) p = p
  finish none_active p = join_terminated p

module _ {Task Container : Type 0} (S : Scheduler Task Container) where
  -- The condition under which the loops of `wait` sleep.
  unfoldable pub is_busy : ℕ → Pool Task Container → Bool
  is_busy task_threshold p =
      if task_threshold == 0
      then not (0 == p.active_worker_count) || not (S.empty p.scheduler)
      else ltb task_threshold ((p.active_worker_count + S.size p.scheduler) % size_mod)

  unfoldable pub must_wait : Goal → Pool Task Container → Bool
  unfolding is_busy
  must_wait (at_most timed task_threshold) p = is_busy task_threshold p
  must_wait none_active p = ltb 0 p.active_worker_count

  -- A call arrives at its loop.
  unfoldable pub begin_wait : Goal → Pool Task Container → Pool Task Container
  unfolding must_wait finish
  begin_wait goal p =
      if must_wait goal p
      then record p { clients = p.clients ++ blocked goal ∷ [] }
      else finish goal (record p { clients = p.clients ++ returned ∷ [] })

  -- A notified client goes round its loop.
  unfoldable pub resume_wait : ℕ → Goal → Pool Task Container → Pool Task Container
  unfolding must_wait finish
  resume_wait i goal p =
      if must_wait goal p
      then set_client i (blocked goal) p
      else finish goal (set_client i returned p)

  unfoldable pub wait : ℕ → Pool Task Container → Pool Task Container
  unfolding begin_wait
  wait task_threshold p = begin_wait (at_most false task_threshold) p

  unfoldable pub timed_wait : ℕ → Pool Task Container → Pool Task Container
  unfolding begin_wait
  timed_wait task_threshold p = begin_wait (at_most true task_threshold) p
