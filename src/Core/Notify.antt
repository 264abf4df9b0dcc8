-- ===== src/Core/Notify.antt =====
-- The two condition variables of pool_core.hpp: whom notify_one and notify_all wake.
use boost_threadpool.Common.{ℕ, zero, suc, List, [], ◌∷◌, map}
use boost_threadpool.Core.State.{
  Phase, fetching, waiting, woken, running, leaving, dying, exited, joined, Client, blocked,
  notified, returned, timed_out, Pool,
}

module _ {Task : Type 0} where
  abbrev pub wake : Phase Task → Phase Task
  wake waiting = woken
  wake fetching = fetching
  wake woken = woken
  wake (running t) = running t
  wake leaving = leaving
  wake dying = dying
  wake exited = exited
  wake joined = joined

  unfoldable pub wake_at : ℕ → List (Phase Task) → List (Phase Task)
  wake_at i [] = []
  wake_at zero (p ∷ ps) = wake p ∷ ps
  wake_at (suc i) (p ∷ ps) = p ∷ wake_at i ps

abbrev pub notify : Client → Client
notify (blocked g) = notified g
notify (notified g) = notified g
notify returned = returned
notify timed_out = timed_out

module _ {Task Container : Type 0} where
  -- m_task_or_terminate_workers_event.notify_one(), which picks the worker `chosen`
  unfoldable pub notify_one_worker : ℕ → Pool Task Container → Pool Task Container
  notify_one_worker chosen p = record p { workers = wake_at chosen p.workers }

  -- m_task_or_terminate_workers_event.notify_all()
  unfoldable pub notify_all_workers : Pool Task Container → Pool Task Container
  notify_all_workers p = record p { workers = map wake p.workers }

  -- m_worker_idle_or_terminated_event.notify_all()
  unfoldable pub notify_all_clients : Pool Task Container → Pool Task Container
  notify_all_clients p = record p { clients = map notify p.clients }
