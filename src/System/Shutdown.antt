-- ===== src/System/Shutdown.antt =====
-- What the shutdown policies leave behind.
use boost_threadpool.Common.{
  ◌≡◌, refl, true, List, [], ◌∷◌, ◌++◌, arith, map, total, total-map, append_assoc,
}
use boost_threadpool.Scheduling.Interface.{Scheduler, Lawful}
use boost_threadpool.Scheduling.Laws.{size-clear}
use boost_threadpool.Core.State.{returned, Pool}
use boost_threadpool.Core.Notify.{wake}
use boost_threadpool.Core.Tasks.{clear}
use boost_threadpool.Core.Waiting.{wait, join_all}
use boost_threadpool.Core.Shutdown.{
  Call, wait_for_all_tasks, wait_for_active_tasks, shutdown, perform, terminate_all_workers,
}
use boost_threadpool.System.Phases.{live, live-wake}

module _ {Task Container : Type 0} where
  -- A pool whose workers are all asleep, none of them ended before.
  pub record Quiescent (p : Pool Task Container) : Type 0 where
    pub none_engaged : p.active_worker_count ≡ 0
    pub none_terminated : p.terminated_workers ≡ []

  -- What a waiting policy has done when its last call has returned.
  abbrev pub Left : Pool Task Container → Pool Task Container → Type 0
  Left p q =
      (q.clients ≡ p.clients ++ returned ∷ returned ∷ [])
      × (q.terminating ≡ true)
      × (q.target_worker_count ≡ 0)
      × (q.workers ≡ map wake p.workers)
      × (total live q.workers ≡ total live p.workers)

module _ {Task Container : Type 0} (S : Scheduler Task Container) where
  -- The calls of a policy, one after the other, by a client that none of them blocks.
  abbrev pub perform_all : List Call → Pool Task Container → Pool Task Container
  perform_all [] p = p
  perform_all (c ∷ cs) p = perform_all cs (perform S c p)

  terminate-Quiescent :
      (p : Pool Task Container)
      → Quiescent p
      → terminate_all_workers S true p ≡ record p {
        target_worker_count = 0;
        terminating = true;
        workers = map wake p.workers;
        clients = p.clients ++ returned ∷ [];
      }
  unfolding terminate_all_workers join_all
  terminate-Quiescent p v = ground arith

  wait-Quiescent :
      (p : Pool Task Container)
      → p.active_worker_count ≡ 0
      → S.empty p.scheduler ≡ true
      → wait S 0 p ≡ record p { clients = p.clients ++ returned ∷ [] }
  unfolding wait
  wait-Quiescent p a e = ground arith

module _ {Task Container : Type 0} {S : Scheduler Task Container} (L : Lawful S) where
  clear-Quiescent : (p : Pool Task Container) → Quiescent p → Quiescent (clear S p)
  unfolding clear
  clear-Quiescent p v = record {
    none_engaged = v.none_engaged;
    none_terminated = v.none_terminated;
  }

  empty-clear : (p : Pool Task Container) → S.empty (clear S p).scheduler ≡ true
  unfolding clear
  empty-clear p = ground (arith, L.empty_size (S.clear p.scheduler), size-clear L p.scheduler)

  ends_shutdown :
      (p : Pool Task Container)
      → Quiescent p
      → S.empty p.scheduler ≡ true
      → Left p (perform_all S (shutdown wait_for_all_tasks) p)
  unfolding perform shutdown
  ends_shutdown p v e =
      rw
        (
          wait-Quiescent S p v.none_engaged e,
          terminate-Quiescent S (record p { clients = p.clients ++ returned ∷ [] })
              (record { none_engaged = v.none_engaged; none_terminated = v.none_terminated }),
        )
        (
          append_assoc p.clients (returned ∷ []) (returned ∷ []),
          refl,
          refl,
          refl,
          total-map live wake live-wake p.workers,
        )

  -- In a pool whose workers are all asleep, none having ended before, and which has no pending task, both
  -- waiting policies return at once: every call returns, the workers are notified and told to end, and all
  -- of them are still alive, none ended and none joined, although the policies promise to wait for
  -- the termination of the workers.
  pub shutdown_joins_nobody :
      (p : Pool Task Container)
      → Quiescent p
      → S.empty p.scheduler ≡ true
      → Left p (perform_all S (shutdown wait_for_all_tasks) p)
        × Left p (perform_all S (shutdown wait_for_active_tasks) p)
  unfolding perform shutdown
  shutdown_joins_nobody p v e =
      (ends_shutdown p v e, ends_shutdown (clear S p) (clear-Quiescent p v) (empty-clear p))
