-- ===== src/Core/Shutdown.antt =====
-- pool_core.hpp: terminate_all_workers; boost/threadpool/shutdown_policies.hpp.
use boost_threadpool.Common.{Bool, true, false, List, [], ◌∷◌, if◌then◌else◌}
use boost_threadpool.Scheduling.Interface.{Scheduler}
use boost_threadpool.Core.State.{none_active, Pool}
use boost_threadpool.Core.Notify.{notify_all_workers}
use boost_threadpool.Core.Tasks.{clear}
use boost_threadpool.Core.Waiting.{begin_wait, wait}

pub data ShutdownPolicy : Type 0 where
  wait_for_all_tasks wait_for_active_tasks immediately : ShutdownPolicy

-- The calls that a policy makes of its pool.
pub data Call : Type 0 where
  waits clears : Call
  terminates : (waiting_for_them : Bool) → Call

unfoldable pub shutdown : ShutdownPolicy → List Call
shutdown wait_for_all_tasks = waits ∷ terminates true ∷ []
shutdown wait_for_active_tasks = clears ∷ waits ∷ terminates true ∷ []
shutdown immediately = clears ∷ terminates false ∷ []

module _ {Task Container : Type 0} (S : Scheduler Task Container) where
  unfoldable pub terminate_all_workers : Bool → Pool Task Container → Pool Task Container
  unfolding notify_all_workers begin_wait
  terminate_all_workers waiting_for_them p =
      let q = notify_all_workers (record p { terminating = true; target_worker_count = 0 }) in
      if waiting_for_them then begin_wait S none_active q else q

  unfoldable pub perform : Call → Pool Task Container → Pool Task Container
  unfolding wait clear terminate_all_workers
  perform waits p = wait S 0 p
  perform clears p = clear S p
  perform (terminates waiting_for_them) p = terminate_all_workers waiting_for_them p
