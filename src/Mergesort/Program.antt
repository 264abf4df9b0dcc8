-- ===== src/Mergesort/Program.antt =====
-- The calls that `main` makes of its pool, and what the jobs do to the array in the order in which the pool
-- finishes them.
use boost_threadpool.Common.{ℕ, zero, suc, ◌*◌, ◌/◌, ◌^◌, List, [], ◌∷◌, ◌++◌, map}
use boost_threadpool.Core.Shutdown.{Call}
use boost_threadpool.ThreadPool.Kinds.{pool}
use boost_threadpool.Programs.Client.{Instruction, schedule_task, resize_to, call, scope}
use boost_threadpool.Mergesort.Blocks.{numbers}
use boost_threadpool.Mergesort.Jobs.{MergeJob, run}

abbrev pub job : (partition_size partition : ℕ) → MergeJob
job partition_size partition = record {
  position = partition * partition_size;
  length = partition_size;
}

-- One round of the loop over the steps, and the rest of the program.
unfoldable pub step_calls :
    (data_len step : ℕ) → List (Instruction MergeJob) → List (Instruction MergeJob)
step_calls data_len step rest =
    let partition_size = 2 ^ step in
    map (λ partition. schedule_task (job partition_size partition))
      (numbers (data_len / partition_size))
    ++ (call Call.waits ∷ rest)

-- The rounds from `step` on, with `todo` of them to do.
unfoldable pub step_loop : (data_len todo step : ℕ) → List (Instruction MergeJob)
unfolding step_calls
step_loop data_len zero step = []
step_loop data_len (suc todo) step = step_calls data_len step (step_loop data_len todo (suc step))

-- `main`, for any exponent.
unfoldable pub main : (exponent : ℕ) → List (Instruction MergeJob)
unfolding scope step_loop
main exponent =
    scope (pool MergeJob).shutdown_policy 0 (resize_to 5 ∷ step_loop (2 ^ exponent) exponent 1)

-- The array after these jobs, the last of which stands first.
unfoldable pub after_jobs : List MergeJob → List ℕ → List ℕ
unfolding run
after_jobs [] array = array
after_jobs (j ∷ js) array = run j (after_jobs js array)
