-- ===== src/Mergesort/Jobs.antt =====
-- merge_job, and the loops of `main` that schedule the jobs and wait for them.
use boost_threadpool.Common.{ℕ, zero, suc, ◌+◌, ◌-◌, ◌*◌, ◌/◌, ◌%◌, ◌^◌, List, [], ◌∷◌, ◌++◌}
use boost_threadpool.Mergesort.Arrays.{take, drop}
use boost_threadpool.Mergesort.Merge.{inplace_merge}

pub record MergeJob : Type 0 where
  pub position : ℕ
  pub length : ℕ

-- run(): merges [begin, mid) and [mid, end) of the shared array.
unfoldable pub run : MergeJob → List ℕ → List ℕ
unfolding take drop inplace_merge
run job array =
    let half = job.length / 2 in
    take job.position array
    ++ (inplace_merge (take half (drop job.position array))
          (take (job.length - half) (drop (job.position + half) array))
        ++ drop (job.position + job.length) array)

-- The jobs of one merge step, as the pool executes them: `order` lists the partitions' numbers.
unfoldable pub run_step : (partition_size : ℕ) → (order : List ℕ) → List ℕ → List ℕ
unfolding run
run_step size [] array = array
run_step size (partition ∷ order) array =
    run_step size order (run (record { position = partition * size; length = size }) array)

-- The loop over the steps, from `step` on, with `todo` steps to do; it waits for the jobs of each step.
unfoldable pub merge_steps : (orders : ℕ → List ℕ) → (todo step : ℕ) → List ℕ → List ℕ
unfolding run_step
merge_steps orders zero step array = array
merge_steps orders (suc todo) step array =
    merge_steps orders todo (suc step) (run_step (2 ^ step) (orders step) array)

unfoldable pub mergesort : (orders : ℕ → List ℕ) → (exponent : ℕ) → List ℕ → List ℕ
unfolding merge_steps
mergesort orders exponent array = merge_steps orders exponent 1 array

-- The array that `main` fills, from place `i` on, with `left` places to fill.
unfoldable pub filled : (array_len i left : ℕ) → List ℕ
filled array_len i zero = []
filled array_len i (suc left) = (array_len - i - 1) % 23 ∷ filled array_len (suc i) left
