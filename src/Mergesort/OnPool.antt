-- ===== src/Mergesort/OnPool.antt =====
-- The merge sort on a pool.
use native.Mathlib.Nat.{pow-succ', mul_assoc, mul-div_cancel, one-le-pow}
use boost_threadpool.Common.{
  ℕ, zero, suc, ◌+◌, ◌-◌, ◌*◌, ◌/◌, ◌^◌, ◌≤◌, ◌≡◌, refl, ap, sym, subst, ◌∙◌, Bool, true, none,
  List, [], ◌∷◌, ◌++◌, Perm, arith, map, length, append_assoc, perm-length, nil_of_length,
}
use boost_threadpool.Scheduling.Interface.{Scheduler, Lawful}
use boost_threadpool.Core.State.{Pool}
use boost_threadpool.Core.Shutdown.{Call, shutdown}
use boost_threadpool.System.Steps.{Log}
use boost_threadpool.Programs.Client.{Instruction, schedule_task, resize_to, call, scope, Run}
use boost_threadpool.Programs.Invariant.{Accepting}
use boost_threadpool.Programs.Completion.{NoClears, scope-NoClears, scope-WillWait}
use boost_threadpool.Programs.Divided.{batches, InBatches, rev_onto}
use boost_threadpool.Programs.Batches.{batches_finish}
use boost_threadpool.Mergesort.Merge.{ascending}
use boost_threadpool.Mergesort.Blocks.{numbers}
use boost_threadpool.Mergesort.Jobs.{MergeJob, mergesort, merge_steps}
use boost_threadpool.Mergesort.Program.{job, step_calls, step_loop, main, after_jobs}
use boost_threadpool.Mergesort.Replay.{step_batches, Replay, replay}
use boost_threadpool.Mergesort.Sorting.{mergesort_sorts}

power_split : (d s : ℕ) → 2 ^ (d + s) ≡ 2 ^ d * 2 ^ s
power_split zero s = let e : 0 + s ≡ s = omega arith in ap (λ n. 2 ^ n) e ∙ omega arith
power_split (suc d) s =
    ap (λ n. 2 ^ n) shift
    ∙ pow-succ' 2 (d + s)
    ∙ ap (λ n. 2 * n) (power_split d s)
    ∙ sym (mul_assoc 2 (2 ^ d) (2 ^ s))
    ∙ ap (λ n. n * 2 ^ s) (sym (pow-succ' 2 d))
  where
    shift : suc d + s ≡ suc (d + s)
    shift = omega arith

power_quotient : (e s : ℕ) → s ≤ e → 2 ^ e / 2 ^ s ≡ 2 ^ (e - s)
power_quotient e s h =
    let k : e ≡ (e - s) + s = omega arith in
    ap (λ n. 2 ^ n / 2 ^ s) k
    ∙ ap (λ n. n / 2 ^ s) (power_split (e - s) s)
    ∙ mul-div_cancel (2 ^ (e - s)) (one-le-pow s 2 (omega arith))

-- The batches of one round.
batches_round :
    (size : ℕ) (ks : List ℕ) (current : List MergeJob) (rest : List (Instruction MergeJob))
    → batches (map (λ k. schedule_task (job size k)) ks ++ (call Call.waits ∷ rest)) current
      ≡ rev_onto (map (job size) ks) current ∷ batches rest []
batches_round size [] current rest = refl
batches_round size (k ∷ ks) current rest = batches_round size ks (job size k ∷ current) rest

batches_loop :
    (data_len todo step : ℕ) (after : List (Instruction MergeJob))
    → batches (step_loop data_len todo step ++ after) []
      ≡ step_batches data_len todo step ++ batches after []
unfolding step_loop step_calls
batches_loop data_len zero step after = refl
batches_loop data_len (suc todo) step after =
    ap (λ cs. batches cs [])
      (append_assoc (map (λ k. schedule_task (job (2 ^ step) k)) (numbers (data_len / 2 ^ step))) _
        after)
    ∙ batches_round (2 ^ step) (numbers (data_len / 2 ^ step)) [] _
    ∙ ap (◌∷◌ (rev_onto (map (job (2 ^ step)) (numbers (data_len / 2 ^ step))) []))
        (batches_loop data_len todo (suc step) after)

round-NoClears :
    (size : ℕ) (ks : List ℕ) (rest : List (Instruction MergeJob))
    → NoClears rest
    → NoClears (map (λ k. schedule_task (job size k)) ks ++ (call Call.waits ∷ rest))
round-NoClears size [] rest h = h
round-NoClears size (k ∷ ks) rest h = round-NoClears size ks rest h

loop-NoClears : (data_len todo step : ℕ) → NoClears (step_loop data_len todo step)
unfolding step_loop step_calls
loop-NoClears data_len zero step = tt
loop-NoClears data_len (suc todo) step =
    round-NoClears (2 ^ step) (numbers (data_len / 2 ^ step)) _
      (loop-NoClears data_len todo (suc step))

rev_onto-append :
    {A : Type 0} (xs ys zs : List A) → rev_onto (xs ++ ys) zs ≡ rev_onto ys (rev_onto xs zs)
rev_onto-append [] ys zs = refl
rev_onto-append (x ∷ xs) ys zs = rev_onto-append xs ys (x ∷ zs)

main-batches :
    (exponent : ℕ)
    → rev_onto (batches (main exponent) []) []
      ≡ [] ∷ [] ∷ rev_onto (step_batches (2 ^ exponent) exponent 1) []
unfolding main scope shutdown
main-batches exponent =
    ap (λ bs. rev_onto bs []) (batches_loop (2 ^ exponent) exponent 1 _)
    ∙ rev_onto-append (step_batches (2 ^ exponent) exponent 1) ([] ∷ [] ∷ []) []

-- Empty batches.
without_empty :
    (bs : List (List MergeJob)) (js : List MergeJob) → InBatches ([] ∷ bs) js → InBatches bs js
without_empty bs js (gs, others, e, perm, h) =
    let empty : gs ≡ [] = nil_of_length gs (omega (arith, perm-length perm)) in
    subst (InBatches bs) (sym (e ∙ ap (λ ks. ks ++ others) empty)) h

module _ {Container : Type 0} {S : Scheduler MergeJob Container} (L : Lawful S)
    {callable : MergeJob → Bool} where
  main-Replay :
      (exponent : ℕ) {p : Pool MergeJob Container} {l : Log MergeJob}
      → Accepting S
      → Run L callable (main exponent) p l [] none
      → Replay (2 ^ exponent) exponent 1 [] l.finished
  unfolding main
  main-Replay exponent {l} a r =
      let loop = step_loop (2 ^ exponent) exponent 1 in
      let h =
        batches_finish L a
          (scope-NoClears 0 (resize_to 5 ∷ loop) (loop-NoClears (2 ^ exponent) exponent 1))
          (scope-WillWait 0 (resize_to 5 ∷ loop)) r in
      let steps = rev_onto (step_batches (2 ^ exponent) exponent 1) [] in
      replay (2 ^ exponent) exponent 1 [] l.finished (
        without_empty steps l.finished (
          without_empty ([] ∷ steps) l.finished
            (subst (λ bs. InBatches bs l.finished) (main-batches exponent) h)))

  -- The program of the merge sort, for an array of 2 ^ `exponent` images, on a pool whose scheduler
  -- refuses no task: however the workers and the program interleave, when the program has ended, the
  -- jobs, in the order in which the pool has finished them, have put the images in ascending order, and
  -- no image is lost.
  pub pool_sorts :
      (exponent : ℕ) (array : List ℕ) {p : Pool MergeJob Container} {l : Log MergeJob}
      → length array ≡ 2 ^ exponent
      → Accepting S
      → Run L callable (main exponent) p l [] none
      → (ascending (after_jobs l.finished array) ≡ true) × Perm array (after_jobs l.finished array)
  unfolding mergesort after_jobs
  pool_sorts exponent array {l} h a r =
      let m = main-Replay exponent a r in
      let e : after_jobs l.finished array ≡ mergesort m.orders exponent array =
        m.same array
        ∙ ap (λ js. merge_steps m.orders exponent 1 (after_jobs js array)) m.before_InBatches in
      rw e (
        mergesort_sorts m.orders exponent array h (λ step k.
          subst (λ n. Perm (numbers n) (m.orders step)) (power_quotient exponent step k)
            (m.right step)))
