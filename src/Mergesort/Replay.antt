-- ===== src/Mergesort/Replay.antt =====
-- Jobs that are finished batch by batch, and the steps of the merge sort.
use mathlib.Core.HLevel.{×_prop}
use mathlib.Core.List.{perm_middle}
use mathlib.Core.List.Perm
use native.Mathlib.Nat.{ℕ_set, mul-div_cancel, one-le-pow}
use boost_threadpool.Common.{
  ℕ, zero, suc, ◌*◌, ◌/◌, ◌^◌, ◌≤◌, ◌<◌, ◌≡◌, refl, ap, sym, subst, ◌∙◌, List, [], ◌∷◌, ◌++◌, Perm,
  arith, map, ◌==◌, if◌then◌else◌, All, All-Perm, append-nil, if_cases,
}
use boost_threadpool.Programs.Divided.{InBatches, rev_onto}
use boost_threadpool.Mergesort.Blocks.{numbers}
use boost_threadpool.Mergesort.Jobs.{MergeJob, run, run_step, merge_steps}
use boost_threadpool.Mergesort.Program.{job, after_jobs}

-- Which partition of that size a job merges.
abbrev partition_of : ℕ → MergeJob → ℕ
partition_of size j = j.position / size

-- A job for a whole partition of that size.
abbrev IsJob : ℕ → MergeJob → Type 0
IsJob size j = (partition_of size j * size ≡ j.position) × (size ≡ j.length)

IsJob-prop : (size : ℕ) (j : MergeJob) → IsProp (IsJob size j)
IsJob-prop size j = ×_prop (ℕ_set _ _) (ℕ_set _ _)

job_of : (size : ℕ) (j : MergeJob) → IsJob size j → job size (partition_of size j) ≡ j
job_of size j (e, f) = cc

after_jobs-append :
    (js ks : List MergeJob) (array : List ℕ)
    → after_jobs (js ++ ks) array ≡ after_jobs js (after_jobs ks array)
unfolding after_jobs
after_jobs-append [] ks array = refl
after_jobs-append (j ∷ js) ks array = ap (run j) (after_jobs-append js ks array)

-- Jobs of one size, and their partitions in the order in which they ended.
run_step-after_jobs :
    (size : ℕ) (js : List MergeJob) (order array : List ℕ)
    → All (IsJob size) js
    → run_step size (rev_onto (map (partition_of size) js) order) array
      ≡ run_step size order (after_jobs js array)
unfolding after_jobs run_step
run_step-after_jobs size [] order array h = refl
run_step-after_jobs size (j ∷ js) order array h =
    run_step-after_jobs size js (partition_of size j ∷ order) array h.1
    ∙ ap (λ k. run_step size order (run k (after_jobs js array))) (job_of size j h.0)

rev_onto-perm : {A : Type 0} (xs ys : List A) → Perm (xs ++ ys) (rev_onto xs ys)
rev_onto-perm [] ys = Perm.rfl
rev_onto-perm (x ∷ xs) ys = Perm.trans (Perm.symm (perm_middle xs ys)) (rev_onto-perm xs (x ∷ ys))

map-rev_onto :
    {A B : Type 0} (f : A → B) (xs ys : List A)
    → map f (rev_onto xs ys) ≡ rev_onto (map f xs) (map f ys)
map-rev_onto f [] ys = refl
map-rev_onto f (x ∷ xs) ys = map-rev_onto f xs (x ∷ ys)

All-rev_onto :
    {A : Type 0} (P : A → Type 0) (xs ys : List A) → All P xs → All P ys → All P (rev_onto xs ys)
All-rev_onto P [] ys h k = k
All-rev_onto P (x ∷ xs) ys h k = All-rev_onto P xs (x ∷ ys) h.1 (h.0, k)

module _ (size : ℕ) (positive : 0 < size) where
  partition_of-job : (k : ℕ) → partition_of size (job size k) ≡ k
  partition_of-job k = mul-div_cancel k positive

  jobs-IsJob : (ks : List ℕ) → All (IsJob size) (map (job size) ks)
  jobs-IsJob [] = tt
  jobs-IsJob (k ∷ ks) = ((ap (λ n. n * size) (partition_of-job k), refl), jobs-IsJob ks)

  partitions : (ks : List ℕ) → map (partition_of size) (map (job size) ks) ≡ ks
  partitions [] = refl
  partitions (k ∷ ks) =
      ap (λ x. x ∷ map (partition_of size) (map (job size) ks)) (partition_of-job k)
      ∙ ap (◌∷◌ k) (partitions ks)

  -- The jobs of a step in any order are a step of the merge sort with that order.
  abbrev order_of : List MergeJob → List ℕ
  order_of gs = rev_onto (map (partition_of size) gs) []

  order_of-numbers :
      (n : ℕ) (gs : List MergeJob)
      → Perm (rev_onto (map (job size) (numbers n)) []) gs
      → Perm (numbers n) (order_of gs)
  order_of-numbers n gs p =
      let scheduled : map (partition_of size) (rev_onto (map (job size) (numbers n)) [])
          ≡ rev_onto (numbers n) [] =
        map-rev_onto (partition_of size) (map (job size) (numbers n)) []
        ∙ ap (λ ks. rev_onto ks []) (partitions (numbers n)) in
      Perm.trans (same (numbers n)) (
        Perm.trans
          (subst (λ ks. Perm ks (map (partition_of size) gs)) scheduled
            (Perm.map (partition_of size) p))
          (same (map (partition_of size) gs)))
    where
      same : (ks : List ℕ) → Perm ks (rev_onto ks [])
      same ks = subst (λ ls. Perm ls (rev_onto ks [])) (append-nil ks) (rev_onto-perm ks [])

  after_jobs-run_step :
      (n : ℕ) (gs : List MergeJob) (array : List ℕ)
      → Perm (rev_onto (map (job size) (numbers n)) []) gs
      → after_jobs gs array ≡ run_step size (order_of gs) array
  unfolding run_step
  after_jobs-run_step n gs array p = sym (
      run_step-after_jobs size gs [] array (
        All-Perm (IsJob-prop size) p
          (All-rev_onto (IsJob size) (map (job size) (numbers n)) [] (jobs-IsJob (numbers n)) tt)))

-- The steps see only the orders of their own numbers.
merge_steps-orders :
    (f g : ℕ → List ℕ) (todo step : ℕ) (array : List ℕ)
    → ((s : ℕ) → step ≤ s → f s ≡ g s)
    → merge_steps f todo step array ≡ merge_steps g todo step array
unfolding merge_steps
merge_steps-orders f g zero step array h = refl
merge_steps-orders f g (suc todo) step array h =
    merge_steps-orders f g todo (suc step) (run_step (2 ^ step) (f step) array)
      (λ s k. h s (omega arith))
    ∙ ap (λ o. merge_steps g todo (suc step) (run_step (2 ^ step) o array)) (h step (omega arith))

-- The batches of the steps from `step` on.
abbrev pub step_batches : (data_len todo step : ℕ) → List (List MergeJob)
step_batches data_len zero step = []
step_batches data_len (suc todo) step =
    rev_onto (map (job (2 ^ step)) (numbers (data_len / 2 ^ step))) []
    ∷ step_batches data_len todo (suc step)

-- Finished jobs as steps of the merge sort.
pub record Replay (data_len todo step : ℕ) (earlier : List (List MergeJob)) (js : List MergeJob)
    : Type 0 where
  pub orders : ℕ → List ℕ
  pub right : (s : ℕ) → Perm (numbers (data_len / 2 ^ s)) (orders s)
  pub before : List MergeJob
  pub before_InBatches : InBatches earlier before
  pub same :
      (array : List ℕ)
      → after_jobs js array ≡ merge_steps orders todo step (after_jobs before array)

abbrev change : ℕ → List ℕ → (ℕ → List ℕ) → ℕ → List ℕ
change step order orders s = if s == step then order else orders s

change_right :
    (data_len step : ℕ) (order : List ℕ) (orders : ℕ → List ℕ)
    → Perm (numbers (data_len / 2 ^ step)) order
    → ((s : ℕ) → Perm (numbers (data_len / 2 ^ s)) (orders s))
    → (s : ℕ) → Perm (numbers (data_len / 2 ^ s)) (change step order orders s)
change_right data_len step order orders h k s =
    if_cases (Perm (numbers (data_len / 2 ^ s))) (s == step) order (orders s)
      (λ e.
        let is : step ≡ s = ground arith in
        subst (λ x. Perm (numbers (data_len / 2 ^ x)) order) is h)
      (λ e. k s)

change_here :
    (step : ℕ) (order : List ℕ) (orders : ℕ → List ℕ) → order ≡ change step order orders step
change_here step order orders = ground arith

change_later :
    (step : ℕ) (order : List ℕ) (orders : ℕ → List ℕ) (s : ℕ)
    → step < s
    → orders s ≡ change step order orders s
change_later step order orders s h = ground arith

-- One more step at the front.
step_first :
    (todo step : ℕ) (order : List ℕ) (orders : ℕ → List ℕ) (gs others before js : List MergeJob)
    (array : List ℕ)
    → before ≡ gs ++ others
    → ((a : List ℕ) → after_jobs gs a ≡ run_step (2 ^ step) order a)
    → after_jobs js array ≡ merge_steps orders todo (suc step) (after_jobs before array)
    → after_jobs js array
      ≡ merge_steps (change step order orders) (suc todo) step (after_jobs others array)
unfolding merge_steps
step_first todo step order orders gs others before js array e k h =
    let a = after_jobs others array in
    h
    ∙ ap (merge_steps orders todo (suc step))
        (ap (λ b. after_jobs b array) e ∙ after_jobs-append gs others array ∙ k a)
    ∙ merge_steps-orders orders (change step order orders) todo (suc step)
        (run_step (2 ^ step) order a) (λ s l. change_later step order orders s (omega arith))
    ∙ ap (λ o. merge_steps (change step order orders) todo (suc step) (run_step (2 ^ step) o a))
        (change_here step order orders)

pub replay :
    (data_len todo step : ℕ) (earlier : List (List MergeJob)) (js : List MergeJob)
    → InBatches (rev_onto (step_batches data_len todo step) earlier) js
    → Replay data_len todo step earlier js
unfolding merge_steps
replay data_len zero step earlier js h = record {
  orders = λ s. numbers (data_len / 2 ^ s);
  right = λ s. Perm.rfl;
  before = js;
  before_InBatches = h;
  same = λ array. refl;
}
replay data_len (suc todo) step earlier js h =
    let r = replay data_len todo (suc step) (_ ∷ earlier) js h in
    let (gs, others, e, perm, ib) = r.before_InBatches in
    let positive : 0 < 2 ^ step = one-le-pow step 2 (omega arith) in
    let order = order_of (2 ^ step) positive gs in
    record {
      orders = change step order r.orders;
      right =
          change_right data_len step order r.orders
            (order_of-numbers (2 ^ step) positive (data_len / 2 ^ step) gs perm) r.right;
      before = others;
      before_InBatches = ib;
      same = λ array.
          step_first todo step order r.orders gs others r.before js array e
            (λ a. after_jobs-run_step (2 ^ step) positive (data_len / 2 ^ step) gs a perm)
            (r.same array);
    }
