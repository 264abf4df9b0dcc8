-- ===== src/Mergesort/Sorting.antt =====
-- The merge steps sort the array.
use mathlib.Core.List.Perm
use native.Mathlib.Nat.{pow-succ'}
use boost_threadpool.Common.{
  ℕ, zero, suc, ◌+◌, ◌-◌, ◌*◌, ◌/◌, ◌^◌, ◌≤◌, ◌≡◌, refl, sym, ap, subst, ◌∙◌, true, List, [], ◌∷◌,
  ◌++◌, append_assoc, arith, length, length-append, length-map, All, Perm, map, append-nil,
}
use boost_threadpool.Mergesort.Arrays.{drop, concat, take-append, drop-shift, take_all}
use boost_threadpool.Mergesort.Merge.{
  inplace_merge, Sorted, inplace_merge_lem, ascending, Sorted-ascending,
}
use boost_threadpool.Mergesort.Jobs.{run_step, merge_steps, mergesort}
use boost_threadpool.Mergesort.Blocks.{
  merge_halves, Sized, numbers, length-merge_halves, run_step-any_order,
}

-- Two neighbouring partitions become one.
abbrev pair : List (List ℕ) → List (List ℕ)
pair [] = []
pair (b ∷ []) = b ∷ []
pair (b ∷ c ∷ bs) = (b ++ c) ∷ pair bs

concat-pair : (bs : List (List ℕ)) → concat (pair bs) ≡ concat bs
concat-pair [] = refl
concat-pair (b ∷ []) = refl
concat-pair (b ∷ c ∷ bs) = ap (λ r. (b ++ c) ++ r) (concat-pair bs) ∙ append_assoc b c (concat bs)

length-pair : (bs : List (List ℕ)) (n : ℕ) → length bs ≡ 2 * n → length (pair bs) ≡ n
length-pair [] n h = omega arith
length-pair (b ∷ []) n h = absurd (omega arith)
length-pair (b ∷ c ∷ bs) zero h = absurd (omega arith)
length-pair (b ∷ c ∷ bs) (suc n) h = ap suc (length-pair bs n (omega arith))

pair-Sized :
    (size : ℕ) (bs : List (List ℕ)) (n : ℕ)
    → length bs ≡ 2 * n
    → Sized size bs
    → Sized (2 * size) (pair bs)
pair-Sized size [] n h v = tt
pair-Sized size (b ∷ []) n h v = absurd (omega arith)
pair-Sized size (b ∷ c ∷ bs) zero h v = absurd (omega arith)
pair-Sized size (b ∷ c ∷ bs) (suc n) h v =
    (omega (arith, length-append b c, v.0, v.1.0), pair-Sized size bs n (omega arith) v.1.1)

merge_pair :
    (size : ℕ) (b c : List ℕ)
    → length b ≡ size
    → length c ≡ size
    → merge_halves (2 * size) (b ++ c) ≡ inplace_merge b c
unfolding merge_halves drop
merge_pair size b c e f =
    let half : 2 * size / 2 ≡ size = omega arith in
    let rest : 2 * size - size ≡ size = omega arith in
    rw
      (
        half,
        rest,
        take-append size b c (omega arith),
        take_all size b (omega arith),
        drop-shift b c 0 size (omega arith),
        take_all size c (omega arith),
      )
      refl

-- All partitions are sorted.
abbrev AllSorted : List (List ℕ) → Type 0
AllSorted = All Sorted

record Merged (size : ℕ) (bs cs : List (List ℕ)) : Type 0 where
  sized : Sized size cs
  sorted : AllSorted cs
  same : Perm (concat bs) (concat cs)

merged :
    (size : ℕ) (bs : List (List ℕ)) (n : ℕ)
    → length bs ≡ 2 * n
    → Sized size bs
    → AllSorted bs
    → Merged (2 * size) bs (map (merge_halves (2 * size)) (pair bs))
merged size [] n h v s = record { sized = tt; sorted = tt; same = Perm.rfl }
merged size (b ∷ []) n h v s = absurd (omega arith)
merged size (b ∷ c ∷ bs) zero h v s = absurd (omega arith)
merged size (b ∷ c ∷ bs) (suc n) h v s =
    let r = merged size bs n (omega arith) v.1.1 s.1.1 in
    let e = merge_pair size b c v.0 v.1.0 in
    let (so, pe) = inplace_merge_lem b c s.0 s.1.0 in
    record {
      sized = (
        length-merge_halves (2 * size) (b ++ c) (omega (arith, length-append b c, v.0, v.1.0)),
        r.sized,
      );
      sorted = (subst Sorted (sym e) so, r.sorted);
      same =
          subst
            (λ l. Perm l (
              merge_halves (2 * size) (b ++ c) ++ concat (map (merge_halves (2 * size)) (pair bs))))
            (append_assoc b c (concat bs)) (Perm.append (subst (Perm (b ++ c)) (sym e) pe) r.same);
    }

power : (n : ℕ) → 2 ^ suc n ≡ 2 * 2 ^ n
power n = pow-succ' 2 n

-- One step of the outer loop, on twice `n` sorted partitions.
step_merges :
    (size n : ℕ) (order : List ℕ) (bs : List (List ℕ))
    → length bs ≡ 2 * n
    → Sized size bs
    → Perm (numbers n) order
    → run_step (2 * size) order (concat bs) ≡ concat (map (merge_halves (2 * size)) (pair bs))
step_merges size n order bs l v p =
    ap (run_step (2 * size) order) (sym (concat-pair bs))
    ∙ run_step-any_order (2 * size) order (pair bs)
        (subst (λ k. Perm (numbers k) order) (sym (length-pair bs n l)) p)
        (pair-Sized size bs n l v)

-- The outer loop after `done` steps of `total`.
record Sorts (bs : List (List ℕ)) (result : List ℕ) : Type 0 where
  blocks : List (List ℕ)
  gives : result ≡ concat blocks
  single : length blocks ≡ 1
  sorted : AllSorted blocks
  same : Perm (concat bs) (concat blocks)

sorts :
    (orders : ℕ → List ℕ) (total todo done : ℕ) (bs : List (List ℕ))
    → total ≡ todo + done
    → length bs ≡ 2 ^ todo
    → Sized (2 ^ done) bs
    → AllSorted bs
    → ((step : ℕ) → step ≤ total → Perm (numbers (2 ^ (total - step))) (orders step))
    → Sorts bs (merge_steps orders todo (suc done) (concat bs))
unfolding merge_steps
sorts orders total zero done bs t l v s o = record {
  blocks = bs;
  gives = refl;
  single = omega arith;
  sorted = s;
  same = Perm.rfl;
}
sorts orders total (suc todo) done bs t l v s o =
    let twice : length bs ≡ 2 * 2 ^ todo = l ∙ power todo in
    let m = merged (2 ^ done) bs (2 ^ todo) twice v s in
    let left : total - suc done ≡ todo = omega arith in
    let order =
      subst (λ k. Perm (numbers (2 ^ k)) (orders (suc done))) left (o (suc done) (omega arith)) in
    let cs = map (merge_halves (2 * 2 ^ done)) (pair bs) in
    let e =
      ap (λ k. run_step k (orders (suc done)) (concat bs)) (power done)
      ∙ step_merges (2 ^ done) (2 ^ todo) (orders (suc done)) bs twice v order in
    let r =
      sorts orders total todo (suc done) cs (omega arith)
        (length-map (merge_halves (2 * 2 ^ done)) (pair bs) ∙ length-pair bs (2 ^ todo) twice)
        (subst (λ k. Sized k cs) (sym (power done)) m.sized) m.sorted o in
    record {
      blocks = r.blocks;
      gives = ap (merge_steps orders todo (suc (suc done))) e ∙ r.gives;
      single = r.single;
      sorted = r.sorted;
      same = Perm.trans m.same r.same;
    }

abbrev singletons : List ℕ → List (List ℕ)
singletons xs = map (λ x. x ∷ []) xs

concat-singletons : (xs : List ℕ) → concat (singletons xs) ≡ xs
concat-singletons [] = refl
concat-singletons (x ∷ xs) = ap (◌∷◌ x) (concat-singletons xs)

singletons-Sized : (xs : List ℕ) → Sized 1 (singletons xs)
singletons-Sized [] = tt
singletons-Sized (x ∷ xs) = (refl, singletons-Sized xs)

singletons-AllSorted : (xs : List ℕ) → AllSorted (singletons xs)
singletons-AllSorted [] = tt
singletons-AllSorted (x ∷ xs) = ((tt, tt), singletons-AllSorted xs)

-- One sorted partition is the whole array.
single_block :
    (blocks : List (List ℕ))
    → length blocks ≡ 1
    → AllSorted blocks
    → ascending (concat blocks) ≡ true
single_block [] l s = absurd (omega arith)
single_block (b ∷ []) l s = rw (append-nil b) (Sorted-ascending b s.0)
single_block (b ∷ c ∷ bs) l s = absurd (omega arith)

-- On an array of 2 ^ `exponent` images, whatever the order in which the pool executes the jobs
-- of each step, as long as it executes each once, the program ends with the same images in
-- ascending order.
pub mergesort_sorts :
    (orders : ℕ → List ℕ) (exponent : ℕ) (array : List ℕ)
    → length array ≡ 2 ^ exponent
    → ((step : ℕ) → step ≤ exponent → Perm (numbers (2 ^ (exponent - step))) (orders step))
    → (ascending (mergesort orders exponent array) ≡ true)
      × Perm array (mergesort orders exponent array)
unfolding mergesort
mergesort_sorts orders exponent array l o =
    let r =
      sorts orders exponent exponent 0 (singletons array) (omega arith)
        (length-map (λ x. x ∷ []) array ∙ l) (singletons-Sized array) (singletons-AllSorted array)
        o in
    let e : merge_steps orders exponent 1 array ≡ concat r.blocks =
      ap (merge_steps orders exponent 1) (sym (concat-singletons array)) ∙ r.gives in
    (
      ap ascending e ∙ single_block r.blocks r.single r.sorted,
      subst (Perm array) (sym e)
          (subst (λ xs. Perm xs (concat r.blocks)) (concat-singletons array) r.same),
    )
