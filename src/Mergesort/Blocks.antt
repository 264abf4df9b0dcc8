-- ===== src/Mergesort/Blocks.antt =====
-- A merge step as a change of each partition by itself.
use mathlib.Core.List.{Permᴰ, is_set}
use native.Mathlib.Bridge.{le_prop}
use native.Mathlib.Nat.{ℕ_set}
use mathlib.Core.Logic.{∥∥₁_elim}
use boost_threadpool.Common.{
  ℕ, zero, suc, ◌+◌, ◌-◌, ◌*◌, ◌/◌, ◌<◌, ◌≡◌, refl, sym, ap, ◌∙◌, List, [], ◌∷◌, ◌++◌, append_assoc,
  arith, length, length-append, All, Perm, perm-length, map, All-map, All-Perm,
}
use boost_threadpool.Mergesort.Arrays.{
  take, drop, concat, take-append, drop-append, take-shift, drop-shift, length-take, length-drop,
}
use boost_threadpool.Mergesort.Merge.{inplace_merge, inplace_merge-perm}
use boost_threadpool.Mergesort.Jobs.{run, run_step}

-- What a merge job does to its partition.
unfoldable pub merge_halves : ℕ → List ℕ → List ℕ
merge_halves size b = inplace_merge (take (size / 2) b) (take (size - size / 2) (drop (size / 2) b))

abbrev pub update : ℕ → (List ℕ → List ℕ) → List (List ℕ) → List (List ℕ)
update i f [] = []
update zero f (b ∷ bs) = f b ∷ bs
update (suc i) f (b ∷ bs) = b ∷ update i f bs

run-append :
    (b rest : List ℕ) (m n k : ℕ)
    → k ≡ length b + m
    → run (record { position = k; length = n }) (b ++ rest)
      ≡ b ++ run (record { position = m; length = n }) rest
unfolding run
run-append b rest m n k e =
    rw
      (
        take-shift b rest m k e,
        drop-shift b rest m k e,
        drop-shift b rest (m + n / 2) (k + n / 2) (omega arith),
        drop-shift b rest (m + n) (k + n) (omega arith),
      )
      (append_assoc b (take m rest) _)

run-first :
    (b rest : List ℕ) (size : ℕ)
    → length b ≡ size
    → run (record { position = 0; length = size }) (b ++ rest) ≡ merge_halves size b ++ rest
unfolding run merge_halves drop
run-first b rest size e =
    let zero_half : 0 + size / 2 ≡ size / 2 = omega arith in
    rw
      (
        zero_half,
        take-append (size / 2) b rest (omega arith),
        drop-append (size / 2) b rest (omega arith),
        take-append (size - size / 2) (drop (size / 2) b) rest
            (omega (arith, length-drop (size / 2) b (omega arith))),
        drop-shift b rest 0 (0 + size) (omega arith),
      )
      refl

-- Every partition has the same size.
abbrev pub Sized : ℕ → List (List ℕ) → Type 0
Sized size = All (λ b. length b ≡ size)

-- A merge job changes its partition, and nothing else.
pub run-concat :
    (size k : ℕ) (bs : List (List ℕ))
    → Sized size bs
    → k < length bs
    → run (record { position = k * size; length = size }) (concat bs)
      ≡ concat (update k (merge_halves size) bs)
run-concat size k [] v h = absurd (omega arith)
run-concat size zero (b ∷ bs) v h =
    let z : 0 * size ≡ 0 = omega arith in rw z (run-first b (concat bs) size v.0)
run-concat size (suc k) (b ∷ bs) v h =
    run-append b (concat bs) (k * size) size (suc k * size) (omega (arith, v.0))
    ∙ ap (λ r. b ++ r) (run-concat size k bs v.1 (omega arith))

pub length-merge_halves :
    (size : ℕ) (b : List ℕ) → length b ≡ size → length (merge_halves size b) ≡ size
unfolding merge_halves
length-merge_halves size b e =
    let first = length-take (size / 2) b (omega arith) in
    let rest = length-drop (size / 2) b (omega arith) in
    let second = length-take (size - size / 2) (drop (size / 2) b) (omega (arith, rest)) in
    omega (
      arith,
      first,
      second,
      length-append (take (size / 2) b) (take (size - size / 2) (drop (size / 2) b)),
      perm-length
          (inplace_merge-perm (take (size / 2) b) (take (size - size / 2) (drop (size / 2) b))),
    )

length-update :
    (k : ℕ) (f : List ℕ → List ℕ) (bs : List (List ℕ)) → length (update k f bs) ≡ length bs
length-update k f [] = refl
length-update zero f (b ∷ bs) = refl
length-update (suc k) f (b ∷ bs) = ap suc (length-update k f bs)

update-Sized :
    (size k : ℕ) (bs : List (List ℕ)) → Sized size bs → Sized size (update k (merge_halves size) bs)
update-Sized size k [] v = tt
update-Sized size zero (b ∷ bs) v = (length-merge_halves size b v.0, v.1)
update-Sized size (suc k) (b ∷ bs) v = (v.0, update-Sized size k bs v.1)

abbrev pub updates : List ℕ → (List ℕ → List ℕ) → List (List ℕ) → List (List ℕ)
updates [] f bs = bs
updates (k ∷ order) f bs = updates order f (update k f bs)

-- The jobs of a step, in some order.
pub run_step-concat :
    (size : ℕ) (order : List ℕ) (bs : List (List ℕ))
    → Sized size bs
    → All (λ k. k < length bs) order
    → run_step size order (concat bs) ≡ concat (updates order (merge_halves size) bs)
unfolding run_step
run_step-concat size [] bs v h = refl
run_step-concat size (k ∷ order) bs v h =
    ap (run_step size order) (run-concat size k bs v h.0)
    ∙ run_step-concat size order (update k (merge_halves size) bs) (update-Sized size k bs v)
        (All-map _ _ (λ i l. omega (arith, l, length-update k (merge_halves size) bs)) order h.1)

update_comm :
    (i j : ℕ) (f : List ℕ → List ℕ) (bs : List (List ℕ))
    → update i f (update j f bs) ≡ update j f (update i f bs)
update_comm i j f [] = refl
update_comm zero zero f (b ∷ bs) = refl
update_comm zero (suc j) f (b ∷ bs) = refl
update_comm (suc i) zero f (b ∷ bs) = refl
update_comm (suc i) (suc j) f (b ∷ bs) = ap (◌∷◌ b) (update_comm i j f bs)

updates-permᴰ :
    (f : List ℕ → List ℕ) {xs ys : List ℕ}
    → Permᴰ xs ys
    → (bs : List (List ℕ)) → updates xs f bs ≡ updates ys f bs
updates-permᴰ f Permᴰ.nil bs = refl
updates-permᴰ f (Permᴰ.cons {l₁} e p) bs =
    ap (λ k. updates l₁ f (update k f bs)) e ∙ updates-permᴰ f p (update _ f bs)
updates-permᴰ f (Permᴰ.swap {a'} {b'} {l} e g) bs =
    rw (e, g) (ap (updates l f) (update_comm a' b' f bs))
updates-permᴰ f (Permᴰ.trans p q) bs = updates-permᴰ f p bs ∙ updates-permᴰ f q bs

-- The numbers below `n`.
abbrev pub numbers : ℕ → List ℕ
numbers zero = []
numbers (suc n) = 0 ∷ map suc (numbers n)

updates-suc :
    (order : List ℕ) (f : List ℕ → List ℕ) (b : List ℕ) (bs : List (List ℕ))
    → updates (map suc order) f (b ∷ bs) ≡ b ∷ updates order f bs
updates-suc [] f b bs = refl
updates-suc (k ∷ order) f b bs = updates-suc order f b (update k f bs)

pub updates-numbers :
    (f : List ℕ → List ℕ) (bs : List (List ℕ)) → updates (numbers (length bs)) f bs ≡ map f bs
updates-numbers f [] = refl
updates-numbers f (b ∷ bs) =
    updates-suc (numbers (length bs)) f (f b) bs ∙ ap (◌∷◌ (f b)) (updates-numbers f bs)

pub numbers-below : (n : ℕ) → All (λ k. k < n) (numbers n)
numbers-below zero = tt
numbers-below (suc n) = (omega arith, shift (numbers n) (numbers-below n))
  where
    shift : (ks : List ℕ) → All (λ k. k < n) ks → All (λ k. k < suc n) (map suc ks)
    shift [] h = tt
    shift (k ∷ ks) h = (omega (arith, h.0), shift ks h.1)

-- The jobs of a step, each executed once, in any order, change every partition by itself.
pub run_step-any_order :
    (size : ℕ) (order : List ℕ) (bs : List (List ℕ))
    → Perm (numbers (length bs)) order
    → Sized size bs
    → run_step size order (concat bs) ≡ concat (map (merge_halves size) bs)
run_step-any_order size order bs p v =
    run_step-concat size order bs v (All-Perm (λ k. le_prop) p (numbers-below (length bs)))
    ∙ ∥∥₁_elim p (is_set ℕ_set _ _) (λ d.
      ap concat
        (sym (updates-permᴰ (merge_halves size) d bs) ∙ updates-numbers (merge_halves size) bs))
