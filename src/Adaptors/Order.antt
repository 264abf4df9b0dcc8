-- ===== src/Adaptors/Order.antt =====
-- The priorities in which a pool of prioritised tasks hands out its tasks, and a sort of the priorities.
use mathlib.Core.List.Perm
use native.Mathlib.Bridge.{le_prop}
use boost_threadpool.Common.{
  ℕ, ◌+◌, ◌≤◌, ◌≡◌, refl, ap, sym, subst, false, List, [], ◌∷◌, ◌++◌, Perm, arith, map, length, leb,
  if_cases, if◌then◌else◌, All, All-Perm, All-map, perm-length,
}
use boost_threadpool.Scheduling.Runs.{push_all, take_all}
use boost_threadpool.Scheduling.Prio.{prio_scheduler}
use boost_threadpool.Scheduling.Order.{Descending, prio_order}
use boost_threadpool.Adaptors.Prio.{
  PrioTask, less, less_irreflexive, less_transitive, le_of_not_less,
}

-- A number goes before the first that is not greater.
unfoldable pub insert : ℕ → List ℕ → List ℕ
insert n [] = n ∷ []
insert n (m ∷ ms) = let rest = insert n ms in if leb m n then n ∷ m ∷ ms else m ∷ rest

unfoldable pub sort_descending : List ℕ → List ℕ
unfolding insert
sort_descending [] = []
sort_descending (n ∷ ns) = insert n (sort_descending ns)

abbrev Falling : List ℕ → Type 0
Falling [] = Unit
Falling (n ∷ ns) = All (λ m. m ≤ n) ns × Falling ns

insert-Perm : (n : ℕ) (ms : List ℕ) → Perm (n ∷ ms) (insert n ms)
unfolding insert
insert-Perm n [] = Perm.rfl
insert-Perm n (m ∷ ms) =
    if_cases (Perm (n ∷ m ∷ ms)) (leb m n) _ _ (λ _. Perm.rfl)
      (λ _. Perm.trans (Perm.swap m n ms) (Perm.cons m (insert-Perm n ms)))

sort-Perm : (ns : List ℕ) → Perm ns (sort_descending ns)
unfolding sort_descending
sort-Perm [] = Perm.rfl
sort-Perm (n ∷ ns) = Perm.trans (Perm.cons n (sort-Perm ns)) (insert-Perm n (sort_descending ns))

insert-Falling : (n : ℕ) (ms : List ℕ) → Falling ms → Falling (insert n ms)
unfolding insert
insert-Falling n [] h = (tt, tt)
insert-Falling n (m ∷ ms) h =
    if_cases Falling (leb m n) _ _
      (λ e. ((ground arith, All-map (λ k. k ≤ m) (λ k. k ≤ n) (λ k l. ground arith) ms h.0), h))
      (λ e.
        (All-Perm (λ k. le_prop) (insert-Perm n ms) (ground arith, h.0), insert-Falling n ms h.1))

sort-Falling : (ns : List ℕ) → Falling (sort_descending ns)
unfolding sort_descending
sort-Falling [] = tt
sort-Falling (n ∷ ns) = insert-Falling n (sort_descending ns) (sort-Falling ns)

-- There is one falling arrangement.
Falling-unique : (ms ns : List ℕ) → Perm ms ns → Falling ms → Falling ns → ms ≡ ns
Falling-unique [] [] p h k = refl
Falling-unique [] (n ∷ ns) p h k = absurd (omega (arith, perm-length p))
Falling-unique (m ∷ ms) [] p h k = absurd (omega (arith, perm-length p))
Falling-unique (m ∷ ms) (n ∷ ns) p h k =
    let below : (n ≤ m) × All (λ j. j ≤ m) ns = All-Perm (λ j. le_prop) p (omega arith, h.0) in
    let above : (m ≤ n) × All (λ j. j ≤ n) ms =
      All-Perm (λ j. le_prop) (Perm.symm p) (omega arith, k.0) in
    let e : m ≡ n = omega (arith, below.0, above.0) in
    let rest =
      Falling-unique ms ns (Perm.cons_inv (subst (λ j. Perm (m ∷ ms) (j ∷ ns)) (sym e) p)) h.1
        k.1 in
    subst (λ j. m ∷ ms ≡ j ∷ ns) e (ap (◌∷◌ m) rest)

module _ {Function : Type 0} where
  abbrev priorities : List (PrioTask Function) → List ℕ
  priorities ts = map (λ t. t.priority) ts

  below-All :
      (t : PrioTask Function) (us : List (PrioTask Function))
      → All (λ u. less t u ≡ false) us
      → All (λ n. n ≤ t.priority) (priorities us)
  below-All t [] h = tt
  below-All t (u ∷ us) h = (le_of_not_less t u h.0, below-All t us h.1)

  Descending-Falling :
      (ts : List (PrioTask Function)) → Descending less ts → Falling (priorities ts)
  Descending-Falling [] h = tt
  Descending-Falling (t ∷ ts) h = (below-All t ts h.0, Descending-Falling ts h.1)

  -- The queue of a pool of prioritised tasks, emptied one task after the other, hands out the priorities of
  -- its old and new tasks just as an insertion sort from the highest to the lowest puts them.
  pub prio_sorts :
      (ts c : List (PrioTask Function))
      → map
          (λ t. t.priority)
          (take_all
            (prio_scheduler less)
            (length c + length ts)
            (push_all (prio_scheduler less) ts c))
        ≡ sort_descending (map (λ t. t.priority) (c ++ ts))
  prio_sorts ts c =
      let (falls, same) = prio_order less less_irreflexive less_transitive ts c in
      Falling-unique _ _
        (Perm.trans (Perm.map (λ (t : PrioTask Function). t.priority) (Perm.symm same))
          (sort-Perm (priorities (c ++ ts))))
        (Descending-Falling _ falls) (sort-Falling (priorities (c ++ ts)))
