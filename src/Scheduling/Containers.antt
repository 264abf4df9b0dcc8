-- ===== src/Scheduling/Containers.antt =====
-- The standard containers that the policies use: std::deque, and std::priority_queue over a
-- comparison `less`. `none` is undefined behaviour.
use mathlib.Core.List.Perm
use boost_threadpool.Common.{
  ◌≡◌, refl, Bool, true, false, Option, none, some, List, [], ◌∷◌, ◌++◌, Perm, arith, length,
  if◌then◌else◌, Bool-cases, inl, inr,
}

module _ {Task : Type 0} where
  unfoldable pub push_back : Task → List Task → List Task
  push_back t c = c ++ t ∷ []

  unfoldable pub push_front : Task → List Task → List Task
  push_front t c = t ∷ c

  unfoldable pub pop_front : List Task → Option (List Task)
  pop_front [] = none
  pop_front (t ∷ c) = some c

  unfoldable pub front : List Task → Option Task
  front [] = none
  front (t ∷ c) = some t

  unfoldable pub is_empty : List Task → Bool
  is_empty [] = true
  is_empty (t ∷ c) = false

-- A priority queue as the list of its elements in the order of insertion. C++ leaves open which of
-- several greatest elements is the top; here it is the oldest.
module _ {Task : Type 0} (less : Task → Task → Bool) where
  -- The greatest of `t` and the list, and the others.
  unfoldable pub select : Task → List Task → Task × List Task
  select t [] = (t, [])
  select t (u ∷ c) =
      let (m, rest) = select (if less t u then u else t) c in
      (m, (if less t u then t else u) ∷ rest)

  unfoldable pub queue_top : List Task → Option Task
  queue_top [] = none
  queue_top (t ∷ c) = some (select t c).0

  unfoldable pub queue_pop : List Task → Option (List Task)
  queue_pop [] = none
  queue_pop (t ∷ c) = some (select t c).1

  pub select-perm : (t : Task) (c : List Task) → Perm (t ∷ c) ((select t c).0 ∷ (select t c).1)
  unfolding select
  select-perm t [] = Perm.rfl
  select-perm t (u ∷ c) = elim (Bool-cases (less t u)) [
    | inl e ↦
        rw e
          (Perm.trans (Perm.cons t (select-perm u c)) (Perm.swap (select u c).0 t (select u c).1))
    | inr e ↦ rw e (
        Perm.trans (Perm.swap u t c)
          (Perm.trans (Perm.cons u (select-perm t c)) (Perm.swap (select t c).0 u (select t c).1)))
  ]

  pub length-select : (t : Task) (c : List Task) → length (select t c).1 ≡ length c
  unfolding select
  length-select t [] = refl
  length-select t (u ∷ c) = ground (arith, length-select u c, length-select t c)
