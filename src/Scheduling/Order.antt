-- ===== src/Scheduling/Order.antt =====
-- The order in which each policy hands out its tasks.
use mathlib.Core.List.{reverse, reverse-cons, append-nil, append_assoc}
use mathlib.Core.Bool.{false≢true, Bool-set}
use boost_threadpool.Common.{
  subst, Perm, ℕ, zero, suc, ◌+◌, ◌≡◌, refl, sym, ap, ◌∙◌, Bool, true, false, List, [], ◌∷◌, ◌++◌,
  arith, length, All, ◌⊎◌, inl, inr, Bool-cases, length-append, All-Perm,
}
use boost_threadpool.Scheduling.Containers.{select, length-select}
use boost_threadpool.Scheduling.Runs.{push_all, take_all, take_all-perm}
use boost_threadpool.Scheduling.Fifo.{fifo_scheduler}
use boost_threadpool.Scheduling.Lifo.{lifo_scheduler}
use boost_threadpool.Scheduling.Prio.{prio_scheduler, prio_lawful, size-length}
use boost_threadpool.Scheduling.Fifo
use boost_threadpool.Scheduling.Lifo
use boost_threadpool.Scheduling.Prio

module _ {Task : Type 0} where
  fifo_push_all : (ts c : List Task) → push_all fifo_scheduler ts c ≡ c ++ ts
  unfolding push_all Fifo.push
  fifo_push_all [] c = sym (append-nil c)
  fifo_push_all (t ∷ ts) c = fifo_push_all ts (c ++ t ∷ []) ∙ append_assoc c (t ∷ []) ts

  fifo_take_all : (c : List Task) → take_all fifo_scheduler (length c) c ≡ c
  unfolding take_all Fifo.top Fifo.pop
  fifo_take_all [] = refl
  fifo_take_all (t ∷ c) = ap (◌∷◌ t) (fifo_take_all c)

  -- First in, first out: a fifo scheduler hands out the tasks that were there, then the new ones
  -- in the order in which they were pushed.
  pub fifo_order :
      (ts c : List Task)
      → take_all fifo_scheduler (length c + length ts) (push_all fifo_scheduler ts c) ≡ c ++ ts
  fifo_order ts c = rw (fifo_push_all ts c, ← length-append c ts) (fifo_take_all (c ++ ts))

  lifo_push_all : (ts c : List Task) → push_all lifo_scheduler ts c ≡ reverse ts ++ c
  unfolding push_all Lifo.push
  lifo_push_all [] c = refl
  lifo_push_all (t ∷ ts) c =
      lifo_push_all ts (t ∷ c)
      ∙ sym (append_assoc (reverse ts) (t ∷ []) c)
      ∙ ap (λ l. l ++ c) (sym (reverse-cons t ts))

  lifo_take_all : (c : List Task) → take_all lifo_scheduler (length c) c ≡ c
  unfolding take_all Lifo.top Lifo.pop
  lifo_take_all [] = refl
  lifo_take_all (t ∷ c) = ap (◌∷◌ t) (lifo_take_all c)

  length-reverse : (xs : List Task) → length (reverse xs) ≡ length xs
  length-reverse [] = refl
  length-reverse (x ∷ xs) =
      omega (
        arith,
        ap length (reverse-cons x xs),
        length-append (reverse xs) (x ∷ []),
        length-reverse xs,
      )

  -- Last in, first out: a lifo scheduler hands out the new tasks from the last pushed to the first,
  -- then those that were there.
  pub lifo_order :
      (ts c : List Task)
      → take_all lifo_scheduler (length ts + length c) (push_all lifo_scheduler ts c)
        ≡ reverse ts ++ c
  lifo_order ts c =
      rw (lifo_push_all ts c, ← length-reverse ts, ← length-append (reverse ts) c)
        (lifo_take_all (reverse ts ++ c))

-- No task is followed by one that it is less than.
abbrev pub Descending : {Task : Type 0} → (Task → Task → Bool) → List Task → Type 0
Descending less [] = Unit
Descending less (t ∷ ts) = All (λ u. less t u ≡ false) ts × Descending less ts

module _ {Task : Type 0} (less : Task → Task → Bool) (irreflexive : (t : Task) → less t t ≡ false)
    (transitive : (t u v : Task) → less t u ≡ true → less u v ≡ true → less t v ≡ true) where
  abbrev Ge : Task → Task → Type 0
  Ge m t = (t ≡ m) ⊎ (less t m ≡ true)

  Ge_of_less : (t u m : Task) → less t u ≡ true → Ge m u → less t m ≡ true
  Ge_of_less t u m e (inl f) = rw (← f) e
  Ge_of_less t u m e (inr f) = transitive t u m e f

  loser_below : (t m : Task) → less t m ≡ true → less m t ≡ false
  loser_below t m e = elim (Bool-cases (less m t)) [
    | inl f ↦ absurd (false≢true (sym (irreflexive t) ∙ transitive t m t e f))
    | inr f ↦ f
  ]

  loser_beside : (t u m : Task) → less t u ≡ false → Ge m t → less m u ≡ false
  loser_beside t u m e (inl f) = rw (← f) e
  loser_beside t u m e (inr f) = elim (Bool-cases (less m u)) [
    | inl g ↦ absurd (false≢true (sym e ∙ transitive t m u f g))
    | inr g ↦ g
  ]

  select-Ge : (t : Task) (c : List Task) → Ge (select less t c).0 t
  unfolding select
  select-Ge t [] = inl refl
  select-Ge t (u ∷ c) = elim (Bool-cases (less t u)) [
    | inl e ↦ rw e (inr (Ge_of_less t u _ e (select-Ge u c)))
    | inr e ↦ rw e (select-Ge t c)
  ]

  abbrev IsTop : Task × List Task → Type 0
  IsTop p = All (λ u. less p.0 u ≡ false) p.1

  select_win :
      (t u : Task) (c : List Task)
      → less t u ≡ true
      → select less t (u ∷ c) ≡ ((select less u c).0, t ∷ (select less u c).1)
  unfolding select
  select_win t u c e = rw e

  select_stay :
      (t u : Task) (c : List Task)
      → less t u ≡ false
      → select less t (u ∷ c) ≡ ((select less t c).0, u ∷ (select less t c).1)
  unfolding select
  select_stay t u c e = rw e

  -- The selected task is less than none of the others.
  pub select_max : (t : Task) (c : List Task) → IsTop (select less t c)
  unfolding select
  select_max t [] = tt
  select_max t (u ∷ c) = elim (Bool-cases (less t u)) [
    | inl e ↦
        subst IsTop (sym (select_win t u c e))
          (loser_below t _ (Ge_of_less t u _ e (select-Ge u c)), select_max u c)
    | inr e ↦
        subst IsTop (sym (select_stay t u c e))
          (loser_beside t u _ e (select-Ge t c), select_max t c)
  ]

  prio_take_all :
      (n : ℕ) (c : List Task) → length c ≡ n → Descending less (take_all (prio_scheduler less) n c)
  unfolding take_all Prio.top Prio.pop
  prio_take_all zero c h = tt
  prio_take_all (suc n) [] h = absurd (omega arith)
  prio_take_all (suc n) (t ∷ c) h =
      let (m, rest) = select less t c in
      let e : length rest ≡ n = omega (arith, length-select less t c) in
      (
        All-Perm (λ a. Bool-set _ _)
            (take_all-perm (prio_scheduler less) (prio_lawful less) n rest
              (size-length less rest ∙ e))
            (select_max t c),
        prio_take_all n rest e,
      )

  prio_push_all : (ts c : List Task) → push_all (prio_scheduler less) ts c ≡ c ++ ts
  unfolding push_all Prio.push
  prio_push_all [] c = sym (append-nil c)
  prio_push_all (t ∷ ts) c = prio_push_all ts (c ++ t ∷ []) ∙ append_assoc c (t ∷ []) ts

  -- With an irreflexive and transitive comparison, a priority scheduler hands out the tasks that
  -- were there and the new ones, each once, so that none is followed by a greater one.
  pub prio_order :
      (ts c : List Task)
      → let out =
          take_all
            (prio_scheduler less)
            (length c + length ts)
            (push_all (prio_scheduler less) ts c) in
        Descending less out × Perm (c ++ ts) out
  prio_order ts c = rw (prio_push_all ts c) (
    prio_take_all (length c + length ts) (c ++ ts) (length-append c ts),
    take_all-perm (prio_scheduler less) (prio_lawful less) _ (c ++ ts)
        (size-length less (c ++ ts) ∙ length-append c ts),
  )
