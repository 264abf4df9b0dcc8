-- ===== src/ThreadPool/Promises.antt =====
-- What schedule of future.hpp gives its caller.
use native.Mathlib.Bridge.{le_prop}
use boost_threadpool.Common.{
  ℕ, suc, ◌<◌, ◌≡◌, ◌≢◌, ◌⊎◌, sym, subst, refl, inl, inr, Bool, true, false, some, [], ◌∷◌, ◌++◌,
  Perm, arith, length, length-append, get_elem?, get_elem?-append, All, All-map, All-Perm,
  Bool-cases,
}
use mathlib.Core.List.Perm
use boost_threadpool.Scheduling.Interface.{Scheduler, Lawful}
use boost_threadpool.Core.State.{Pool}
use boost_threadpool.Core.Tasks.{schedule}
use boost_threadpool.Futures.Impl.{future_impl}
use boost_threadpool.ThreadPool.Schedule.{FutureTask, FuturePool, schedule_future}

schedule_cases :
    {Task Container : Type 0} {S : Scheduler Task Container} (L : Lawful S) (chosen : ℕ) (t : Task)
    (p : Pool Task Container)
    → (((S.push t p.scheduler).1 ≡ true)
        × Perm (L.tasks (schedule S chosen t p).0.scheduler) (t ∷ L.tasks p.scheduler))
      ⊎ (((S.push t p.scheduler).1 ≡ false) × ((schedule S chosen t p).0 ≡ p))
unfolding schedule
schedule_cases {S} L chosen t p = elim (Bool-cases (S.push t p.scheduler).1) [
  | inl e ↦ inl (e, simp e (L.accepted t p.scheduler e))
  | inr e ↦ inr (e, simp (e, L.refused t p.scheduler e))
]

module _ {Result Function Container : Type 0} {S : Scheduler (FutureTask Function) Container}
    (L : Lawful S) where
  -- Each pending task refers to a future that was made.
  abbrev pub Known : FuturePool Result Function Container → Type 0
  Known p = All (λ t. t.future < length p.store) (L.tasks p.pool.scheduler)

  -- schedule of future.hpp makes one new future, neither ready nor cancelled, keeps the others, and returns
  -- the new one. If the scheduler accepts the task for it, the pool has that task among its pending tasks,
  -- each once; and if the scheduler refuses it, the pool is as it was: then no pending task refers to the
  -- future, though the caller gets it all the same.
  pub schedule_future_result :
      (chosen : ℕ) (junk : Result) (executing : Bool) (task : Function)
      (p : FuturePool Result Function Container)
      → Known p
      → let r = schedule_future S chosen junk executing task p in
        let t : FutureTask Function = record { function = task; future = r.1 } in
        Known r.0
        × (r.0.store ≡ p.store ++ future_impl junk executing ∷ [])
        × (get_elem? r.0.store r.1 ≡ some (future_impl junk executing))
        × ((((S.push t p.pool.scheduler).1 ≡ true)
              × Perm (L.tasks r.0.pool.scheduler) (t ∷ L.tasks p.pool.scheduler))
            ⊎ (((S.push t p.pool.scheduler).1 ≡ false)
                × (r.0.pool ≡ p.pool)
                × All (λ u. u.future ≢ r.1) (L.tasks r.0.pool.scheduler)))
  unfolding schedule_future
  schedule_future_result chosen junk executing task p v = elim (schedule_cases L chosen t p.pool) [
    | inl (e, perm) ↦
        (All-Perm (λ a. le_prop) (Perm.symm perm) (here, others), refl, new, inl (e, perm))
    | inr (e, same) ↦ (
      subst (λ q. All Fits (L.tasks q.scheduler)) (sym same) others,
      refl,
      new,
      inr (
        e,
        same,
        subst (λ q. All (λ u. u.future ≢ length p.store) (L.tasks q.scheduler)) (sym same) apart,
      ),
    )
  ]
    where
      t : FutureTask Function
      t = record { function = task; future = length p.store }

      Fits : FutureTask Function → Type 0
      Fits u = u.future < length (p.store ++ future_impl junk executing ∷ [])

      grows : length (p.store ++ future_impl junk executing ∷ []) ≡ suc (length p.store)
      grows = omega (arith, length-append p.store (future_impl junk executing ∷ []))

      here : Fits t
      here = omega (arith, grows)

      others : All Fits (L.tasks p.pool.scheduler)
      others = All-map _ Fits (λ u h. omega (arith, h, grows)) (L.tasks p.pool.scheduler) v

      apart : All (λ u. u.future ≢ length p.store) (L.tasks p.pool.scheduler)
      apart = All-map _ _ (λ u h e. absurd (omega arith)) (L.tasks p.pool.scheduler) v

      new :
          get_elem? (p.store ++ future_impl junk executing ∷ []) (length p.store)
          ≡ some (future_impl junk executing)
      new = get_elem?-append p.store (future_impl junk executing)
