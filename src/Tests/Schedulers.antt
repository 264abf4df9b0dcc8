-- ===== src/Tests/Schedulers.antt =====
-- The three schedulers on small inputs.
use boost_threadpool.Common.{ℕ, ◌≡◌, refl, some, List, [], ◌∷◌, Perm, map}
use boost_threadpool.Scheduling.Runs.{push_all, take_all}
use boost_threadpool.Scheduling.Fifo.{fifo_scheduler}
use boost_threadpool.Scheduling.Lifo.{lifo_scheduler}
use boost_threadpool.Scheduling.Prio.{prio_scheduler}
use boost_threadpool.Scheduling.Prio
use boost_threadpool.Scheduling.Containers.{select}
use boost_threadpool.Scheduling.Order.{Descending, fifo_order, lifo_order, prio_order}
use boost_threadpool.Adaptors.Order.{sort_descending, prio_sorts}
use boost_threadpool.Adaptors.Prio.{PrioTask, less, less_irreflexive, less_transitive}

fifo_order_example :
    take_all {Task = ℕ} fifo_scheduler 3 (push_all fifo_scheduler (2 ∷ 3 ∷ []) (1 ∷ []))
    ≡ 1 ∷ 2 ∷ 3 ∷ []
fifo_order_example = fifo_order (2 ∷ 3 ∷ []) (1 ∷ [])

lifo_order_example :
    take_all {Task = ℕ} lifo_scheduler 3 (push_all lifo_scheduler (2 ∷ 3 ∷ []) (1 ∷ []))
    ≡ 3 ∷ 2 ∷ 1 ∷ []
lifo_order_example = lifo_order (2 ∷ 3 ∷ []) (1 ∷ [])

-- The tasks of the tutorial, with their priorities.
abbrev tutorial : List (PrioTask ℕ)
tutorial = task 1 1 ∷ task 10 2 ∷ task 5 3 ∷ []
  where
    task : ℕ → ℕ → PrioTask ℕ
    task priority number = record { priority = priority; function = some number }

-- Highest priority first.
tutorial_order :
    map
      (λ (t : PrioTask ℕ). t.priority)
      (take_all (prio_scheduler less) 3 (push_all (prio_scheduler less) tutorial []))
    ≡ 10 ∷ 5 ∷ 1 ∷ []
unfolding push_all take_all Prio.push Prio.top Prio.pop select less
tutorial_order = refl

prio_clear : Prio.clear (less {Function = ℕ}) tutorial ≡ []
unfolding Prio.clear less select
prio_clear = refl

prio_order_example :
    let out = take_all (prio_scheduler less) 3 (push_all (prio_scheduler less) tutorial []) in
    Descending less out × Perm tutorial out
prio_order_example = prio_order less less_irreflexive less_transitive tutorial []

prio_sorts_example :
    map
      (λ (t : PrioTask ℕ). t.priority)
      (take_all (prio_scheduler less) 3 (push_all (prio_scheduler less) tutorial []))
    ≡ sort_descending (1 ∷ 10 ∷ 5 ∷ [])
prio_sorts_example = prio_sorts tutorial []
