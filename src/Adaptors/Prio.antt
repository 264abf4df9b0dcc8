-- ===== src/Adaptors/Prio.antt =====
-- prio_task_func, and the priority pool's order by it.
use boost_threadpool.Common.{ℕ, ◌≤◌, ◌≡◌, Bool, true, false, Option, arith, ltb}

-- `task_func` is a function object that may be empty.
pub record PrioTask (Function : Type 0) : Type 0 where
  pub priority : ℕ  -- unsigned int
  pub function : Option Function

module _ {Function : Type 0} where
  unfoldable pub prio_task_func : ℕ → Option Function → PrioTask Function
  prio_task_func priority function = record { priority = priority; function = function }

  -- operator(): the function that is called; an empty one is not
  unfoldable pub call : PrioTask Function → Option Function
  call t = t.function

  -- operator<
  unfoldable pub less : PrioTask Function → PrioTask Function → Bool
  less t rhs = ltb t.priority rhs.priority

  pub less_irreflexive : (t : PrioTask Function) → less t t ≡ false
  unfolding less
  less_irreflexive t = ground arith

  pub less_transitive :
      (t u v : PrioTask Function) → less t u ≡ true → less u v ≡ true → less t v ≡ true
  unfolding less
  less_transitive t u v h k = ground arith

  pub le_of_not_less : (t u : PrioTask Function) → less t u ≡ false → u.priority ≤ t.priority
  unfolding less
  le_of_not_less t u h = ground arith
