-- ===== src/System/Joins.antt =====
-- What the joins of terminate_all_workers leave.
use boost_threadpool.Common.{ℕ, ◌≡◌, ◌⊎◌, some, List, get_elem?}
use boost_threadpool.Core.State.{Phase, exited, joined}

module _ {Task : Type 0} where
  Joined : List (Phase Task) → ℕ → Type 0
  Joined ws v = get_elem? ws v ≡ some joined

  Ended : List (Phase Task) → ℕ → Type 0
  Ended ws v = (get_elem? ws v ≡ some exited) ⊎ (get_elem? ws v ≡ some joined)
