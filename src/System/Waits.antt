-- ===== src/System/Waits.antt =====
-- When a call of `wait` or terminate_all_workers may return.
use boost_threadpool.Common.{ℕ, ◌≡◌, refl, ◌⊎◌, Bool, true, false, some, length, get_elem?}
use boost_threadpool.Scheduling.Interface.{Scheduler}
use boost_threadpool.Core.State.{Goal, at_most, none_active, returned, Pool}
use boost_threadpool.Core.Waiting.{finish, must_wait}
use boost_threadpool.System.Steps.{
  Event, Step, schedules, refuses, clears, resizes, waits, waits_timed, terminates, fetches,
  resumes, wakes, ends_task, destructs, dies, client_resumes, client_wakes, client_times_out,
}

module _ {Task Container : Type 0} where
  pub finish_clients : (goal : Goal) (p : Pool Task Container) → (finish goal p).clients ≡ p.clients
  unfolding finish
  finish_clients (at_most timed k) p = refl
  finish_clients none_active p = refl

module _ {Task Container : Type 0} (S : Scheduler Task Container) (i : ℕ) where
  -- In this step, client `i` tests the condition of `goal`: it calls `wait`, with or without a time limit,
  -- or terminate_all_workers(true), or it comes back to the loop of such a call after a notification.
  abbrev pub Tests :
      {callable : Task → Bool} {p q : Pool Task Container} {e : Event Task}
      → Goal
      → Step S callable p e q
      → Type 0
  Tests goal (schedules chosen t pick h) = ⊥
  Tests goal (refuses chosen t h) = ⊥
  Tests goal clears = ⊥
  Tests goal (resizes threads n h) = ⊥
  Tests {p} goal (waits k) = (i ≡ length p.clients) × (goal ≡ at_most false k)
  Tests {p} goal (waits_timed k) = (i ≡ length p.clients) × (goal ≡ at_most true k)
  Tests {p} goal (terminates true) = (i ≡ length p.clients) × (goal ≡ none_active)
  Tests goal (terminates false) = ⊥
  Tests goal (fetches w h e) = ⊥
  Tests goal (resumes w h e) = ⊥
  Tests goal (wakes w h) = ⊥
  Tests goal (ends_task w t thrown h) = ⊥
  Tests goal (destructs w h) = ⊥
  Tests goal (dies threads w h) = ⊥
  Tests goal (client_resumes j g h) = (i ≡ j) × (goal ≡ g)
  Tests goal (client_wakes j g h) = ⊥
  Tests goal (client_times_out j k h) = ⊥

  -- Client `i` has returned if it had before, or if it is the client `j` and need not wait for `goal`.
  abbrev Finds : (goal : Goal) (j : ℕ) (p q : Pool Task Container) → Type 0
  Finds goal j p q =
      get_elem? q.clients i ≡ some returned
      → (get_elem? p.clients i ≡ some returned) ⊎ ((i ≡ j) × (must_wait S goal p ≡ false))

  abbrev Frees : (p q : Pool Task Container) → Type 0
  Frees p q = get_elem? q.clients i ≡ some returned → get_elem? p.clients i ≡ some returned
