-- ===== src/Scheduling/Interface.antt =====
-- The SchedulingPolicy concept of boost/threadpool/scheduling_policies.hpp: the members that
-- pool_core calls, and what it relies on.
use boost_threadpool.Common.{
  ℕ, ◌≡◌, Bool, true, false, Option, some, List, [], ◌∷◌, Perm, length, ◌==◌,
}

-- `none` is undefined behaviour: `top` or `pop` of an empty container.
pub record Scheduler (Task Container : Type 0) : Type 0 where
  pub created : Container
  pub push : Task → Container → Container × Bool
  pub pop : Container → Option Container
  pub top : Container → Option Task
  pub size : Container → ℕ
  pub empty : Container → Bool
  pub clear : Container → Container

-- A container seen as the list of its tasks, up to their order.
pub record Lawful {Task Container : Type 0} (S : Scheduler Task Container) : Type 0 where
  pub tasks : Container → List Task
  pub tasks_created : tasks S.created ≡ []
  pub accepted :
      (t : Task) (c : Container) → (S.push t c).1 ≡ true → Perm (tasks (S.push t c).0) (t ∷ tasks c)
  pub refused : (t : Task) (c : Container) → (S.push t c).1 ≡ false → (S.push t c).0 ≡ c
  pub size_tasks : (c : Container) → S.size c ≡ length (tasks c)
  pub empty_size : (c : Container) → S.empty c ≡ (S.size c == 0)
  pub takes :
      (c : Container)
      → S.empty c ≡ false
      → (t : Task) × (c' : Container) × (S.top c ≡ some t)
        × (S.pop c ≡ some c')
        × Perm (tasks c) (t ∷ tasks c')
  pub cleared : (c : Container) → tasks (S.clear c) ≡ []
