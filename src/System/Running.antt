-- ===== src/System/Running.antt =====
-- The tasks that the workers are executing.
use mathlib.Core.List.{perm_append_comm}
use mathlib.Core.List.Perm
use boost_threadpool.Common.{
  ℕ, zero, suc, ◌≡◌, refl, ap, ◌∙◌, some, List, [], ◌∷◌, ◌++◌, Perm, map, get_elem?, set,
  append_assoc,
}
use boost_threadpool.Core.State.{
  Phase, fetching, waiting, woken, running, leaving, dying, exited, joined,
}
use boost_threadpool.Core.Notify.{wake, wake_at}
use boost_threadpool.Core.Waiting.{join, join_at, join_all}

pub perm_left_comm {ℓ} :
    {A : Type ℓ} (xs ys zs : List A) → Perm (xs ++ (ys ++ zs)) (ys ++ (xs ++ zs))
perm_left_comm xs ys zs =
    rw (← append_assoc xs ys zs, ← append_assoc ys xs zs)
      (Perm.append_right zs (perm_append_comm xs ys))

module _ {Task : Type 0} where
  abbrev pub task_of : Phase Task → List Task
  task_of (running t) = t ∷ []
  task_of fetching = []
  task_of waiting = []
  task_of woken = []
  task_of leaving = []
  task_of dying = []
  task_of exited = []
  task_of joined = []

  abbrev pub running_tasks : List (Phase Task) → List Task
  running_tasks [] = []
  running_tasks (p ∷ ps) = task_of p ++ running_tasks ps

  task_of-wake : (p : Phase Task) → task_of (wake p) ≡ task_of p
  task_of-wake fetching = refl
  task_of-wake _ = refl

  task_of-join : (p : Phase Task) → task_of (join p) ≡ task_of p
  task_of-join fetching = refl
  task_of-join _ = refl

  pub running_tasks-wake : (ps : List (Phase Task)) → running_tasks (map wake ps) ≡ running_tasks ps
  running_tasks-wake [] = refl
  running_tasks-wake (p ∷ ps) = rw (task_of-wake p, running_tasks-wake ps)

  pub running_tasks-wake_at :
      (i : ℕ) (ps : List (Phase Task)) → running_tasks (wake_at i ps) ≡ running_tasks ps
  unfolding wake_at
  running_tasks-wake_at i [] = refl
  running_tasks-wake_at zero (p ∷ ps) = rw (task_of-wake p)
  running_tasks-wake_at (suc i) (p ∷ ps) = rw (running_tasks-wake_at i ps)

  running_tasks-join_at :
      (i : ℕ) (ps : List (Phase Task)) → running_tasks (join_at i ps) ≡ running_tasks ps
  unfolding join_at
  running_tasks-join_at i [] = refl
  running_tasks-join_at zero (p ∷ ps) = rw (task_of-join p)
  running_tasks-join_at (suc i) (p ∷ ps) = rw (running_tasks-join_at i ps)

  pub running_tasks-join_all :
      (is : List ℕ) (ps : List (Phase Task)) → running_tasks (join_all is ps) ≡ running_tasks ps
  unfolding join_all
  running_tasks-join_all [] ps = refl
  running_tasks-join_all (i ∷ is) ps =
      running_tasks-join_all is (join_at i ps) ∙ running_tasks-join_at i ps

  -- A new thread runs no task.
  pub running_tasks-attach :
      (ps : List (Phase Task)) → running_tasks (ps ++ fetching ∷ []) ≡ running_tasks ps
  running_tasks-attach [] = refl
  running_tasks-attach (p ∷ ps) = rw (running_tasks-attach ps)

  -- Replacing one worker exchanges its task.
  pub running_tasks-set :
      (ps : List (Phase Task)) (w : ℕ) (a b : Phase Task)
      → get_elem? ps w ≡ some a
      → Perm (task_of b ++ running_tasks ps) (task_of a ++ running_tasks (set ps w b))
  running_tasks-set [] w a b h = cc
  running_tasks-set (p ∷ ps) zero a b h =
      let e : p ≡ a = cc in rw e (perm_left_comm (task_of b) (task_of a) (running_tasks ps))
  running_tasks-set (p ∷ ps) (suc w) a b h =
      Perm.trans (perm_left_comm (task_of b) (task_of p) (running_tasks ps)) (
        Perm.trans (Perm.append_left (task_of p) (running_tasks-set ps w a b h))
          (perm_left_comm (task_of p) (task_of a) (running_tasks (set ps w b))))

  pub running_tasks-set_idle :
      (ps : List (Phase Task)) (w : ℕ) (a b : Phase Task)
      → get_elem? ps w ≡ some a
      → task_of a ≡ []
      → task_of b ≡ []
      → running_tasks (set ps w b) ≡ running_tasks ps
  running_tasks-set_idle [] w a b h e f = refl
  running_tasks-set_idle (p ∷ ps) zero a b h e f =
      let k : task_of p ≡ [] = (ap task_of (cc) ∙ e) in rw (f, k)
  running_tasks-set_idle (p ∷ ps) (suc w) a b h e f = rw (running_tasks-set_idle ps w a b h e f)
