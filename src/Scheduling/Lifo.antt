-- ===== src/Scheduling/Lifo.antt =====
-- lifo_scheduler.
use mathlib.Core.List.Perm
use boost_threadpool.Common.{
  ℕ, ◌≡◌, refl, Bool, true, false, Option, some, List, [], ◌∷◌, Perm, arith, length, ◌==◌,
}
use boost_threadpool.Scheduling.Interface.{Scheduler, Lawful}
use boost_threadpool.Scheduling.Containers.{push_front, pop_front, front, is_empty}

module _ {Task : Type 0} where
  unfoldable pub push : Task → List Task → List Task × Bool
  unfolding push_front
  push task container = (push_front task container, true)

  unfoldable pub pop : List Task → Option (List Task)
  unfolding pop_front
  pop container = pop_front container

  unfoldable pub top : List Task → Option Task
  unfolding front
  top container = front container

  unfoldable pub size : List Task → ℕ
  size container = length container

  unfoldable pub empty : List Task → Bool
  unfolding is_empty
  empty container = is_empty container

  unfoldable pub clear : List Task → List Task
  clear container = []

  abbrev pub lifo_scheduler : Scheduler Task (List Task)
  lifo_scheduler = record {
    created = [];
    push = push;
    pop = pop;
    top = top;
    size = size;
    empty = empty;
    clear = clear;
  }

  pub empty-size : (c : List Task) → empty c ≡ (size c == 0)
  unfolding empty size
  empty-size [] = refl
  empty-size (t ∷ c) = ground arith

  pub takes :
      (c : List Task)
      → empty c ≡ false
      → (t : Task) × (c' : List Task) × (top c ≡ some t) × (pop c ≡ some c') × Perm c (t ∷ c')
  unfolding empty top pop
  takes [] h = cc
  takes (t ∷ c) h = (t, c, refl, refl, Perm.rfl)

  pub accepted : (t : Task) (c : List Task) → (push t c).1 ≡ true → Perm (push t c).0 (t ∷ c)
  unfolding push
  accepted t c h = Perm.rfl

  pub refused : (t : Task) (c : List Task) → (push t c).1 ≡ false → (push t c).0 ≡ c
  unfolding push
  refused t c h = cc

  pub size-length : (c : List Task) → size c ≡ length c
  unfolding size
  size-length c = refl

  pub clear-nil : (c : List Task) → clear c ≡ []
  unfolding clear
  clear-nil c = refl

  abbrev pub lifo_lawful : Lawful lifo_scheduler
  lifo_lawful = record {
    tasks = λ c. c;
    tasks_created = refl;
    accepted = accepted;
    refused = refused;
    size_tasks = size-length;
    empty_size = empty-size;
    takes = takes;
    cleared = clear-nil;
  }
