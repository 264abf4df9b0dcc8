-- ===== src/Scheduling/Prio.antt =====
-- prio_scheduler, over the comparison `less` of its tasks.
use mathlib.Core.List.{perm_append_singleton}
use boost_threadpool.Common.{
  ℕ, zero, suc, ◌≡◌, refl, Bool, true, false, Option, none, some, List, [], ◌∷◌, Perm, arith,
  length, ◌==◌, if◌then◌else◌,
}
use boost_threadpool.Scheduling.Interface.{Scheduler, Lawful}
use boost_threadpool.Scheduling.Containers.{
  push_back, is_empty, select, queue_top, queue_pop, select-perm, length-select,
}

module _ {Task : Type 0} (less : Task → Task → Bool) where
  unfoldable pub push : Task → List Task → List Task × Bool
  unfolding push_back
  push task container = (push_back task container, true)

  unfoldable pub pop : List Task → Option (List Task)
  unfolding queue_pop
  pop container = queue_pop less container

  unfoldable pub top : List Task → Option Task
  unfolding queue_top
  top container = queue_top less container

  unfoldable pub size : List Task → ℕ
  size container = length container

  unfoldable pub empty : List Task → Bool
  unfolding is_empty
  empty container = is_empty container

  -- `while(!m_container.empty()) m_container.pop();` with fuel
  unfoldable pub clear_loop : ℕ → List Task → List Task
  unfolding empty pop
  clear_loop zero container = container
  clear_loop (suc fuel) container =
      let rest : List Task = elim (pop container) [
        | none ↦ container
        | some c ↦ clear_loop fuel c
      ] in
      if empty container then container else rest

  unfoldable pub clear : List Task → List Task
  unfolding clear_loop
  clear container = clear_loop (length container) container

  abbrev pub prio_scheduler : Scheduler Task (List Task)
  prio_scheduler = record {
    created = [];
    push = push;
    pop = pop;
    top = top;
    size = size;
    empty = empty;
    clear = clear;
  }

  pub empty-size : (c : List Task) → empty c ≡ (size c == 0)
  unfolding empty size
  empty-size [] = refl
  empty-size (t ∷ c) = ground arith

  pub takes :
      (c : List Task)
      → empty c ≡ false
      → (t : Task) × (c' : List Task) × (top c ≡ some t) × (pop c ≡ some c') × Perm c (t ∷ c')
  unfolding empty top pop
  takes [] h = cc
  takes (t ∷ c) h = ((select less t c).0, (select less t c).1, refl, refl, select-perm less t c)

  pub accepted : (t : Task) (c : List Task) → (push t c).1 ≡ true → Perm (push t c).0 (t ∷ c)
  unfolding push
  accepted t c h = perm_append_singleton t c

  pub refused : (t : Task) (c : List Task) → (push t c).1 ≡ false → (push t c).0 ≡ c
  unfolding push
  refused t c h = cc

  pub size-length : (c : List Task) → size c ≡ length c
  unfolding size
  size-length c = refl

  -- As many rounds as there are tasks empty the queue.
  pub clear_loop-nil : (fuel : ℕ) (c : List Task) → length c ≡ fuel → clear_loop fuel c ≡ []
  unfolding clear_loop
  clear_loop-nil zero [] h = refl
  clear_loop-nil zero (t ∷ c) h = absurd (omega arith)
  clear_loop-nil (suc fuel) [] h = refl
  clear_loop-nil (suc fuel) (t ∷ c) h =
      clear_loop-nil fuel (select less t c).1 (omega (arith, length-select less t c))

  pub clear-nil : (c : List Task) → clear c ≡ []
  unfolding clear
  clear-nil c = clear_loop-nil (length c) c refl

  abbrev pub prio_lawful : Lawful prio_scheduler
  prio_lawful = record {
    tasks = λ c. c;
    tasks_created = refl;
    accepted = accepted;
    refused = refused;
    size_tasks = size-length;
    empty_size = empty-size;
    takes = takes;
    cleared = clear-nil;
  }
