-- ===== src/Scheduling/Runs.antt =====
-- A scheduler on its own: tasks pushed one after the other, and taken until none is left.
use mathlib.Core.List.{reverse, reverse-cons, append_assoc}
use mathlib.Core.List.Perm
use boost_threadpool.Common.{
  ℕ, zero, suc, ◌≡◌, true, none, some, List, [], ◌∷◌, ◌++◌, ◌+◌, ap, ◌∙◌, length, Perm, arith,
  perm-length, nil_of_length, sym, subst,
}
use boost_threadpool.Scheduling.Interface.{Scheduler, Lawful}

module _ {Task Container : Type 0} (S : Scheduler Task Container) where
  unfoldable pub push_all : List Task → Container → Container
  push_all [] c = c
  push_all (t ∷ ts) c = push_all ts (S.push t c).0

  -- The tasks in the order in which `top` and `pop` hand them out, `n` at most.
  unfoldable pub take_all : ℕ → Container → List Task
  take_all zero c = []
  take_all (suc n) c = elim (S.top c) [
    | none ↦ []
    | some t ↦ elim (S.pop c) [ none ↦ [] | some c' ↦ t ∷ take_all n c' ]
  ]

  pub take_all-suc :
      (n : ℕ) (c : Container) (t : Task) (c' : Container)
      → S.top c ≡ some t
      → S.pop c ≡ some c'
      → take_all (suc n) c ≡ t ∷ take_all n c'
  unfolding take_all
  take_all-suc n c t c' h k = rw (h, take_all) (rw (k, take_all))

  -- The tasks that `top` and `pop` have handed out of `first`, the latest first, and what is left.
  pub data Takes (first : Container) : List Task → Container → Type 0 where
    none_yet : Takes first [] first
    one_more :
        {ts : List Task} {c d : Container} {t : Task}
        → Takes first ts c
        → S.top c ≡ some t
        → S.pop c ≡ some d
        → Takes first (t ∷ ts) d

  pub take_all-Takes :
      {first d : Container} {ts : List Task} (n : ℕ)
      → Takes first ts d
      → take_all (length ts + n) first ≡ reverse ts ++ take_all n d
  take_all-Takes n none_yet = ap (λ m. take_all m _) (omega arith)
  take_all-Takes {first} n (one_more {ts} {c} {d} {t} k h e) =
      ap (λ m. take_all m first) (omega arith)
      ∙ take_all-Takes (suc n) k
      ∙ ap (λ us. reverse ts ++ us) (take_all-suc n c t d h e)
      ∙ sym (append_assoc (reverse ts) (t ∷ []) (take_all n d))
      ∙ ap (λ us. us ++ take_all n d) (sym (reverse-cons t ts))

module _ {Task Container : Type 0} (S : Scheduler Task Container) (L : Lawful S) where
  pub tasks_of_empty : (c : Container) → S.empty c ≡ true → L.tasks c ≡ []
  tasks_of_empty c e = nil_of_length (L.tasks c) (ground (arith, L.empty_size c, L.size_tasks c))

  -- The number of tasks is what `size` says, so `size` rounds empty the container.
  pub take_all-perm : (n : ℕ) (c : Container) → S.size c ≡ n → Perm (L.tasks c) (take_all S n c)
  unfolding take_all
  take_all-perm zero c h = rw (nil_of_length (L.tasks c) (omega (arith, L.size_tasks c))) Perm.rfl
  take_all-perm (suc n) c h =
      let (t, c', top, pop, perm) = L.takes c (ground (arith, L.empty_size c)) in
      let e : S.size c' ≡ n = omega (arith, L.size_tasks c, L.size_tasks c', perm-length perm) in
      subst (Perm (L.tasks c)) (sym (take_all-suc S n c t c' top pop))
        (Perm.trans perm (Perm.cons t (take_all-perm n c' e)))
