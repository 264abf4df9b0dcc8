-- ===== src/Scheduling/Laws.antt =====
-- What the laws of a scheduler say of `top`, `pop` and `size` together.
use mathlib.Core.Path.{subst₂}
use boost_threadpool.Common.{◌+◌, ◌≡◌, ◌≢◌, true, false, some, ◌∷◌, Perm, arith, perm-length}
use boost_threadpool.Scheduling.Interface.{Scheduler, Lawful}

module _ {Task Container : Type 0} {S : Scheduler Task Container} (L : Lawful S) where
  pub takes_at :
      (c c' : Container) (t : Task)
      → S.empty c ≡ false
      → S.top c ≡ some t
      → S.pop c ≡ some c'
      → Perm (L.tasks c) (t ∷ L.tasks c')
  takes_at c c' t e top pop =
      let (u, d, top', pop', perm) = L.takes c e in
      let s : u ≡ t = cc in
      let k : d ≡ c' = cc in subst₂ (λ x y. Perm (L.tasks c) (x ∷ L.tasks y)) s k perm

  pub size-pop :
      (c c' : Container) (t : Task)
      → S.empty c ≡ false
      → S.top c ≡ some t
      → S.pop c ≡ some c'
      → S.size c ≡ S.size c' + 1
  size-pop c c' t e top pop =
      omega (arith, perm-length (takes_at c c' t e top pop), L.size_tasks c, L.size_tasks c')

  pub size-push :
      (t : Task) (c : Container) → (S.push t c).1 ≡ true → S.size (S.push t c).0 ≡ S.size c + 1
  size-push t c e =
      omega (arith, perm-length (L.accepted t c e), L.size_tasks c, L.size_tasks (S.push t c).0)

  pub size-clear : (c : Container) → S.size (S.clear c) ≡ 0
  size-clear c = rw (L.size_tasks (S.clear c), L.cleared c)

  pub size_of_empty : (c : Container) → S.empty c ≡ true → S.size c ≡ 0
  size_of_empty c e = ground (arith, L.empty_size c)

  pub size_of_nonempty : (c : Container) → S.empty c ≡ false → S.size c ≢ 0
  size_of_nonempty c e = ground (arith, L.empty_size c)
