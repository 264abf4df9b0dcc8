-- ===== src/Tests/Locks.antt =====
-- A recursive mutex, and two threads that use one object.
use boost_threadpool.Common.{
  ℕ, zero, suc, ◌+◌, ◌-◌, ◌*◌, ◌≡◌, ◌≢◌, refl, subst, Option, none, some, List, [], ◌∷◌, ◌==◌,
  arith, if◌then◌else◌,
}
use boost_threadpool.Locking.Pointer.{
  Mutex, locking_ptr, destruct, access, World, Step, also, constructs, constructs_another, accesses,
  destructs, destructs_another, Reach, start, later,
}
use boost_threadpool.Locking.Atomic.{Serial, Reach-Serial}

-- The thread that holds the mutex, and how often it has locked it after the first time.
abbrev Owner : Type 0
Owner = Option (ℕ × ℕ)

abbrev lock : ℕ → Owner → Option Owner
lock i none = some (some (i, 0))
lock i (some (j, n)) = if i == j then some (some (j, suc n)) else none

abbrev release : ℕ → ℕ → Owner
release j zero = none
release j (suc n) = some (j, n)

abbrev unlock : ℕ → Owner → Owner
unlock i none = none
unlock i (some (j, n)) = if i == j then release j n else some (j, n)

abbrev held : Owner → ℕ → ℕ
held none i = 0
held (some (j, n)) i = if i == j then suc n else 0

locked_alone : (s t : Owner) (i j : ℕ) → lock i s ≡ some t → j ≢ i → held s j ≡ 0
locked_alone none t i j h d = refl
locked_alone (some (k, n)) t i j h d = ground arith

-- A thread that locks a held mutex is its owner.
lock_owner :
    (i k n : ℕ) (t : Owner) → lock i (some (k, n)) ≡ some t → (i ≡ k) × (some (k, suc n) ≡ t)
lock_owner i k n t h = ground arith

held_lock : (s t : Owner) (i : ℕ) → lock i s ≡ some t → held t i ≡ suc (held s i)
held_lock none t i h =
    let e : some (i, 0) ≡ t = cc in subst (λ (x : Owner). held x i ≡ 1) e (ground arith)
held_lock (some (k, n)) t i h =
    let (same, e) = lock_owner i k n t h in
    subst (λ (x : Owner). held x i ≡ suc (held (some (k, n)) i)) e (ground arith)

held_lock_other : (s t : Owner) (i j : ℕ) → lock i s ≡ some t → j ≢ i → held t j ≡ held s j
held_lock_other none t i j h d =
    let e : some (i, 0) ≡ t = cc in subst (λ (x : Owner). held x j ≡ 0) e (ground arith)
held_lock_other (some (k, n)) t i j h d =
    let (same, e) = lock_owner i k n t h in
    subst (λ (x : Owner). held x j ≡ held (some (k, n)) j) e (ground arith)

held_unlock : (s : Owner) (i : ℕ) → held (unlock i s) i ≡ held s i - 1
held_unlock none i = omega arith
held_unlock (some (k, zero)) i = ground arith
held_unlock (some (k, suc n)) i = ground arith

held_unlock_other : (s : Owner) (i j : ℕ) → j ≢ i → held (unlock i s) j ≡ held s j
held_unlock_other none i j d = refl
held_unlock_other (some (k, zero)) i j d = ground arith
held_unlock_other (some (k, suc n)) i j d = ground arith

abbrev recursive : Mutex
recursive = record {
  State = Owner;
  free = none;
  lock = lock;
  unlock = unlock;
  held = held;
  held_free = λ i. refl;
  locked_alone = λ {s} {t} i j h d. locked_alone s t i j h d;
  held_lock = λ {s} {t} i h. held_lock s t i h;
  held_lock_other = λ {s} {t} i j h d. held_lock_other s t i j h d;
  held_unlock = held_unlock;
  held_unlock_other = held_unlock_other;
}

abbrev increment : ℕ → ℕ
increment n = n + 1

abbrev double : ℕ → ℕ
double n = n * 2

record History : Type 1 where
  world : World recursive ℕ
  done : List (List (ℕ → ℕ))
  reach : Reach recursive 5 world done

abbrev first : History
first = record { world = _; done = []; reach = start }

abbrev and_then :
    (h : History) {o : Option (List (ℕ → ℕ))} {v : World recursive ℕ}
    → Step recursive h.world o v
    → History
and_then h {o} {v} st = record { world = v; done = also o h.done; reach = later h.reach st }

-- Thread 1 increments the object under two locks; then thread 2 doubles it and is still inside.
shared : History
unfolding locking_ptr destruct access
shared =
    and_then
      (and_then
        (and_then
          (and_then
            (and_then
              (and_then (and_then first (constructs 1 refl refl))
                (constructs_another 1 0 [] refl refl))
              (accesses 1 1 [] increment refl))
            (destructs_another 1 0 (increment ∷ []) refl))
          (destructs 1 (increment ∷ []) refl))
        (constructs 2 refl refl))
      (accesses 2 0 [] double refl)

-- While thread 2 is inside, thread 1 cannot construct a locking_ptr.
blocked : locking_ptr recursive 1 shared.world.guarded ≡ none
unfolding shared locking_ptr
blocked = refl

Reach-Serial_example : Serial recursive 5 shared.world shared.done
Reach-Serial_example = Reach-Serial recursive 5 shared.reach
