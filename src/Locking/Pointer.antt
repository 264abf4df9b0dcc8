-- ===== src/Locking/Pointer.antt =====
-- locking_ptr: its constructor, its destructor and the accesses through it, in threads that interleave.
use mathlib.Core.Option
use boost_threadpool.Common.{
  ℕ, suc, ◌-◌, ◌≡◌, ◌≢◌, Option, none, some, List, [], ◌∷◌, ◌==◌, if◌then◌else◌,
}

-- A mutex, as its users see it: `lock` is `none` while the calling thread would block, and `held` is the number of
-- times that a thread has locked it.
pub record Mutex : Type 1 where
  pub State : Type 0
  pub free : State
  pub lock : (thread : ℕ) → State → Option State
  pub unlock : (thread : ℕ) → State → State
  pub held : State → (thread : ℕ) → ℕ
  pub held_free : (i : ℕ) → held free i ≡ 0
  pub locked_alone : {s t : State} (i j : ℕ) → lock i s ≡ some t → j ≢ i → held s j ≡ 0
  pub held_lock : {s t : State} (i : ℕ) → lock i s ≡ some t → held t i ≡ suc (held s i)
  pub held_lock_other : {s t : State} (i j : ℕ) → lock i s ≡ some t → j ≢ i → held t j ≡ held s j
  pub held_unlock : (s : State) (i : ℕ) → held (unlock i s) i ≡ held s i - 1
  pub held_unlock_other : (s : State) (i j : ℕ) → j ≢ i → held (unlock i s) j ≡ held s j

-- m_obj and m_mutex
pub record Guarded (M : Mutex) (Object : Type 0) : Type 0 where
  pub obj : Object
  pub mutex : M.State

module _ (M : Mutex) {Object : Type 0} where
  -- The constructor.
  unfoldable pub locking_ptr : (thread : ℕ) → Guarded M Object → Option (Guarded M Object)
  locking_ptr thread g = Option.map (λ s. record g { mutex = s }) (M.lock thread g.mutex)

  -- The destructor.
  unfoldable pub destruct : (thread : ℕ) → Guarded M Object → Guarded M Object
  destruct thread g = record g { mutex = M.unlock thread g.mutex }

  -- A statement that uses operator* or operator->.
  unfoldable pub access : (Object → Object) → Guarded M Object → Guarded M Object
  access statement g = record g { obj = statement g.obj }

-- Where a thread stands: it has no locking_ptr, or `nested` more than one, and has executed these statements
-- since it made the first, the latest first.
pub data Place (Object : Type 0) : Type 0 where
  outside : Place Object
  inside : (nested : ℕ) → List (Object → Object) → Place Object

pub record World (M : Mutex) (Object : Type 0) : Type 0 where
  pub guarded : Guarded M Object
  pub place : (thread : ℕ) → Place Object

abbrev pub put : {Object : Type 0} → ℕ → Place Object → (ℕ → Place Object) → ℕ → Place Object
put i a place j = if j == i then a else place j

-- An exception destroys a locking_ptr too, so that a thread may leave after any statement. The list
-- holds the statements of what a thread did from its first locking_ptr to the end of it.
pub data Step (M : Mutex) {Object : Type 0} (w : World M Object)
    : Option (List (Object → Object)) → World M Object → Type 0 where
  constructs :
      (i : ℕ) {g : Guarded M Object}
      → w.place i ≡ outside
      → locking_ptr M i w.guarded ≡ some g
      → Step M w none (record { guarded = g; place = put i (inside 0 []) w.place })
  constructs_another :
      (i nested : ℕ) (done : List (Object → Object)) {g : Guarded M Object}
      → w.place i ≡ inside nested done
      → locking_ptr M i w.guarded ≡ some g
      → Step M w none (record { guarded = g; place = put i (inside (suc nested) done) w.place })
  accesses :
      (i nested : ℕ) (done : List (Object → Object)) (statement : Object → Object)
      → w.place i ≡ inside nested done
      → Step M w none (record {
        guarded = access M statement w.guarded;
        place = put i (inside nested (statement ∷ done)) w.place;
      })
  destructs :
      (i : ℕ) (done : List (Object → Object))
      → w.place i ≡ inside 0 done
      → Step M w
          (some done)
          (record { guarded = destruct M i w.guarded; place = put i outside w.place })
  destructs_another :
      (i nested : ℕ) (done : List (Object → Object))
      → w.place i ≡ inside (suc nested) done
      → Step M w none
          (record { guarded = destruct M i w.guarded; place = put i (inside nested done) w.place })

abbrev pub also : {A : Type 0} → Option A → List A → List A
also none rest = rest
also (some a) rest = a ∷ rest

-- The worlds from a first object on, with what the threads have done, the latest first.
pub data Reach (M : Mutex) {Object : Type 0} (first : Object)
    : World M Object → List (List (Object → Object)) → Type 0 where
  start :
      Reach M first
        (record { guarded = record { obj = first; mutex = M.free }; place = λ i. outside })
        []
  later :
      {w v : World M Object} {done : List (List (Object → Object))}
      {o : Option (List (Object → Object))}
      → Reach M first w done
      → Step M w o v
      → Reach M first v (also o done)
