-- ===== src/Locking/Atomic.antt =====
-- Whole stretches of code under the lock of a locking_ptr, and the order in which they end.
use mathlib.Core.Option
use boost_threadpool.Common.{
  ℕ, suc, ◌-◌, ◌≡◌, ◌≢◌, ◌⊎◌, inl, inr, refl, ap, sym, subst, ◌∙◌, Option, none, some, List, [],
  ◌∷◌, ◌==◌, arith, Bool-cases,
}
use boost_threadpool.Locking.Pointer.{
  Mutex, Guarded, locking_ptr, destruct, access, Place, outside, inside, World, put, Step,
  constructs, constructs_another, accesses, destructs, destructs_another, also, Reach, start, later,
}

same_or_other : (i j : ℕ) → (j ≡ i) ⊎ (j ≢ i)
same_or_other i j = elim (Bool-cases (j == i)) [
  | inl e ↦ inl (ground arith)
  | inr e ↦ inr (λ h. ground arith)
]

module _ {Object : Type 0} where
  -- The effect of statements, the last of which stands first.
  abbrev pub execute : List (Object → Object) → Object → Object
  execute [] x = x
  execute (f ∷ fs) x = f (execute fs x)

  -- Of whole stretches of statements.
  abbrev pub execute_all : List (List (Object → Object)) → Object → Object
  execute_all [] x = x
  execute_all (fs ∷ done) x = execute fs (execute_all done x)

  abbrev level : Place Object → ℕ
  level outside = 0
  level (inside nested done) = suc nested

  outside_of_level : (a : Place Object) → level a ≡ 0 → a ≡ outside
  outside_of_level outside h = refl
  outside_of_level (inside nested done) h = absurd (omega arith)

  put_same : (i : ℕ) (a : Place Object) (place : ℕ → Place Object) → put i a place i ≡ a
  put_same i a place = ground arith

  put_other :
      (i j : ℕ) (a : Place Object) (place : ℕ → Place Object) → j ≢ i → put i a place j ≡ place j
  put_other i j a place h = ground arith

module _ (M : Mutex) {Object : Type 0} (first : Object) where
  -- The object is what the finished stretches have made of it, and then the statements of the one thread that
  -- is inside, if there is one.
  abbrev pub Serial : World M Object → List (List (Object → Object)) → Type 0
  Serial w done =
      (((j : ℕ) → w.place j ≡ outside) × (w.guarded.obj ≡ execute_all done first))
      ⊎ ((i : ℕ) × (nested : ℕ) × (fs : List (Object → Object)) × (w.place i ≡ inside nested fs)
          × ((j : ℕ) → j ≢ i → w.place j ≡ outside)
          × (w.guarded.obj ≡ execute fs (execute_all done first)))

  record Holds (w : World M Object) (done : List (List (Object → Object))) : Type 0 where
    levels : (j : ℕ) → M.held w.guarded.mutex j ≡ level (w.place j)
    serial : Serial w done

  locked :
      (g h : Guarded M Object) (o : Option M.State)
      → Option.map (λ s. record g { mutex = s }) o ≡ some h
      → (h.obj ≡ g.obj) × (o ≡ some h.mutex)
  locked g h none e = absurd (cc)
  locked g h (some s) e =
      let same : record g { mutex = s } ≡ h = cc in
      (ap (λ x. x.obj) (sym same), ap (λ x. some x.mutex) same)

  -- What the constructor does.
  constructed :
      (i : ℕ) (g h : Guarded M Object)
      → locking_ptr M i g ≡ some h
      → (h.obj ≡ g.obj) × (M.lock i g.mutex ≡ some h.mutex)
  unfolding locking_ptr
  constructed i g h e = locked g h (M.lock i g.mutex) e

  -- The thread that is inside is the one of `Serial`.
  the_thread :
      (i n : ℕ) (fs : List (Object → Object)) (w : World M Object)
      (done : List (List (Object → Object)))
      → w.place i ≡ inside n fs
      → Serial w done
      → ((j : ℕ) → j ≢ i → w.place j ≡ outside)
        × (w.guarded.obj ≡ execute fs (execute_all done first))
  the_thread i n fs w done h (inl (all, e)) = let o = all i in absurd (cc)
  the_thread i n fs w done h (inr (j, m, gs, k, others, e)) = elim (same_or_other j i) [
    | inl is ↦
        let same : fs ≡ gs = (let k' = subst (λ x. w.place x ≡ inside m gs) (sym is) k in cc) in
        (
          λ l d. others l (λ e'. d (e' ∙ sym is)),
          e ∙ ap (λ x. execute x (execute_all done first)) (sym same),
        )
    | inr different ↦ let o = others i different in absurd (cc)
  ]

  -- A thread that can lock finds nobody inside.
  all_outside :
      (i : ℕ) (w : World M Object) (done : List (List (Object → Object))) (t : M.State)
      → Holds w done
      → M.lock i w.guarded.mutex ≡ some t
      → w.place i ≡ outside
      → (j : ℕ) → w.place j ≡ outside
  all_outside i w done t v h o j = elim (same_or_other i j) [
    | inl is ↦ subst (λ x. w.place x ≡ outside) (sym is) o
    | inr different ↦
        outside_of_level (w.place j) (sym (v.levels j) ∙ M.locked_alone i j h different)
  ]

  nobody :
      (w : World M Object) (done : List (List (Object → Object)))
      → ((j : ℕ) → w.place j ≡ outside)
      → Serial w done
      → w.guarded.obj ≡ execute_all done first
  nobody w done all (inl (o, e)) = e
  nobody w done all (inr (j, m, gs, k, others, e)) = let o = all j in absurd (cc)

  -- The places after thread `i` has moved.
  put_levels :
      (i : ℕ) (a : Place Object) (w : World M Object) (t : M.State)
      → M.held t i ≡ level a
      → ((j : ℕ) → j ≢ i → M.held t j ≡ level (w.place j))
      → (j : ℕ) → M.held t j ≡ level (put i a w.place j)
  put_levels i a w t own others j = elim (same_or_other i j) [
    | inl is ↦
        subst (λ x. M.held t x ≡ level (put i a w.place x)) (sym is)
          (own ∙ ap level (sym (put_same i a w.place)))
    | inr different ↦ others j different ∙ ap level (sym (put_other i j a w.place different))
  ]

  Serial-inside :
      (i n : ℕ) (fs : List (Object → Object)) (w : World M Object) (g : Guarded M Object)
      (done : List (List (Object → Object)))
      → ((j : ℕ) → j ≢ i → w.place j ≡ outside)
      → g.obj ≡ execute fs (execute_all done first)
      → Serial (record { guarded = g; place = put i (inside n fs) w.place }) done
  Serial-inside i n fs w g done others e = inr (
    i,
    n,
    fs,
    put_same i (inside n fs) w.place,
    λ j d. put_other i j (inside n fs) w.place d ∙ others j d,
    e,
  )

  Serial-outside :
      (i : ℕ) (w : World M Object) (g : Guarded M Object) (done : List (List (Object → Object)))
      → ((j : ℕ) → j ≢ i → w.place j ≡ outside)
      → g.obj ≡ execute_all done first
      → Serial (record { guarded = g; place = put i outside w.place }) done
  Serial-outside i w g done others e = inl (left, e)
    where
      left : (j : ℕ) → put i outside w.place j ≡ outside
      left j = elim (same_or_other i j) [
        | inl is ↦
            subst (λ x. put i outside w.place x ≡ outside) (sym is) (put_same i outside w.place)
        | inr different ↦ put_other i j outside w.place different ∙ others j different
      ]

  Step-Holds :
      {w v : World M Object} {o : Option (List (Object → Object))}
      (done : List (List (Object → Object)))
      → Step M w o v
      → Holds w done
      → Holds v (also o done)
  unfolding destruct access
  Step-Holds {w} done (constructs i {g} h k) a =
      let (obj, lock) = constructed i w.guarded g k in
      let all = all_outside i w done g.mutex a lock h in
      record {
        levels =
            put_levels i (inside 0 []) w g.mutex
              (M.held_lock i lock ∙ ap suc (a.levels i ∙ ap level h))
              (λ j d. M.held_lock_other i j lock d ∙ a.levels j);
        serial = Serial-inside i 0 [] w g done (λ j d. all j) (obj ∙ nobody w done all a.serial);
      }
  Step-Holds {w} done (constructs_another i n fs {g} h k) a =
      let (obj, lock) = constructed i w.guarded g k in
      let (others, e) = the_thread i n fs w done h a.serial in
      record {
        levels =
            put_levels i (inside (suc n) fs) w g.mutex
              (M.held_lock i lock ∙ ap suc (a.levels i ∙ ap level h))
              (λ j d. M.held_lock_other i j lock d ∙ a.levels j);
        serial = Serial-inside i (suc n) fs w g done others (obj ∙ e);
      }
  Step-Holds {w} done (accesses i n fs f h) a =
      let (others, e) = the_thread i n fs w done h a.serial in
      record {
        levels =
            put_levels i (inside n (f ∷ fs)) w w.guarded.mutex (a.levels i ∙ ap level h)
              (λ j d. a.levels j);
        serial = Serial-inside i n (f ∷ fs) w (access M f w.guarded) done others (ap f e);
      }
  Step-Holds {w} done (destructs i fs h) a =
      let (others, e) = the_thread i 0 fs w done h a.serial in
      record {
        levels =
            put_levels i outside w (M.unlock i w.guarded.mutex)
              (M.held_unlock w.guarded.mutex i
                ∙ ap (λ n. n - 1) (a.levels i ∙ ap level h)
                ∙ omega arith)
              (λ j d. M.held_unlock_other w.guarded.mutex i j d ∙ a.levels j);
        serial = Serial-outside i w (destruct M i w.guarded) (fs ∷ done) others e;
      }
  Step-Holds {w} done (destructs_another i n fs h) a =
      let (others, e) = the_thread i (suc n) fs w done h a.serial in
      record {
        levels =
            put_levels i (inside n fs) w (M.unlock i w.guarded.mutex)
              (M.held_unlock w.guarded.mutex i
                ∙ ap (λ n. n - 1) (a.levels i ∙ ap level h)
                ∙ omega arith)
              (λ j d. M.held_unlock_other w.guarded.mutex i j d ∙ a.levels j);
        serial = Serial-inside i n fs w (destruct M i w.guarded) done others e;
      }

  Reach-Holds :
      {w : World M Object} {done : List (List (Object → Object))}
      → Reach M first w done
      → Holds w done
  Reach-Holds start = record { levels = M.held_free; serial = inl ((λ j. refl), refl) }
  Reach-Holds (later {done} r st) = Step-Holds done st (Reach-Holds r)

  -- However threads interleave that use an object only through a locking_ptr: at most one of them has a
  -- locking_ptr, and the object is what the finished stretches under the lock make of it when they are
  -- executed as wholes, in the order in which they ended, and then the statements of the thread that is
  -- inside. This holds with nested locking_ptrs, and when a stretch ends early by an exception.
  pub Reach-Serial :
      {w : World M Object} {done : List (List (Object → Object))}
      → Reach M first w done
      → Serial w done
  Reach-Serial r = (Reach-Holds r).serial
