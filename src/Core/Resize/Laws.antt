-- ===== src/Core/Resize/Laws.antt =====
-- What `resize` and the replacement of a dead worker do to the counters and the workers.
use boost_threadpool.Common.{
  ℕ, zero, suc, ◌+◌, ◌-◌, ◌≤◌, ◌<◌, ◌≡◌, refl, sym, ap, ◌∙◌, Bool, true, false, [], ◌∷◌, ◌++◌,
  arith, ltb, inc, if_cases, size_mod, replicate, append_assoc, append-nil, lt→ltb, le→ltb, map,
  if◌then◌else◌,
}
use boost_threadpool.Core.State.{fetching, Pool}
use boost_threadpool.Core.Notify.{notify, notify_all_workers}
use boost_threadpool.Core.Resize.{
  attach, grow, retarget, resize, count_out, worker_died_unexpectedly, size_policy_worker_died,
}
use boost_threadpool.Core.Resize.Cases.{resize_cases}

module _ {Task Container : Type 0} where
  -- `p` with `n` new threads
  abbrev pub grown : ℕ → Pool Task Container → Pool Task Container
  grown n p = record p {
    worker_count = p.worker_count + n;
    active_worker_count = p.active_worker_count + n;
    workers = p.workers ++ replicate n fetching;
  }

  -- The counters of a pool with a place for one more worker, as far as the loop relies on them.
  record Fits (n : ℕ) (p : Pool Task Container) : Type 0 where
    few : p.worker_count + n ≤ p.target_worker_count
    active_few : p.active_worker_count ≤ p.worker_count
    target_bounded : p.target_worker_count < size_mod

  grown-zero : (p : Pool Task Container) → grown 0 p ≡ p
  grown-zero p = ground (arith, append-nil p.workers)

  grown-suc :
      (n : ℕ) (p : Pool Task Container) → Fits (suc n) p → grown n (attach p) ≡ grown (suc n) p
  unfolding attach
  grown-suc n p f = ground (arith, append_assoc p.workers (fetching ∷ []) (replicate n fetching))
    where
      open f use {few, active_few, target_bounded}

  attach-Fits : (n : ℕ) (p : Pool Task Container) → Fits (suc n) p → Fits n (attach p)
  unfolding attach
  attach-Fits n p f = ground arith

  attach_target :
      (n : ℕ) (p : Pool Task Container)
      → Fits (suc n) p
      → p.worker_count + suc n ≡ p.target_worker_count
      → (attach p).worker_count + n ≡ (attach p).target_worker_count
  unfolding attach
  attach_target n p f e = ground arith

  grow_enough :
      (n threads : ℕ) (p : Pool Task Container)
      → Fits n p
      → p.worker_count + n ≡ p.target_worker_count
      → n ≤ threads
      → grow threads p ≡ (grown n p, true)
  unfolding grow
  grow_enough zero zero p f e h =
      rw (le→ltb p.worker_count p.target_worker_count (omega arith))
        (ap (λ q. (q, true)) (sym (grown-zero p)))
  grow_enough zero (suc threads) p f e h =
      rw (le→ltb p.worker_count p.target_worker_count (omega arith))
        (ap (λ q. (q, true)) (sym (grown-zero p)))
  grow_enough (suc n) zero p f e h = absurd (omega arith)
  grow_enough (suc n) (suc threads) p f e h =
      rw (lt→ltb p.worker_count p.target_worker_count (omega arith)) (
        grow_enough n threads (attach p) (attach-Fits n p f) (attach_target n p f e) (omega arith)
        ∙ ap (λ q. (q, true)) (grown-suc n p f))

  attach_short :
      (n : ℕ) (p : Pool Task Container)
      → Fits (suc n) p
      → p.worker_count + suc n < p.target_worker_count
      → (attach p).worker_count + n < (attach p).target_worker_count
  unfolding attach
  attach_short n p f e = ground arith

  grow_short :
      (threads : ℕ) (p : Pool Task Container)
      → Fits threads p
      → p.worker_count + threads < p.target_worker_count
      → grow threads p ≡ (grown threads p, false)
  unfolding grow
  grow_short zero p f e =
      rw (lt→ltb p.worker_count p.target_worker_count (omega arith))
        (ap (λ q. (q, false)) (sym (grown-zero p)))
  grow_short (suc threads) p f e = rw (lt→ltb p.worker_count p.target_worker_count (omega arith)) (
      grow_short threads (attach p) (attach-Fits threads p f) (attach_short threads p f e)
      ∙ ap (λ q. (q, false)) (grown-suc threads p f))

  pub resize_branches :
      (threads n : ℕ) (p : Pool Task Container)
      → p.active_worker_count ≤ p.worker_count
      → n < size_mod
      → (p.terminating ≡ true → resize threads n p ≡ (p, false))
        × (p.terminating ≡ false
            → p.worker_count ≤ n
            → n ≤ p.worker_count + threads
            → resize threads n p ≡ (grown (n - p.worker_count) (retarget n p), true))
        × (p.terminating ≡ false
            → p.worker_count + threads < n
            → resize threads n p ≡ (grown threads (retarget n p), false))
        × (p.terminating ≡ false
            → n < p.worker_count
            → resize threads n p ≡ (notify_all_workers (retarget n p), true))
  resize_branches threads n p a b = (
    λ e.
        resize_cases (λ r. r ≡ (p, false)) threads n p (λ _. refl) (λ f. absurd (cc))
          (λ f. absurd (cc)),
    λ e h k.
        resize_cases (λ r. r ≡ (grown (n - p.worker_count) (retarget n p), true)) threads n p
          (λ f. absurd (cc))
          (λ _ _.
            grow_enough (n - p.worker_count) threads (retarget n p)
              (record { few = omega arith; active_few = a; target_bounded = b }) (omega arith)
              (omega arith))
          (λ _ l. absurd (omega arith)),
    λ e h.
        resize_cases (λ r. r ≡ (grown threads (retarget n p), false)) threads n p (λ f. absurd (cc))
          (λ _ _.
            grow_short threads (retarget n p)
              (record { few = omega arith; active_few = a; target_bounded = b }) (omega arith))
          (λ _ l. absurd (omega arith)),
    λ e h.
        resize_cases (λ r. r ≡ (notify_all_workers (retarget n p), true)) threads n p
          (λ f. absurd (cc)) (λ _ l. absurd (omega arith)) (λ _ _. refl),
  )

  -- `resize`, on every branch, for a pool whose counters are in order: a pool that is shutting down
  -- refuses and stays as it was; growth adds threads up to the number asked for, or until the system has no
  -- more, which is reported, with the target left at the number asked for; and a smaller number
  -- changes only the target and wakes the sleeping workers.
  pub resize_result :
      (threads n : ℕ) (p : Pool Task Container)
      → p.active_worker_count ≤ p.worker_count
      → n < size_mod
      → resize threads n p ≡ (
          if p.terminating
          then (p, false)
          else if ltb n p.worker_count
          then (notify_all_workers (retarget n p), true)
          else if ltb (p.worker_count + threads) n
          then (grown threads (retarget n p), false)
          else (grown (n - p.worker_count) (retarget n p), true))
  resize_result threads n p a b =
      let (stopped, enough, short, fewer) = resize_branches threads n p a b in
      if_cases Gives p.terminating _ _ stopped (λ e.
        if_cases Gives (ltb n p.worker_count) _ _ (λ f. fewer e (ground arith))
          (λ f.
            if_cases Gives (ltb (p.worker_count + threads) n) _ _ (λ g. short e (ground arith))
              (λ g. enough e (ground arith) (ground arith))))
    where
      Gives : Pool Task Container × Bool → Type 0
      Gives r = resize threads n p ≡ r

  terminating-count_out :
      (p : Pool Task Container) → p.terminating ≡ false → (count_out p).terminating ≡ false
  unfolding count_out
  terminating-count_out p e = e

  died_resizes :
      (threads w : ℕ) (p : Pool Task Container)
      → p.terminating ≡ false
      → worker_died_unexpectedly threads w p
        ≡ (resize threads (inc (count_out p).worker_count) (count_out p)).0
  unfolding worker_died_unexpectedly size_policy_worker_died
  died_resizes threads w p e = simp (terminating-count_out p e)

  record Leaves (p : Pool Task Container) : Type 0 where
    others : (count_out p).worker_count + 1 ≡ p.worker_count
    active_others : (count_out p).active_worker_count + 1 ≡ p.active_worker_count

  leaves :
      (p : Pool Task Container)
      → 0 < p.active_worker_count
      → p.active_worker_count ≤ p.worker_count
      → p.worker_count < size_mod
      → Leaves p
  unfolding count_out
  leaves p h a b = omega arith

  replaced_by_one :
      (threads : ℕ) (p : Pool Task Container)
      → p.terminating ≡ false
      → Leaves p
      → p.active_worker_count ≤ p.worker_count
      → p.worker_count < size_mod
      → (resize (suc threads) (inc (count_out p).worker_count) (count_out p)).0
        ≡ grown 1 (retarget p.worker_count (count_out p))
  replaced_by_one threads p e f a b =
      let n : inc (count_out p).worker_count ≡ p.worker_count = omega (arith, f.others) in
      let one : p.worker_count - (count_out p).worker_count ≡ 1 = omega (arith, f.others) in
      let r =
        (resize_branches (suc threads) p.worker_count (count_out p)
            (omega (arith, f.others, f.active_others)) b).1
          (terminating-count_out p e) (omega (arith, f.others)) (omega (arith, f.others)) in
      rw n (ap (λ s. s.0) r ∙ ap (λ k. grown k (retarget p.worker_count (count_out p))) one)

  -- A worker that dies in a pool that is not shutting down is replaced, if the system has a thread left:
  -- the counters stay, a thread is added, and all clients are notified. The target becomes the number
  -- of workers there were, whatever was asked for before.
  pub died_result :
      (threads w : ℕ) (p : Pool Task Container)
      → p.terminating ≡ false
      → 0 < p.active_worker_count
      → p.active_worker_count ≤ p.worker_count
      → p.worker_count < size_mod
      → let q = worker_died_unexpectedly (suc threads) w p in
        (q.worker_count ≡ p.worker_count)
        × (q.active_worker_count ≡ p.active_worker_count)
        × (q.target_worker_count ≡ p.worker_count)
        × (q.workers ≡ p.workers ++ fetching ∷ [])
        × (q.clients ≡ map notify p.clients)
        × (q.scheduler ≡ p.scheduler)
  unfolding count_out
  died_result threads w p e h a b =
      let f = leaves p h a b in
      rw (died_resizes (suc threads) w p e, replaced_by_one threads p e f a b)
        (f.others, f.active_others, refl, refl, refl, refl)

  -- No thread is left for a successor.
  pub died_short :
      (w : ℕ) (p : Pool Task Container)
      → p.terminating ≡ false
      → 0 < p.active_worker_count
      → p.active_worker_count ≤ p.worker_count
      → p.worker_count < size_mod
      → let q = worker_died_unexpectedly 0 w p in
        (q.worker_count + 1 ≡ p.worker_count) × (q.target_worker_count ≡ p.worker_count)
  died_short w p e h a b =
      let f = leaves p h a b in
      let n : inc (count_out p).worker_count ≡ p.worker_count = omega (arith, f.others) in
      let (_, _, short, _) =
        resize_branches 0 p.worker_count (count_out p) (omega (arith, f.others, f.active_others))
          b in
      let r = short (terminating-count_out p e) (omega (arith, f.others)) in
      rw (died_resizes 0 w p e, n, ap (λ s. s.0) r) (omega (arith, f.others), refl)
