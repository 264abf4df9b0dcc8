-- ===== src/Core/Resize/Cases.antt =====
-- Rules for proofs about `resize` and what it calls.
use boost_threadpool.Common.{
  ℕ, zero, suc, ◌≤◌, ◌<◌, ◌≡◌, Bool, true, false, arith, ltb, leb, if_cases,
}
use boost_threadpool.Core.State.{Pool}
use boost_threadpool.Core.Notify.{notify_all_workers}
use boost_threadpool.Core.Resize.{attach, grow, retarget, resize}

module _ {Task Container : Type 0} where
  -- What every new thread keeps, the loop keeps.
  pub grow_inv {ℓ} :
      (P : Pool Task Container → Type ℓ)
      → ((p : Pool Task Container) → p.worker_count < p.target_worker_count → P p → P (attach p))
      → (threads : ℕ) (p : Pool Task Container) → P p
      → P (grow threads p).0
  unfolding grow
  grow_inv P keep zero p h = h
  grow_inv P keep (suc threads) p h =
      if_cases (λ r. P r.0) (ltb p.worker_count p.target_worker_count) (grow threads (attach p))
        (p, true) (λ e. grow_inv P keep threads (attach p) (keep p (ground arith) h)) (λ _. h)

  pub resize_cases {ℓ} :
      (P : Pool Task Container × Bool → Type ℓ) (threads n : ℕ) (p : Pool Task Container)
      → (p.terminating ≡ true → P (p, false))
      → (p.terminating ≡ false → p.worker_count ≤ n → P (grow threads (retarget n p)))
      → (p.terminating ≡ false → n < p.worker_count → P (notify_all_workers (retarget n p), true))
      → P (resize threads n p)
  unfolding resize
  resize_cases P threads n p stopped up down = if_cases P p.terminating _ _ stopped λ e.
      if_cases P (leb p.worker_count n) _ _ (λ f. up e (ground arith)) (λ f. down e (ground arith))
