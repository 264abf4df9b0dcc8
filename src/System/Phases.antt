-- ===== src/System/Phases.antt =====
-- Sums over the workers of a pool: how many there are of a kind.
use boost_threadpool.Common.{
  ℕ, zero, suc, ◌+◌, ◌≤◌, ◌≡◌, refl, some, List, [], ◌∷◌, arith, get_elem?, set, total, total-set,
  total_mono, le-total,
}
use boost_threadpool.Core.State.{
  Phase, fetching, waiting, woken, running, leaving, dying, exited, joined,
}
use boost_threadpool.Core.Notify.{wake, wake_at}
use boost_threadpool.Core.Waiting.{join, join_at, join_all}

module _ {Task : Type 0} where
  abbrev pub live : Phase Task → ℕ
  live fetching = 1
  live waiting = 1
  live woken = 1
  live (running t) = 1
  live leaving = 1
  live dying = 1
  live exited = 0
  live joined = 0

  abbrev pub engaged : Phase Task → ℕ
  engaged fetching = 1
  engaged waiting = 0
  engaged woken = 0
  engaged (running t) = 1
  engaged leaving = 1
  engaged dying = 1
  engaged exited = 0
  engaged joined = 0

  pub live-wake : (p : Phase Task) → live (wake p) ≡ live p
  live-wake p = ground arith

  pub engaged-wake : (p : Phase Task) → engaged (wake p) ≡ engaged p
  engaged-wake p = ground arith

  pub total-wake_at :
      (w : Phase Task → ℕ)
      → ((p : Phase Task) → w (wake p) ≡ w p)
      → (i : ℕ) (ws : List (Phase Task)) → total w (wake_at i ws) ≡ total w ws
  unfolding wake_at
  total-wake_at w h i [] = refl
  total-wake_at w h zero (p ∷ ps) = omega (arith, h p)
  total-wake_at w h (suc i) (p ∷ ps) = omega (arith, total-wake_at w h i ps)

  pub total-join_at :
      (w : Phase Task → ℕ)
      → ((p : Phase Task) → w (join p) ≡ w p)
      → (i : ℕ) (ws : List (Phase Task)) → total w (join_at i ws) ≡ total w ws
  unfolding join_at
  total-join_at w h i [] = refl
  total-join_at w h zero (p ∷ ps) = omega (arith, h p)
  total-join_at w h (suc i) (p ∷ ps) = omega (arith, total-join_at w h i ps)

  pub total-join_all :
      (w : Phase Task → ℕ)
      → ((p : Phase Task) → w (join p) ≡ w p)
      → (is : List ℕ) (ws : List (Phase Task)) → total w (join_all is ws) ≡ total w ws
  unfolding join_all
  total-join_all w h [] ws = refl
  total-join_all w h (i ∷ is) ws =
      omega (arith, total-join_all w h is (join_at i ws), total-join_at w h i ws)

  pub engaged-le-live : (ws : List (Phase Task)) → total engaged ws ≤ total live ws
  engaged-le-live ws = total_mono engaged live (λ p. ground arith) ws

  -- Replacing the worker `w`, in phase `a`, changes the two sums as the phases say.
  pub record Replaced (ws vs : List (Phase Task)) (a b : Phase Task) : Type 0 where
    pub lives : total live vs + live a ≡ total live ws + live b
    pub engages : total engaged vs + engaged a ≡ total engaged ws + engaged b
    pub some-live : live a ≤ total live ws
    pub some_engaged : engaged a ≤ total engaged ws

  pub replaced :
      (ws : List (Phase Task)) (w : ℕ) (a b : Phase Task)
      → get_elem? ws w ≡ some a
      → Replaced ws (set ws w b) a b
  replaced ws w a b h = record {
    lives = total-set live ws w b a h;
    engages = total-set engaged ws w b a h;
    some-live = le-total live ws w a h;
    some_engaged = le-total engaged ws w a h;
  }
