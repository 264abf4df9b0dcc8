-- ===== src/ThreadPool/Sizes.antt =====
-- static_size and resize_controller of boost/threadpool/size_policies.hpp. Both hold a reference to the
-- pool, which is an argument here.
use boost_threadpool.Common.{ℕ, Bool}
use boost_threadpool.Core.State.{Pool}
use boost_threadpool.Core.Resize.{resize}

module _ {Task Container : Type 0} where
  -- static_size::resize
  unfoldable pub static_size_resize :
      (threads worker_count : ℕ) → Pool Task Container → Pool Task Container × Bool
  unfolding resize
  static_size_resize threads worker_count p = resize threads worker_count p

  -- resize_controller::resize
  unfoldable pub resize_controller_resize :
      (threads worker_count : ℕ) → Pool Task Container → Pool Task Container × Bool
  unfolding static_size_resize
  resize_controller_resize threads worker_count p = static_size_resize threads worker_count p
