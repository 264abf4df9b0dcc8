-- ===== src/Core/Guard.antt =====
-- boost/threadpool/detail/scope_guard.hpp, and the ways out of `run` of
-- boost/threadpool/detail/worker_thread.hpp.
use boost_threadpool.Common.{Bool, true, false, Option, none, some, if◌then◌else◌}
use boost_threadpool.Core.State.{Phase, fetching, leaving, dying, exited}

-- An empty function is `none`.
pub record ScopeGuard (Action : Type 0) : Type 0 where
  pub function : Option Action
  pub is_active : Bool

module _ {Action : Type 0} where
  unfoldable pub scope_guard : Option Action → ScopeGuard Action
  scope_guard call_on_exit = record { function = call_on_exit; is_active = true }

  unfoldable pub disable : ScopeGuard Action → ScopeGuard Action
  disable g = record g { is_active = false }

  -- The action that the destructor calls.
  unfoldable pub destruct : ScopeGuard Action → Option Action
  destruct g = if g.is_active then g.function else none

-- The two members of the pool that `run` may call at its end.
pub data Farewell : Type 0 where
  died_unexpectedly worker_destructed : Farewell

module _ {Task : Type 0} where
  -- The phase of a worker that is about to make a call.
  abbrev pub before_call : Option Farewell → Phase Task
  before_call none = exited
  before_call (some died_unexpectedly) = dying
  before_call (some worker_destructed) = leaving

  -- `run`, from the end of a call of execute_task that was left by an exception (`thrown`), or
  -- returned true or false.
  unfoldable pub run_next : (thrown again : Bool) → Phase Task
  unfolding scope_guard disable destruct
  run_next thrown again =
      let notify_exception = scope_guard (some died_unexpectedly) in
      if thrown
      then before_call (destruct notify_exception)
      else if again
      then fetching
      else before_call (some worker_destructed)

  -- The guard's destructor after `disable`, when worker_destructed has returned.
  unfoldable pub run_end : Phase Task
  unfolding scope_guard disable destruct
  run_end = before_call (destruct (disable (scope_guard (some died_unexpectedly))))

  -- A task may be empty (`if(task)`); one that is not is called, and may throw.
  unfoldable pub after_task : (Task → Bool) → (thrown : Bool) → Task → Phase Task
  unfolding run_next
  after_task callable thrown task =
      if callable task then run_next thrown true else run_next false true
