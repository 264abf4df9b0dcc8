-- ===== src/Lib.antt =====
-- The boost threadpool library: pools of worker threads that execute tasks (boost/threadpool).
--
-- A pool (boost/threadpool/detail/pool_core.hpp) keeps its pending tasks in a scheduler
-- (scheduling_policies.hpp), and its number of threads through a size policy (size_policies.hpp). Each
-- thread runs the loop of detail/worker_thread.hpp: it fetches a task with execute_task, calls it, and
-- leaves when there are too many threads. A scope_guard (detail/scope_guard.hpp) tells the pool when an
-- exception ends the loop. Clients schedule tasks, resize the pool, and wait for tasks. When the last copy
-- of a pool goes, its shutdown policy (shutdown_policies.hpp) calls wait, clear and terminate_all_workers.
-- Tasks may be prioritised or looped (task_adaptors.hpp), or compute a future (detail/future.hpp).
--
-- Files and code:
--   Scheduling/ is scheduling_policies.hpp. Containers has std::deque and std::priority_queue as lists, and
--   Fifo, Lifo and Prio the members of the three policies under their names. Interface is what a pool needs
--   of a scheduler, with its laws; the rest of the model takes it as a parameter, and each policy fills it.
--   Core/ is pool_core.hpp with the code around it. State has the members of pool_core, and for each thread
--   the point that it has reached. Notify has the two condition variables, Tasks and Waiting the members
--   schedule to wait. Resize has resize, worker_died_unexpectedly and worker_destructed, with static_size of
--   size_policies.hpp and create_and_attach. Execute is execute_task, and Guard the scope_guard and the ways
--   out of worker_thread::run. Shutdown is terminate_all_workers, with the policies as lists of calls.
--   System/ puts the threads together: Steps has one step for each stretch of code that one thread runs
--   under m_monitor, in any order, with spurious wake-ups, exceptions and time-outs. The other files prove
--   what holds in every state that is reached.
--   Locking/ is detail/locking_ptr.hpp: Pointer has the pointer and threads that use one object through it,
--   and Atomic is about whole stretches of code under the lock.
--   Adaptors/ is task_adaptors.hpp, and Futures/ is detail/future.hpp: Impl has the members of
--   future_impl, and Run the task that computes a future, access by access, with clients that cancel: as
--   `cancel` takes no lock, each of its accesses is a step of its own. Laws and Cancelling are about them.
--   Waiting has the clients that wait for a future, with the members wait to get of future.hpp.
--   ThreadPool/ is pool.hpp, with the members of thread_pool in Members and the kinds of pool in Kinds,
--   resize_controller of size_policies.hpp, pool_adaptors.hpp, and schedule of future.hpp with a store for
--   the futures that tasks share. FutureRuns joins it with Core/ and Futures/: a pool whose workers execute
--   the tasks for futures access by access.
--   Programs/ has a client that runs the calls of a block while its pool works, up to the shutdown at the end
--   of the block. Client is the calls and their runs, and Examples the blocks of
--   libs/threadpool/tutorial/tutorial.cpp and libs/threadpool/quickstart/quickstart.cpp.
--   Mergesort/ is libs/threadpool/example/mergesort/mergesort.cpp: Merge has std::inplace_merge, and Jobs the
--   merge jobs and the loops of main, with the order in which the pool executes the jobs as an argument.
--   Program has the calls that main makes of its pool, and OnPool joins it with a pool of Core/.
--   Tests/ evaluates the model on small inputs.
--
-- The monitor is recursive and is released only in the condition variables' waits, so an operation
-- is one step, or two where it sleeps inside: execute_task is execute_task up to its sleep, and resume_task
-- from there. A client's wait is begin_wait and resume_wait. A worker is named by its place in the list of
-- workers. notify_one may wake any sleeping worker: the choice is an argument. size() and active() read a
-- counter without the monitor, which is one access.
--
-- Bounds: size_t has 64 bits and unsigned int 32; additions and decrements of the counters wrap around as
-- in the source. `resize` takes the number of threads that the system can still create, after which boost::thread
-- throws thread_resource_error; it is the fuel of its loop, and running out of it is that exception.
-- The loop of looped_task_func has fuel, and a theorem says how much is enough.
-- `top` or `pop` of an empty container is undefined behaviour: the model then has no result.
--
-- The mutex of a locking_ptr is not of this repository: it is an argument, with what its lock and unlock
-- promise.
--
-- Not modelled: the shared pointers of thread_pool and future, among them the one that calls shutdown when
-- the last copy of a pool is gone: a block of Programs/ has one copy. Of the tutorial, the section on futures
-- and the compile tests are left out, and what the tasks of the programs print.
-- The time at which a timed wait gives up is left open: it may do so whenever it sleeps.
-- The value of a member that a constructor leaves uninitialised is an argument.
pub mod Common
pub mod Scheduling
pub mod Core
pub mod System
pub mod Locking
pub mod Adaptors
pub mod Futures
pub mod ThreadPool
pub mod Programs
pub mod Mergesort
pub mod Tests
