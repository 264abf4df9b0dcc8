-- ===== src/System.antt =====
-- A pool with its threads as a transition system, and what holds in every state that it reaches.
pub mod Steps
pub mod Phases
pub mod Counts
pub mod Running
pub mod Keeps
pub mod Conservation
pub mod Progress
pub mod Wakeups
pub mod Clients
pub mod Shrink
pub mod Shutdown
pub mod Stopping
pub mod Effects
pub mod Starts
pub mod Waits
pub mod Joining
pub mod Joins
pub mod Completion
pub mod Follow
pub mod Exhausted
pub mod RoundTrips
