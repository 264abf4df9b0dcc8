-- ===== src/Programs.antt =====
-- A client that runs a program of calls while the pool works: the body of a block that owns a pool, and
-- the shutdown at its end.
pub mod Client
pub mod Done
pub mod Standing
pub mod Invariant
pub mod Completion
pub mod Divided
pub mod Batches
pub mod Filling
pub mod Backlog
pub mod Examples
