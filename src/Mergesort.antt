-- ===== src/Mergesort.antt =====
-- libs/threadpool/example/mergesort/mergesort.cpp: an array is sorted by merge jobs that a pool executes.
pub mod Arrays
pub mod Merge
pub mod Jobs
pub mod Program
pub mod Replay
pub mod Blocks
pub mod Sorting
pub mod OnPool
