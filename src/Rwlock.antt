-- ===== src/Rwlock.antt =====
-- The two examples of day2/07a_rwlock_tree/pthread_rwlock.cpp: threads that hold a read-write lock,
-- and threads that share a `btree`.
pub mod Holders
pub mod Shared
mod Exclusion
mod Locks
mod Invariant
mod Turns
mod Readers
mod Tests
