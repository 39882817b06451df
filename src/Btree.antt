-- ===== src/Btree.antt =====
-- day2/07a_rwlock_tree/pthread_rwlock.cpp, the class `btree`: a binary search tree of nodes on the
-- heap, behind a read-write lock.
pub mod Heap
pub mod Nodes
mod Shape
mod Insert
mod Search
pub mod Object
pub mod Laws
pub mod Within
mod Tests
