-- ===== src/ThreadPool.antt =====
-- day2/ex_ThreadPool: the thread-safe queue, the pool of workers over it, and what every
-- interleaving of their threads does.
pub mod Mutex
pub mod Queue
pub mod System
mod History
pub mod Invariant
pub mod Safety
pub mod Progress
pub mod Termination
mod Tests
