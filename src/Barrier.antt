-- ===== src/Barrier.antt =====
-- day2/12_barrier/pthread_barrier.c: threads that wait for one another at a barrier.
pub mod Threads
mod Laws
pub mod Plans
mod Tests
use cpp_rt.Prelude.{ℕ, zero, suc, ◌+◌}
use cpp_rt.Process.{Prog, done, call, ◌>>=◌, ◌>>◌, test_errno, for_range}

-- The calls of `main`.
pub data Call : Type 0 where
  barrier_init : ℕ → Call
  create : ℕ → Call
  join : ℕ → Call
  barrier_destroy : Call

abbrev pub num_threads : ℕ
num_threads = 10

unfoldable pub main : Prog Call ℕ
main = do
  test_errno (barrier_init num_threads)
  for_range num_threads 0 λ i. test_errno (create i)
  for_range num_threads 0 λ i. test_errno (join i)
  test_errno barrier_destroy
  done 0
