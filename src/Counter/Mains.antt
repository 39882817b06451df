-- ===== src/Counter/Mains.antt =====
-- `main` of day1/05_mutex/pthread_mutex_perf.cpp and of day2/08_spin/pthread_spinlock.c.
use cpp_rt.Prelude.{ℕ}
use cpp_rt.Process.{Prog, done, ◌>>◌, test_errno, drop_answer, for_range}

pub data Call : Type 0 where
  mutex_init : Call
  spin_init : Call
  create : ℕ → Call
  join : ℕ → Call
  mutex_destroy : Call

unfoldable pub mutex_main : Prog Call ℕ
mutex_main = do
  test_errno mutex_init
  for_range 10 0 λ i. test_errno (create i)
  for_range 10 0 λ i. test_errno (join i)
  drop_answer mutex_destroy
  done 0

unfoldable pub spin_main : Prog Call ℕ
spin_main = do
  test_errno mutex_init
  test_errno spin_init
  for_range 25 0 λ i. test_errno (create i)
  for_range 25 0 λ i. test_errno (join i)
  done 0
