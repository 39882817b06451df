-- ===== src/Signals.antt =====
-- day2/04a_signals/signals.cpp: `main` waits for the signal that its thread sends. The output is
-- left out.
use cpp_rt.Prelude.{ℕ}
use cpp_rt.Process.{Prog, done, ◌>>◌, drop_answer, test_errno}

-- SIGUSR1 and SIGRTMIN
pub data Signal : Type 0 where
  usr1 rtmin : Signal

pub data Call : Type 0 where
  empty_sa_mask : Call
  sigaction : Signal → Call
  sigemptyset : Call
  sigaddset : Signal → Call
  block : Call
  self : Call
  create : Call
  sigwait : Call
  join : Call

pub data ThreadCall : Type 0 where
  sleep : ℕ → ThreadCall
  kill_main : Signal → ThreadCall

unfoldable pub worker : Prog ThreadCall ℕ
worker = do drop_answer (sleep 1); test_errno (kill_main usr1); done 0

-- What `sigwait` and `pthread_join` answer is dropped: they do not set `errno`, which the test
-- behind the first one reads.
unfoldable pub main : Prog Call ℕ
main = do
  drop_answer empty_sa_mask
  drop_answer (sigaction rtmin)
  drop_answer sigemptyset
  drop_answer (sigaddset usr1)
  drop_answer (sigaddset rtmin)
  test_errno block
  drop_answer self
  test_errno create
  drop_answer sigwait
  drop_answer join
  done 0
