-- ===== src/Tss.antt =====
-- day2/14_tss: three threads with a value of their own for one key.
use cpp_rt.Prelude.{ℕ, ◌%◌}
use cpp_rt.Process.{Prog, done, ◌>>◌, drop_answer, test_errno, for_range}

-- `create i t` makes thread `i` with text `t`.
pub data Call : Type 0 where
  key_create : Call
  create : ℕ → ℕ → Call
  join : ℕ → Call
  key_delete : Call

-- `copy` is the new string that the thread makes of its text; `getspecific` is the call of
-- `wyswietl`.
pub data ThreadCall : Type 0 where
  copy : ThreadCall
  setspecific : ThreadCall
  sleep : ℕ → ThreadCall
  getspecific : ThreadCall

-- `watek`
unfoldable pub watek : Prog ThreadCall ℕ
watek = do
  drop_answer copy
  drop_answer setspecific
  drop_answer (sleep 1)
  drop_answer getspecific
  done 0

unfoldable pub main : Prog Call ℕ
main = do
  test_errno key_create
  for_range 3 0 λ i. test_errno (create i (i % 3))
  for_range 3 0 λ i. drop_answer (join i)
  test_errno key_delete
  done 0
