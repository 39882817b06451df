-- ===== src/Cancel.antt =====
-- day2/13_cancel/pthread_cancel.c: a thread is cancelled, with one of three settings. The output is
-- left out.
use cpp_rt.Prelude.{ℕ, zero, suc, ℤ, pos, eqb_ℤ, if◌then◌else◌}
use cpp_rt.Process.{Prog, done, ◌>>◌, drop_answer, test_errno}

pub data Routine : Type 0 where
  thread_01 thread_02 thread_03 : Routine

-- `create` has the thread's routine and its number.
pub data Call : Type 0 where
  create : Routine → ℕ → Call
  nanosleep : ℕ → ℕ → Call
  cancel : Call
  join : Call

pub data CancelState : Type 0 where
  enable disable : CancelState

pub data CancelType : Type 0 where
  asynchronous deferred : CancelType

pub data ThreadCall : Type 0 where
  cleanup_push : ℕ → ThreadCall
  setcancelstate : CancelState → ThreadCall
  setcanceltype : CancelType → ThreadCall
  testcancel : ThreadCall
  sleep : ℕ → ThreadCall
  pause : ThreadCall

-- The calls of `thread_01`, which then computes for ever.
unfoldable pub calls_01 : ℕ → Prog ThreadCall (Unit {0})
calls_01 num = do
  drop_answer (cleanup_push num)
  test_errno (setcancelstate enable)
  test_errno (setcanceltype asynchronous)

-- The endless loop of `thread_02`, cut at a number of rounds.
unfoldable pub test_loop : ℕ → Prog ThreadCall (Unit {0})
test_loop zero = done tt
test_loop (suc rounds) = drop_answer testcancel >> test_loop rounds

unfoldable pub calls_02 : ℕ → ℕ → Prog ThreadCall (Unit {0})
unfolding test_loop
calls_02 rounds num = do
  drop_answer (cleanup_push num)
  test_errno (setcancelstate enable)
  test_errno (setcanceltype deferred)
  test_loop rounds

unfoldable pub calls_03 : ℕ → Prog ThreadCall (Unit {0})
calls_03 num = do
  drop_answer (cleanup_push num)
  test_errno (setcancelstate disable)
  drop_answer (sleep 2)
  test_errno (setcancelstate enable)
  drop_answer pause

unfoldable pub interrupt : Prog Call (Unit {0})
interrupt = do drop_answer (nanosleep 0 5000000); test_errno cancel; test_errno join

-- The `switch` of `main` over the number that its argument spells.
unfoldable pub routine_of : ℤ → Routine
routine_of z =
    if eqb_ℤ z (pos 1) then thread_01 else if eqb_ℤ z (pos 2) then thread_02 else thread_03

abbrev pub number_of : Routine → ℕ
number_of thread_01 = 0
number_of thread_02 = 1
number_of thread_03 = 2

unfoldable pub main : ℤ → Prog Call ℕ
unfolding routine_of interrupt
main z = do test_errno (create (routine_of z) (number_of (routine_of z))); interrupt; done 0
