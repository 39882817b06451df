-- ===== src/Sched.antt =====
-- day2/04_attribs/sched.cpp: four threads of rising priority, each of which counts until `main`
-- interrupts it. What the threads print is left out.
pub mod Laws
use cpp_rt.Prelude.{
  ℕ, zero, suc, ◌+◌, Option, none, some, List, [], ◌∷◌, ◌++◌, ℤ, pos, eqb_ℤ, if◌then◌else◌,
}
use cpp_rt.Process.{Prog, done, call, ◌>>=◌, ◌>>◌, ask, drop_answer, test_errno, for_range}

-- The arguments of a thread, `Arg`, as they are when it is created.
pub record Arg : Type 0 where
  pub counter : ℕ
  pub interrupt : ℕ
  pub priority : ℕ

-- The calls of `main`; `set_interrupt i` is the write to `arg[i].interrupt`.
pub data Call : Type 0 where
  get_priority_min : ℕ → Call
  get_priority_max : ℕ → Call
  attr_init : Call
  attr_setinheritsched : ℕ → Call
  attr_setschedpolicy : ℕ → Call
  attr_getschedparam : Call
  attr_setschedparam : ℕ → Call
  create : ℕ → Arg → Call
  attr_destroy : Call
  sleep : ℕ → Call
  set_interrupt : ℕ → Call
  join : ℕ → Call

abbrev pub sched_fifo : ℕ
sched_fifo = 1

abbrev pub explicit_sched : ℕ
explicit_sched = 1

-- The calls of a thread; `read_interrupt` and `write_counter` are its accesses to its `Arg`.
pub data ThreadCall : Type 0 where
  attr_init attr_destroy : ThreadCall
  getdetachstate getstacksize getguardsize getschedparam getscope : ThreadCall
  sleep : ℕ → ThreadCall
  read_interrupt : ThreadCall
  write_counter : ℕ → ThreadCall

unfoldable pub display_attr : Prog ThreadCall (Unit {0})
display_attr = do
  drop_answer ThreadCall.attr_init
  test_errno getdetachstate
  test_errno getstacksize
  test_errno getguardsize
  test_errno getschedparam
  test_errno getscope
  drop_answer ThreadCall.attr_destroy

-- The loop of `worker_thread`; `none` if it has gone on for all the rounds.
unfoldable pub count_loop : ℕ → ℕ → Prog ThreadCall (Option ℕ)
count_loop zero counter = done none
count_loop (suc rounds) counter = ask read_interrupt >>= λ interrupt.
    if eqb_ℤ interrupt (pos 0)
    then (drop_answer (write_counter (counter + 1))
        >> drop_answer (ThreadCall.sleep 1)
        >> count_loop rounds (counter + 1))
    else done (some counter)

unfoldable pub worker_thread : ℕ → Prog ThreadCall (Option ℕ)
unfolding display_attr count_loop
worker_thread rounds = do
  display_attr
  drop_answer (ThreadCall.sleep 3)
  drop_answer (write_counter 0)
  count_loop rounds 0

-- `sched_get_priority_min`, of a policy, is a number of the system that does not change.
module _ (priority_min : ℕ → ℕ) where
  unfoldable pub create_thread : ℕ → Prog Call (Unit {0})
  create_thread i = do
    drop_answer attr_getschedparam
    drop_answer (get_priority_min sched_fifo)
    test_errno (attr_setschedparam (priority_min sched_fifo + i))
    test_errno
        (create i (record { counter = 0; interrupt = 0; priority = priority_min sched_fifo + i }))

  unfoldable pub main : Prog Call ℕ
  unfolding create_thread
  main = do
    drop_answer (get_priority_min sched_fifo)
    drop_answer (get_priority_max sched_fifo)
    test_errno Call.attr_init
    test_errno (attr_setinheritsched explicit_sched)
    test_errno (attr_setschedpolicy sched_fifo)
    for_range 4 0 create_thread
    test_errno Call.attr_destroy
    drop_answer (Call.sleep 10)
    for_range 4 0 λ i. drop_answer (set_interrupt i)
    for_range 4 0 λ i. test_errno (join i)
    done 0
