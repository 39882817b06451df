-- ===== src/MutexTypes.antt =====
-- day1/06_mutex_type/pthread_mutex_type.c, and the same file of day2/06_mutex_type: a thread that
-- locks one mutex twice, with the kind of mutex that the argument of the program chooses.
mod Laws
mod Tests
use cpp_rt.Prelude.{
  ℕ, zero, suc, ◌+◌, ◌-◌, ◌≡◌, Option, none, some, List, [], ◌∷◌, ℤ, pos, eqb_ℤ, if◌then◌else◌,
}
use cpp_rt.Process.{Prog, done, exit, call, ◌>>=◌, ◌>>◌, drop_answer, test_errno, Trace, System}

-- PTHREAD_MUTEX_NORMAL, PTHREAD_MUTEX_ERRORCHECK and PTHREAD_MUTEX_RECURSIVE
pub data Kind : Type 0 where
  normal errorcheck recursive : Kind

pub data Call : Type 0 where
  attr_init : Call
  settype : Kind → Call
  init : Call
  create : Call
  join : Call

pub data ThreadCall : Type 0 where
  lock unlock : ThreadCall

-- The thread, which returns NULL.
unfoldable pub watek : Prog ThreadCall ℕ
watek = do test_errno lock; test_errno lock; test_errno unlock; test_errno unlock; done 0

-- The `switch` over the number that the argument spells.
unfoldable pub kind_of : ℤ → Kind
kind_of z = if eqb_ℤ z (pos 1) then errorcheck else if eqb_ℤ z (pos 2) then recursive else normal

-- `main` with the number that its first argument spells, if it has one. What `pthread_join` answers
-- is dropped: the `test_errno` behind it sees the 0 of `pthread_create`.
unfoldable pub main : Option ℤ → Prog Call ℕ
unfolding kind_of
main none = do drop_answer attr_init; exit 1
main (some z) = do
  drop_answer attr_init
  drop_answer (settype (kind_of z))
  test_errno init
  test_errno create
  drop_answer join
  done 0
