-- ===== src/ThreadPool/Queue.antt =====
-- day2/ex_ThreadPool/thread_safe_queue.h, an access to shared state at a time. A function
-- `..._move` makes one step of thread `i` inside the member function of that name: the next
-- position, or `none` while the thread is blocked or has left the function.
use cpp_rt.Prelude.{ℕ, Bool, true, false, Option, none, some, List, [], ◌∷◌, ◌++◌}
use cpp_rt.ThreadPool.Mutex.{Task, Shared, lock, unlock}

abbrev pub then_at {ℓ} : {P : Type ℓ} → Option Shared → P → Option (Shared × P)
then_at o p = elim o [ none ↦ none | some m ↦ some (m, p) ]

-- `q.empty()`
abbrev pub null : List Task → Bool
null [] = true
null (x ∷ xs) = false

-- Where a thread stands in `is_empty`.
pub data EmptyPc : Type 0 where
  lock_empty : EmptyPc
  read_empty : EmptyPc
  unlock_empty : Bool → EmptyPc
  is_empty_returns : Bool → EmptyPc

unfoldable pub is_empty_move : ℕ → Shared → EmptyPc → Option (Shared × EmptyPc)
is_empty_move i m lock_empty = then_at (lock i m) read_empty
is_empty_move i m read_empty = some (m, unlock_empty (null m.queue))
is_empty_move i m (unlock_empty b) = then_at (unlock i m) (is_empty_returns b)
is_empty_move i m (is_empty_returns b) = none

-- Where a thread stands in `pop`. In `asleep` it blocks in `pthread_cond_wait`, with the mutex
-- released; in `woken` it is there still, and has to lock the mutex again.
pub data PopPc : Type 0 where
  lock_pop : PopPc
  test : EmptyPc → PopPc
  wait : PopPc
  asleep : PopPc
  woken : PopPc
  take_front : PopPc
  unlock_pop : Task → PopPc
  pop_returns : Task → PopPc

-- `item = q.front(); q.pop();`, on an empty queue undefined.
abbrev pub take : Shared → List Task → Option (Shared × PopPc)
take m [] = none
take m (x ∷ xs) = some (record m { queue = xs; taken = m.taken ++ x ∷ [] }, unlock_pop x)

abbrev pub in_test : Option (Shared × EmptyPc) → Option (Shared × PopPc)
in_test none = none
in_test (some (m, e)) = some (m, test e)

unfoldable pub pop_move : ℕ → Shared → PopPc → Option (Shared × PopPc)
pop_move i m lock_pop = then_at (lock i m) (test lock_empty)
pop_move i m (test (is_empty_returns true)) = some (m, wait)
pop_move i m (test (is_empty_returns false)) = some (m, take_front)
pop_move i m (test e) = in_test (is_empty_move i m e)
pop_move i m wait = then_at (unlock i m) asleep
pop_move i m asleep = none
pop_move i m woken = then_at (lock i m) (test lock_empty)
pop_move i m take_front = take m m.queue
pop_move i m (unlock_pop x) = then_at (unlock i m) (pop_returns x)
pop_move i m (pop_returns x) = none

-- Where a thread stands in `push`; `signal` is the call of `pthread_cond_signal`, which is a step
-- of the whole system.
pub data PushPc : Type 0 where
  lock_push : Task → PushPc
  append : Task → PushPc
  unlock_push : PushPc
  signal : PushPc

unfoldable pub push_move : ℕ → Shared → PushPc → Option (Shared × PushPc)
push_move i m (lock_push x) = then_at (lock i m) (append x)
push_move i m (append x) = some (record m { queue = m.queue ++ x ∷ [] }, unlock_push)
push_move i m unlock_push = then_at (unlock i m) signal
push_move i m signal = none
