-- ===== src/ThreadPool/System.antt =====
-- day2/ex_ThreadPool/threadpool.cpp and main.cpp: `main` builds a pool of `n` workers, adds its
-- tasks and destroys the pool. Its threads are interleaved in any order.
use cpp_rt.Prelude.{
  ℕ, zero, suc, ◌+◌, ◌≤◌, ◌<◌, ◌≡◌, ◌≢◌, Option, none, some, List, [], ◌∷◌, ◌++◌, map, put_at,
  replicate,
}
use cpp_rt.ThreadPool.Mutex.{Task, Shared}
use cpp_rt.ThreadPool.Queue.{
  PopPc, PushPc, lock_pop, asleep, woken, pop_returns, lock_push, signal, pop_move, push_move,
}

-- Where a thread stands. `main` is in the constructor (`launching k`: `threads[k]` is next), in
-- `push` with the pushes that are left, in the second loop of the destructor, or done; a worker
-- has not been launched, is in `pop`, runs a task, or has returned.
pub data Pc : Type 0 where
  launching : ℕ → List Task → Pc
  pushing : PushPc → List Task → Pc
  joining : ℕ → Pc
  finished : Pc
  unborn : Pc
  popping : PopPc → Pc
  running : ℕ → Pc
  exited : Pc

pub record System : Type 0 where
  pub mem : Shared
  pub pc : ℕ → Pc

-- The pushes of a whole run: one for each `add_task`, and one `nullptr` for each worker from the
-- first loop of the destructor.
unfoldable pub program : ℕ → List ℕ → List Task
program n tasks = map some tasks ++ replicate n none

-- The next call of `push`, or on to the joins.
abbrev pub next_push : List Task → Pc
next_push [] = joining 0
next_push (x ∷ rest) = pushing (lock_push x) rest

abbrev pub in_pop : Option (Shared × PopPc) → Option (Shared × Pc)
in_pop none = none
in_pop (some (m, p)) = some (m, popping p)

abbrev pub in_push : List Task → Option (Shared × PushPc) → Option (Shared × Pc)
in_push rest none = none
in_push rest (some (m, p)) = some (m, pushing p rest)

-- A step of `threadpool::worker`: an empty task ends the loop, another is called.
unfoldable pub worker_move : ℕ → Shared → PopPc → Option (Shared × Pc)
worker_move i m (pop_returns none) = some (m, exited)
worker_move i m (pop_returns (some t)) = some (m, running t)
worker_move i m p = in_pop (pop_move i m p)

-- A step that one thread makes by itself, whatever the positions of the others.
unfoldable pub move : ℕ → Shared → Pc → Option (Shared × Pc)
move i m (pushing p rest) = in_push rest (push_move i m p)
move i m (popping p) = worker_move i m p
move i m (running t) = some (record m { ran = m.ran ++ t ∷ [] }, popping lock_pop)
move i m _ = none

-- A step of the system. The constructor launches a worker; `pthread_cond_signal` wakes one thread
-- that waits, if there is one; `pthread_join` returns when its worker has.
pub data Step (n : ℕ) (s : System) : System → Type 0 where
  act :
      (i : ℕ) {m : Shared} {p : Pc}
      → i ≤ n
      → move i s.mem (s.pc i) ≡ some (m, p)
      → Step n s (record { mem = m; pc = put_at i p s.pc })
  launch :
      (k : ℕ) {rest : List Task}
      → k < n
      → s.pc 0 ≡ launching k rest
      → Step n s (record s {
        pc = put_at 0 (launching (k + 1) rest) (put_at (k + 1) (popping lock_pop) s.pc);
      })
  launched :
      {rest : List Task}
      → s.pc 0 ≡ launching n rest
      → Step n s (record s { pc = put_at 0 (next_push rest) s.pc })
  wake :
      (w : ℕ) {rest : List Task}
      → w < n
      → s.pc (w + 1) ≡ popping asleep
      → s.pc 0 ≡ pushing signal rest
      → Step n s (record s { pc = put_at 0 (next_push rest) (put_at (w + 1) (popping woken) s.pc) })
  wake_none :
      {rest : List Task}
      → ((w : ℕ) → w < n → s.pc (w + 1) ≢ popping asleep)
      → s.pc 0 ≡ pushing signal rest
      → Step n s (record s { pc = put_at 0 (next_push rest) s.pc })
  join :
      (k : ℕ)
      → k < n
      → s.pc (k + 1) ≡ exited
      → s.pc 0 ≡ joining k
      → Step n s (record s { pc = put_at 0 (joining (k + 1)) s.pc })
  joined : s.pc 0 ≡ joining n → Step n s (record s { pc = put_at 0 finished s.pc })

-- `pthread_cond_wait` may return without a signal.
pub data Spurious (n : ℕ) (s : System) : System → Type 0 where
  spurious :
      (w : ℕ)
      → w < n
      → s.pc (w + 1) ≡ popping asleep
      → Spurious n s (record s { pc = put_at (w + 1) (popping woken) s.pc })

abbrev pub fresh : Shared
fresh = record { queue = []; owner = none; depth = 0; taken = []; ran = [] }

abbrev pub first_pc : List Task → ℕ → Pc
first_pc todo zero = launching 0 todo
first_pc todo (suc i) = unborn

-- `main` enters the constructor of the pool.
abbrev pub start : ℕ → List ℕ → System
start n tasks = record { mem = fresh; pc = first_pc (program n tasks) }

pub data Reach (n : ℕ) (tasks : List ℕ) : System → Type 0 where
  here : Reach n tasks (start n tasks)
  later : {s t : System} → Reach n tasks s → Step n s t → Reach n tasks t
  later_spurious : {s t : System} → Reach n tasks s → Spurious n s t → Reach n tasks t
