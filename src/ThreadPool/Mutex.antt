-- ===== src/ThreadPool/Mutex.antt =====
-- day2/ex_ThreadPool/lock_guard.h over a recursive pthread mutex, with the queue's contents beside
-- the mutex that guards them. Threads are numbered: 0 runs `main`, `i + 1` is `threads[i]`.
use cpp_rt.Prelude.{ℕ, ◌+◌, ◌-◌, Option, none, some, List, ◌==◌, if◌then◌else◌}

-- A `task_t`: the task's number, or `none` for the empty function (`nullptr`).
abbrev pub Task : Type 0
Task = Option ℕ

-- The members of one `thread_safe_queue`. `taken` and `ran` record the history: what `pop` has
-- handed out, in order, and which tasks have been called.
pub record Shared : Type 0 where
  pub queue : List Task
  pub owner : Option ℕ
  pub depth : ℕ
  pub taken : List Task
  pub ran : List ℕ

-- `pthread_mutex_lock`, on a mutex of type PTHREAD_MUTEX_RECURSIVE: `none` while it would block.
abbrev pub lock : ℕ → Shared → Option Shared
lock i m = elim m.owner [
  | none ↦ some (record m { owner = some i; depth = 1 })
  | some j ↦ if j == i then some (record m { depth = m.depth + 1 }) else none
]

-- `pthread_mutex_unlock`; `none` for a thread that does not hold the mutex (EPERM).
abbrev pub unlock : ℕ → Shared → Option Shared
unlock i m = elim m.owner [
  | none ↦ none
  | some j ↦
      if j == i
      then some (
          if m.depth == 1
          then record m { owner = none; depth = 0 }
          else record m { depth = m.depth - 1 })
      else none
]

-- How often thread `i` has locked the mutex.
abbrev pub locks : Shared → ℕ → ℕ
locks m i = elim m.owner [ none ↦ 0 | some j ↦ if j == i then m.depth else 0 ]
