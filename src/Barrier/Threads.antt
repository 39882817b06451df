-- ===== src/Barrier/Threads.antt =====
-- day2/12_barrier/pthread_barrier.c: `worker`, for `n` threads that move in any order. A thread may
-- sleep as long as it likes.
use cpp_rt.Prelude.{ℕ, ◌+◌, ◌<◌, ◌≡◌, ◌≢◌, ◌==◌, Bool, put_at}

-- Where a thread stands: before the barrier, in `pthread_barrier_wait`, in the `switch` behind it
-- with the call's status (`serial` for PTHREAD_BARRIER_SERIAL_THREAD and `ok` for 0), or at its
-- end, where it is kept whether the thread was the serial one.
pub data Pc : Type 0 where
  sleeping : Pc
  waiting : Pc
  passed : Bool → Pc
  quit : Bool → Pc

-- The count that the barrier was made with, how many threads wait at it, and the threads.
pub record System : Type 0 where
  pub count : ℕ
  pub arrived : ℕ
  pub pc : ℕ → Pc

abbrev pub let_go : Bool → Pc → Pc
let_go serial waiting = passed serial
let_go serial p = p

-- What `pthread_barrier_wait` does when as many threads wait as the count says: those that wait go
-- on, and no other. One of them, `j`, is answered PTHREAD_BARRIER_SERIAL_THREAD, the others 0.
abbrev pub release : ℕ → (ℕ → Pc) → ℕ → Pc
release j pc i = let_go (i == j) (pc i)

pub data Step (n : ℕ) (s : System) : System → Type 0 where
  arrive :
      (i : ℕ)
      → i < n
      → s.pc i ≡ sleeping
      → s.arrived + 1 ≢ s.count
      → Step n s (record s { arrived = s.arrived + 1; pc = put_at i waiting s.pc })
  complete :
      (i j : ℕ)
      → i < n
      → s.pc i ≡ sleeping
      → s.arrived + 1 ≡ s.count
      → j < n
      → put_at i waiting s.pc j ≡ waiting
      → Step n s (record s { arrived = 0; pc = release j (put_at i waiting s.pc) })
  leave :
      (i : ℕ) (serial : Bool)
      → i < n
      → s.pc i ≡ passed serial
      → Step n s (record s { pc = put_at i (quit serial) s.pc })

-- `main` makes the barrier for as many threads as it creates.
abbrev pub init_count : ℕ → ℕ
init_count num_threads = num_threads

abbrev pub start : ℕ → System
start n = record { count = init_count n; arrived = 0; pc = λ i. sleeping }

pub data Reach (n : ℕ) : System → Type 0 where
  here : Reach n (start n)
  later : {s t : System} → Reach n s → Step n s t → Reach n t
