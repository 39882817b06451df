-- ===== src/Counter.antt =====
-- day1/05_mutex/pthread_mutex_perf.cpp and day2/08_spin/pthread_spinlock.c: threads that count up
-- one shared counter under a lock. The mutex and the spin lock are the same to them: a call of
-- lock returns when the lock is free.
pub mod Mains
mod Laws
pub mod Plans
mod Tests
use cpp_rt.Prelude.{
  ℕ, zero, suc, ◌+◌, ◌*◌, ◌<◌, ◌≡◌, Option, none, some, put_at, Bool, true, false, ◌==◌,
  if◌then◌else◌,
}

-- The counter and the thread that holds the lock.
pub record Shared : Type 0 where
  pub counter : ℕ
  pub holder : Option ℕ

-- Where a thread stands, with the rounds that it has left: at the head of its loop (or at its end,
-- with no round left), before it reads the counter, before it writes what it read and 1, or before
-- it unlocks.
pub data Pc : Type 0 where
  looping : ℕ → Pc
  reading : ℕ → Pc
  writing : ℕ → ℕ → Pc
  unlocking : ℕ → Pc

-- `lock_guard(pthread_mutex_t&)`, and `pthread_spin_lock`; `none` while it blocks
abbrev pub lock : ℕ → Shared → Option Shared
lock i m = elim m.holder [ none ↦ some (record m { holder = some i }) | some j ↦ none ]

-- `~lock_guard()`, and `pthread_spin_unlock`
abbrev pub unlock : Shared → Shared
unlock m = record m { holder = none }

abbrev pub then_at : Option Shared → Pc → Option (Shared × Pc)
then_at none p = none
then_at (some m) p = some (m, p)

-- A step of thread `i`.
unfoldable pub move : ℕ → Shared → Pc → Option (Shared × Pc)
move i m (looping zero) = none
move i m (looping (suc k)) = then_at (lock i m) (reading k)
move i m (reading k) = some (m, writing k m.counter)
move i m (writing k value) = some (record m { counter = value + 1 }, unlocking k)
move i m (unlocking k) = some (unlock m, looping k)

pub record System : Type 0 where
  pub mem : Shared
  pub pc : ℕ → Pc

-- The counter is 0, and each thread has `k` rounds to go.
abbrev pub start : ℕ → System
start k = record { mem = record { counter = 0; holder = none }; pc = λ i. looping k }

pub data Step (n : ℕ) (s : System) : System → Type 0 where
  act :
      (i : ℕ) (m : Shared) (p : Pc)
      → i < n
      → move i s.mem (s.pc i) ≡ some (m, p)
      → Step n s (record { mem = m; pc = put_at i p s.pc })

pub data Reach (n k : ℕ) : System → Type 0 where
  here : Reach n k (start k)
  later : {s t : System} → Reach n k s → Step n s t → Reach n k t

-- What `main` prints behind the joins: whether the counter has the expected value.
abbrev pub is_ok : ℕ → ℕ → System → Bool
is_ok n k s = s.mem.counter == n * k
