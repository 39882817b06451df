-- ===== src/Rwlock/Holders.antt =====
-- `main_example_01` of day2/07a_rwlock_tree/pthread_rwlock.cpp, with its `writer` and `reader`. A
-- thread may sleep as long as it likes.
use cpp_rt.Prelude.{ℕ, ◌<◌, ◌≡◌, Bool, true, false, Option, none, some, put_at}
use cpp_rt.Process.{Prog, ◌>>◌, test_errno, drop_answer, for_range}
use cpp_rt.Btree.Object.{Rwlock, wrlock, rdlock, unlock}

pub data Call : Type 0 where
  rwlock_init : Call
  create_writer : ℕ → Call
  create_reader : ℕ → Call
  sleep : ℕ → Call

-- One writer and two readers.
unfoldable pub main_example_01 : Prog Call (Unit {0})
main_example_01 = do
  drop_answer rwlock_init
  for_range 1 0 λ i. test_errno (create_writer i)
  for_range 2 0 λ i. test_errno (create_reader i)
  drop_answer (sleep 1500)

-- Where the loop of a `writer` or a `reader` stands: before it locks, before it unlocks, or at the
-- exit behind a call that failed.
pub data Pc : Type 0 where
  idle : Pc
  writing : Pc
  reading : Pc
  exited : Pc

abbrev pub then_at : Option Rwlock → Pc → Option (Rwlock × Pc)
then_at none p = none
then_at (some l) p = some (l, p)

-- `pthread_rwlock_unlock`, with the test of its error
abbrev pub unlocked : Option Rwlock → Rwlock → Rwlock × Pc
unlocked none m = (m, exited)
unlocked (some l) m = (l, idle)

-- A step of the thread, which blocks where a lock blocks.
unfoldable pub writer_move : Rwlock → Pc → Option (Rwlock × Pc)
writer_move l idle = then_at (wrlock l) writing
writer_move l writing = some (unlocked (unlock l) l)
writer_move l p = none

unfoldable pub reader_move : Rwlock → Pc → Option (Rwlock × Pc)
reader_move l idle = then_at (rdlock l) reading
reader_move l reading = some (unlocked (unlock l) l)
reader_move l p = none

pub record System : Type 0 where
  pub rw_lock : Rwlock
  pub pc : ℕ → Pc

-- `writes i` says whether thread `i` is a writer.
pub data Step (n : ℕ) (writes : ℕ → Bool) (s : System) : System → Type 0 where
  writer :
      (i : ℕ) (l : Rwlock) (p : Pc)
      → i < n
      → writes i ≡ true
      → writer_move s.rw_lock (s.pc i) ≡ some (l, p)
      → Step n writes s (record { rw_lock = l; pc = put_at i p s.pc })
  reader :
      (i : ℕ) (l : Rwlock) (p : Pc)
      → i < n
      → writes i ≡ false
      → reader_move s.rw_lock (s.pc i) ≡ some (l, p)
      → Step n writes s (record { rw_lock = l; pc = put_at i p s.pc })

abbrev pub start : System
start = record { rw_lock = record { writing = false; readers = 0 }; pc = λ i. idle }

pub data Reach (n : ℕ) (writes : ℕ → Bool) : System → Type 0 where
  here : Reach n writes start
  later : {s t : System} → Reach n writes s → Step n writes s t → Reach n writes t
