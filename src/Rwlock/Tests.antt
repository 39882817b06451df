-- ===== src/Rwlock/Tests.antt =====
-- day2/07a_rwlock_tree/pthread_rwlock.cpp: a writer that holds the lock, and a tree that a key has
-- been inserted into.
use cpp_rt.Prelude.{
  ◌<◌, ◌⊎◌, ℕ, ◌≡◌, ◌≢◌, refl, Bool, true, false, none, some, ◌==◌, ltb, pos, arith,
}
use cpp_rt.Btree.Heap.{Heap}
use cpp_rt.Btree.Object.{Btree, insert_within, search_within}
use cpp_rt.Rwlock.Holders.{Pc, idle, writing, exited, writer_move}
use cpp_rt.Rwlock.Exclusion.{writer-alone}
use cpp_rt.Rwlock.Shared.{WriterPc, ReaderPc, fuel, insert_locks, insert_works}
use cpp_rt.Rwlock.Locks.{AllBelow}
use cpp_rt.Rwlock.Turns.{IsDone}
use cpp_rt.Rwlock.Readers.{readers-see_writer}
use cpp_rt.Rwlock.Holders
use cpp_rt.Rwlock.Shared

-- Thread 0 writes.
abbrev is_writer : ℕ → Bool
is_writer i = i == 0

writer_locks :
    writer_move (record { writing = false; readers = 0 }) idle
    ≡ some (record { writing = true; readers = 0 }, writing)
unfolding writer_move
writer_locks = refl

abbrev locked : (s : Holders.System) × Holders.Reach 3 is_writer s
locked = (_, Holders.later Holders.here (Holders.writer 0 _ _ (omega arith) refl writer_locks))

writer-alone_example :
    ((locked.0.pc 0 ≢ writing) ⊎ (locked.0.pc 1 ≡ idle)) × (locked.0.pc 0 ≢ exited)
writer-alone_example = writer-alone 0 1 locked.1 (omega arith) (omega arith) (λ e. omega (arith, e))

abbrev empty_heap : Heap
empty_heap = record { next = 1; cell = λ p. none }

abbrev locks : (s : Shared.System) × Shared.Reach empty_heap s
locks = (_, Shared.later Shared.here (insert_locks _ refl (omega arith) refl))

first_insert : (t : Btree) × (insert_within fuel (pos 0) locks.0.bt ≡ some t)
first_insert = (readers-see_writer {h = empty_heap} (omega arith) locks.1).3

abbrev inserts : (s : Shared.System) × Shared.Reach empty_heap s
inserts = (_, Shared.later locks.1 (insert_works first_insert.0 refl first_insert.1))

readers-see_writer_example :
    ((inserts.0.writer ≡ WriterPc.resting)
      ⊎ ((r : ℕ) → r < 2 → (inserts.0.reader r).pc ≡ ReaderPc.resting))
    × AllBelow inserts.0.next inserts.0.found
    × ((q : ℕ)
        → search_within fuel (pos q) inserts.0.bt ≡ some (ltb q inserts.0.next, inserts.0.bt))
    × ((t : Btree) × (insert_within fuel (pos inserts.0.next) inserts.0.bt ≡ some t))
    × (IsDone inserts.0 ⊎ ((t : Shared.System) × Shared.Step inserts.0 t))
readers-see_writer_example = readers-see_writer {h = empty_heap} (omega arith) inserts.1
