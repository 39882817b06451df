-- ===== src/Rwlock/Readers.antt =====
-- `main_example_02` of day2/07a_rwlock_tree/pthread_rwlock.cpp: the lock, and what the readers see
-- of the writer.
use cpp_rt.Prelude.{ℕ, ◌<◌, ◌≡◌, ◌⊎◌, some, pos, ltb, arith}
use cpp_rt.Btree.Heap.{Heap}
use cpp_rt.Btree.Object.{Btree, insert_within, search_within}
use cpp_rt.Btree.Within.{insert_within-IsValid}
use cpp_rt.Rwlock.Shared.{WriterPc, ReaderPc, System, fuel, Step, Reach}
use cpp_rt.Rwlock.Locks.{AllBelow, length-keys}
use cpp_rt.Rwlock.Invariant.{search-ltb, Reach-Inv}
use cpp_rt.Rwlock.Turns.{IsDone, writer_or_readers, moves_or_IsDone}

-- In every state that the writer and the readers reach, where each call of the tree locks, works
-- and unlocks in steps of its own: the writer is not in `insert` while a reader is in `search`;
-- every key that a reader has reported was inserted by then or before; the work of a search for
-- any key, done now, returns, leaves the tree as it is and answers true exactly if the writer has
-- inserted the key; the work of the next insertion, done now, returns; and either the writer has
-- inserted its 20 keys and each reader has gone its 10 rounds, or one of them can move, so that
-- there is no deadlock.
pub readers-see_writer :
    {h : Heap} {s : System}
    → 0 < h.next
    → Reach h s
    → ((s.writer ≡ WriterPc.resting) ⊎ ((r : ℕ) → r < 2 → (s.reader r).pc ≡ ReaderPc.resting))
      × AllBelow s.next s.found
      × ((q : ℕ) → search_within fuel (pos q) s.bt ≡ some (ltb q s.next, s.bt))
      × ((t : Btree) × (insert_within fuel (pos s.next) s.bt ≡ some t))
      × (IsDone s ⊎ ((t : System) × Step s t))
readers-see_writer {s} pos_next r =
    let inv = Reach-Inv pos_next r in
    let (t, run, v, lock) =
      insert_within-IsValid fuel (pos s.next) s.bt inv.valid
        (omega (arith, length-keys s.next, inv.within)) in
    (writer_or_readers s inv, inv.sound, search-ltb s inv, (t, run), moves_or_IsDone s inv)
