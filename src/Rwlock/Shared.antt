-- ===== src/Rwlock/Shared.antt =====
-- `main_example_02` of day2/07a_rwlock_tree/pthread_rwlock.cpp: one `tree_writer` and two
-- `tree_reader`s over one `btree`. A call of the tree is three steps: it locks, works on the tree,
-- and unlocks. A thread may sleep as long as it likes before each of them.
use cpp_rt.Prelude.{
  ℕ, ◌+◌, ◌<◌, ◌≡◌, Bool, true, false, some, List, [], ◌∷◌, put_at, if◌then◌else◌, ◌==◌, pos,
}
use cpp_rt.Btree.Heap.{Heap}
use cpp_rt.Btree.Object.{
  Btree, Rwlock, create, wrlock, rdlock, unlock, insert_within, search_within,
}

-- Where `tree_writer` stands: between two calls, or in `insert`, before or behind its work.
pub data WriterPc : Type 0 where
  resting inserting inserted : WriterPc

-- Where `tree_reader` stands: between two calls, or in `search`, before its work, or behind it with
-- its answer.
pub data ReaderPc : Type 0 where
  resting searching : ReaderPc
  searched : Bool → ReaderPc

-- Where a reader stands, with its round and the key that it searches next.
pub record Reader : Type 0 where
  pub pc : ReaderPc
  pub i : ℕ
  pub idx : ℕ

-- `next` is the key that the writer inserts next, and `found` has what the readers have printed,
-- the newest first.
pub record System : Type 0 where
  pub bt : Btree
  pub writer : WriterPc
  pub next : ℕ
  pub reader : ℕ → Reader
  pub found : List ℕ

abbrev pub advance : Reader → Reader
advance p =
    if p.idx + 1 == 20
    then record { pc = ReaderPc.resting; i = p.i + 1; idx = 0 }
    else record { pc = ReaderPc.resting; i = p.i; idx = p.idx + 1 }

abbrev pub report : Bool → ℕ → List ℕ → List ℕ
report true idx found = idx ∷ found
report false idx found = found

-- The fuel of a call: one more than the keys that the writer inserts.
abbrev pub fuel : ℕ
fuel = 21

pub data Step (s : System) : System → Type 0 where
  insert_locks :
      (l : Rwlock)
      → s.writer ≡ WriterPc.resting
      → s.next < 20
      → wrlock s.bt.rw_lock ≡ some l
      → Step s (record s { bt = record s.bt { rw_lock = l }; writer = inserting })
  insert_works :
      (t : Btree)
      → s.writer ≡ inserting
      → insert_within fuel (pos s.next) s.bt ≡ some t
      → Step s (record s { bt = t; writer = inserted; next = s.next + 1 })
  insert_unlocks :
      (l : Rwlock)
      → s.writer ≡ inserted
      → unlock s.bt.rw_lock ≡ some l
      → Step s (record s { bt = record s.bt { rw_lock = l }; writer = WriterPc.resting })
  search_locks :
      (r : ℕ) (l : Rwlock)
      → r < 2
      → (s.reader r).pc ≡ ReaderPc.resting
      → (s.reader r).i < 10
      → rdlock s.bt.rw_lock ≡ some l
      → Step s (record s {
        bt = record s.bt { rw_lock = l };
        reader = put_at r (record (s.reader r) { pc = searching }) s.reader;
      })
  search_works :
      (r : ℕ) (b : Bool) (t : Btree)
      → r < 2
      → (s.reader r).pc ≡ searching
      → search_within fuel (pos (s.reader r).idx) s.bt ≡ some (b, t)
      → Step s (record s {
        bt = t;
        reader = put_at r (record (s.reader r) { pc = searched b }) s.reader;
      })
  search_unlocks :
      (r : ℕ) (b : Bool) (l : Rwlock)
      → r < 2
      → (s.reader r).pc ≡ searched b
      → unlock s.bt.rw_lock ≡ some l
      → Step s (record s {
        bt = record s.bt { rw_lock = l };
        reader = put_at r (advance (s.reader r)) s.reader;
        found = report b (s.reader r).idx s.found;
      })

abbrev pub start : Heap → System
start h = record {
  bt = create h;
  writer = WriterPc.resting;
  next = 0;
  reader = λ r. record { pc = ReaderPc.resting; i = 0; idx = 0 };
  found = [];
}

pub data Reach (h : Heap) : System → Type 0 where
  here : Reach h (start h)
  later : {s t : System} → Reach h s → Step s t → Reach h t
