-- ===== src/Btree/Object.antt =====
-- The public members of `btree` in day2/07a_rwlock_tree/pthread_rwlock.cpp. Each holds the lock
-- from its first line to its last; what `insert` and `search` do in between are functions of their
-- own, for threads that share a tree. `none` is a call that blocks, that has undefined behaviour,
-- or whose fuel ran out.
use cpp_rt.Prelude.{ℕ, ◌+◌, ◌-◌, Bool, true, false, not, Option, none, some, ◌==◌, if◌then◌else◌, ℤ}
use cpp_rt.Btree.Heap.{Heap, new_node}
use cpp_rt.Btree.Nodes.{insert_at, search_at, destroy_at}

-- `pthread_rwlock_t`
pub record Rwlock : Type 0 where
  pub writing : Bool
  pub readers : ℕ

abbrev pub wrlock : Rwlock → Option Rwlock
wrlock l =
    if l.writing
    then none
    else (if l.readers == 0 then some (record l { writing = true }) else none)

abbrev pub rdlock : Rwlock → Option Rwlock
rdlock l = if l.writing then none else some (record l { readers = l.readers + 1 })

abbrev pub unlock : Rwlock → Option Rwlock
unlock l =
    if l.writing
    then some (record l { writing = false })
    else (if l.readers == 0 then none else some (record l { readers = l.readers - 1 }))

-- The members of a `btree`, with the heap that they point into.
pub record Btree : Type 0 where
  pub root : ℕ
  pub rw_lock : Rwlock
  pub heap : Heap

infixl 5 ◌>>=◌
abbrev pub ◌>>=◌ {ℓ κ} : {A : Type ℓ} {B : Type κ} → Option A → (A → Option B) → Option B
none >>= f = none
some a >>= f = f a

-- `btree()`
abbrev pub create : Heap → Btree
create h = record { root = 0; rw_lock = record { writing = false; readers = 0 }; heap = h }

-- What `insert` does between `wrlock` and `unlock`.
unfoldable pub insert_within : ℕ → ℤ → Btree → Option Btree
insert_within fuel key t = do
  (root, heap) ←
      if t.root == 0
      then new_node key t.heap
      else (insert_at fuel key t.root t.heap >>= λ r. some (t.root, r.1))
  some (record t { root = root; heap = heap })

unfoldable pub insert : ℕ → ℤ → Btree → Option Btree
unfolding insert_within
insert fuel key t = do
  held ← wrlock t.rw_lock
  inserted ← insert_within fuel key (record t { rw_lock = held })
  left ← unlock inserted.rw_lock
  some (record inserted { rw_lock = left })

-- What `search` does between `rdlock` and `unlock`.
unfoldable pub search_within : ℕ → ℤ → Btree → Option (Bool × Btree)
search_within fuel key t = do
  (result, heap) ← search_at fuel key t.root t.heap
  some (not (result == 0), record t { heap = heap })

unfoldable pub search : ℕ → ℤ → Btree → Option (Bool × Btree)
unfolding search_within
search fuel key t = do
  held ← rdlock t.rw_lock
  (found, searched) ← search_within fuel key (record t { rw_lock = held })
  left ← unlock searched.rw_lock
  some (found, record searched { rw_lock = left })

unfoldable pub destroy_tree : ℕ → Btree → Option Btree
destroy_tree fuel t = do
  held ← wrlock t.rw_lock
  (_, heap) ← destroy_at fuel t.root t.heap
  left ← unlock held
  some (record t { rw_lock = left; heap = heap })

-- `~btree()`: `destroy_tree()` once more.
unfoldable pub destruct : ℕ → Btree → Option Btree
unfolding destroy_tree
destruct fuel t = destroy_tree fuel t
