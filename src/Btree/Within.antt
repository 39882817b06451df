-- ===== src/Btree/Within.antt =====
-- The class `btree` of day2/07a_rwlock_tree/pthread_rwlock.cpp: what `insert` and `search` do while
-- they hold the lock.
use cpp_rt.Prelude.{
  ℕ, ◌≤◌, ◌<◌, ◌≡◌, ◌≢◌, ◌↔◌, refl, Bool, true, false, not, List, ◌∷◌, some, ◌==◌, ℤ, arith, length,
  ◌∙◌, ℕ_discrete, sym,
}
use cpp_rt.Btree.Heap.{Heap}
use cpp_rt.Btree.Nodes.{insert_at, search_at}
use cpp_rt.Btree.Shape.{root_of, add, null-leaf, root_of-add}
use cpp_rt.Btree.Insert.{insert_at-Inserts}
use cpp_rt.Btree.Search.{find, find-count, search_at-find}
use cpp_rt.Btree.Object.{Btree, insert_within, search_within}
use cpp_rt.Btree.Laws.{IsValid, count_key, with_node, first-Inserted, root_of-first, grown-IsValid}

-- The same tree with its lock free.
abbrev pub unlocked : Btree → Btree
unlocked t = record t { rw_lock = record { writing = false; readers = 0 } }

module _ (fuel : ℕ) (key : ℤ) (t : Btree) where
  insert_within-first :
      t.root ≡ 0
      → insert_within fuel key t
        ≡ some (record t { root = t.heap.next; heap = with_node key t.heap })
  unfolding insert_within
  insert_within-first e = ground arith

  insert_within-more :
      (h : Heap)
      → t.root ≢ 0
      → insert_at fuel key t.root t.heap ≡ some (tt, h)
      → insert_within fuel key t ≡ some (record t { heap = h })
  unfolding insert_within
  insert_within-more h ne e = ground arith

-- What `insert` does between its lock and its unlock, on a tree that is valid but for the lock.
pub insert_within-IsValid :
    (fuel : ℕ) (key : ℤ) {keys : List ℤ} (t : Btree)
    → IsValid keys (unlocked t)
    → length keys ≤ fuel
    → (t' : Btree) × (insert_within fuel key t ≡ some t')
      × IsValid (key ∷ keys) (unlocked t')
      × (t'.rw_lock ≡ t.rw_lock)
insert_within-IsValid fuel key {keys} t v f = elim (ℕ_discrete (root_of v.shape) 0) [
  | yes e ↦
      let nil = null-leaf t.heap v.shape v.holds e in
      let h = with_node key t.heap in
      (
        record t { root = root_of (add key t.heap.next v.shape); heap = h },
        rw (root_of-first key t.heap.next v.shape nil)
            (insert_within-first fuel key t (v.rooted ∙ e)),
        grown-IsValid fuel key v h (first-Inserted key t.heap v.shape v.fresh nil),
        refl,
      )
  | no ne ↦
      let (h, run, ins) =
        insert_at-Inserts fuel key v.shape t.heap ne (omega (arith, v.flat)) v.holds v.apart in
      (
        record t { root = root_of (add key t.heap.next v.shape); heap = h },
        rw (root_of-add key t.heap.next v.shape ne, ← v.rooted)
            (insert_within-more fuel key t h (λ z. ne (sym v.rooted ∙ z)) (rw v.rooted run)),
        grown-IsValid fuel key v h ins,
        refl,
      )
]

search_within-run :
    (fuel : ℕ) (key : ℤ) (t : Btree) (p : ℕ)
    → search_at fuel key t.root t.heap ≡ some (p, t.heap)
    → search_within fuel key t ≡ some (not (p == 0), t)
unfolding search_within
search_within-run fuel key t p e = ground arith

-- What `search` does between its lock and its unlock.
pub search_within-count :
    (fuel : ℕ) (key : ℤ) {keys : List ℤ} (t : Btree)
    → IsValid keys (unlocked t)
    → length keys < fuel
    → (b : Bool) × (search_within fuel key t ≡ some (b, t))
      × ((b ≡ true) ↔ (0 < count_key key keys))
search_within-count fuel key {keys} t v f =
    let p = find key v.shape in
    (
      not (p == 0),
      search_within-run fuel key t p
          (rw v.rooted (search_at-find fuel key v.shape t.heap (omega (arith, v.flat)) v.holds)),
      ground (arith, find-count key v.shape t.heap v.holds v.ordered, v.counts key),
    )
