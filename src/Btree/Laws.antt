-- ===== src/Btree/Laws.antt =====
-- The class `btree` of day2/07a_rwlock_tree/pthread_rwlock.cpp is a multiset of keys.
use cpp_rt.Prelude.{
  ℕ, zero, suc, ◌+◌, ◌≤◌, ◌<◌, ◌≡◌, ◌≢◌, ◌↔◌, refl, Bool, true, false, not, List, [], ◌∷◌, none,
  some, ◌==◌, if◌then◌else◌, ℤ, eqb_ℤ, arith, length, ◌∙◌, inl, inr, ◌⊎◌, ℕ_discrete, put_at, sym,
  ap,
}
use cpp_rt.Btree.Heap.{Heap}
use cpp_rt.Btree.Nodes.{insert_at, search_at, destroy_at}
use cpp_rt.Btree.Shape.{
  Tree, leaf, node, root_of, Holds, Has, Apart, height, add, IsOrdered, count, Has-next, Apart-add,
  add-IsOrdered, count-add, height-add, null-leaf, root_of-add,
}
use cpp_rt.Btree.Insert.{Inserted, insert_at-Inserts}
use cpp_rt.Btree.Search.{find, find-count, search_at-find, Destroyed, destroy_at-Destroys}
use cpp_rt.Btree.Object.{
  Btree, create, insert, insert_within, search, search_within, destroy_tree, destruct,
}

-- How often the key stands among the keys.
unfoldable pub count_key : ℤ → List ℤ → ℕ
count_key q [] = 0
count_key q (k ∷ keys) = (if eqb_ℤ k q then 1 else 0) + count_key q keys

-- The tree is unlocked, well formed and ordered, and holds these keys, each as often.
pub record IsValid (keys : List ℤ) (t : Btree) : Type 0 where
  pub shape : Tree
  pub rooted : t.root ≡ root_of shape
  pub unlocked : t.rw_lock ≡ record { writing = false; readers = 0 }
  pub fresh : 0 < t.heap.next
  pub holds : Holds t.heap shape
  pub apart : Apart shape
  pub ordered : IsOrdered shape
  pub flat : height shape ≤ length keys
  pub counts : (q : ℤ) → count q shape ≡ count_key q keys

pub create-IsValid : (h : Heap) → 0 < h.next → IsValid [] (create h)
unfolding count_key height count
create-IsValid h pos = record {
  shape = leaf;
  rooted = refl;
  unlocked = refl;
  fresh = pos;
  holds = tt;
  apart = tt;
  ordered = tt;
  flat = omega arith;
  counts = λ q. refl;
}

module _ (fuel : ℕ) (key : ℤ) {keys : List ℤ} {t : Btree} (v : IsValid keys t) where
  abbrev pub grown : Heap → Btree
  grown h = record { root = root_of (add key t.heap.next v.shape); rw_lock = t.rw_lock; heap = h }

  pub grown-IsValid : (h : Heap) → Inserted t.heap key v.shape h → IsValid (key ∷ keys) (grown h)
  unfolding count_key
  grown-IsValid h ins = record {
    shape = add key t.heap.next v.shape;
    rooted = refl;
    unlocked = v.unlocked;
    fresh = omega (arith, ins.next);
    holds = ins.holds;
    apart =
        Apart-add key t.heap.next v.shape
          (λ m. omega (arith, Has-next t.heap v.shape t.heap.next v.holds m)) v.apart;
    ordered = add-IsOrdered key t.heap.next v.shape v.ordered;
    flat = omega (arith, height-add key t.heap.next v.shape, v.flat);
    counts = λ q. omega (arith, count-add q key t.heap.next v.shape, v.counts q);
  }

abbrev pub with_node : ℤ → Heap → Heap
with_node key h = record {
  next = h.next + 1;
  cell = put_at h.next (some (record { key_value = key; left = 0; right = 0 })) h.cell;
}

pub first-Inserted :
    (key : ℤ) (h : Heap) (s : Tree) → 0 < h.next → s ≡ leaf → Inserted h key s (with_node key h)
unfolding add
first-Inserted key h s pos e = rw e (record {
  holds = (pos, omega arith, ground arith, tt, tt);
  next = refl;
  frame = λ b out ne. ground arith;
})

pub root_of-first : (key : ℤ) (new : ℕ) (s : Tree) → s ≡ leaf → root_of (add key new s) ≡ new
unfolding add
root_of-first key new s e = rw e

module _ (fuel : ℕ) (key : ℤ) (t : Btree)
    (free : t.rw_lock ≡ record { writing = false; readers = 0 }) where
  insert-first :
      t.root ≡ 0
      → insert fuel key t
        ≡ some (record { root = t.heap.next; rw_lock = t.rw_lock; heap = with_node key t.heap })
  unfolding insert insert_within
  insert-first e = ground arith

  insert-more :
      (h : Heap)
      → t.root ≢ 0
      → insert_at fuel key t.root t.heap ≡ some (tt, h)
      → insert fuel key t ≡ some (record t { heap = h })
  unfolding insert insert_within
  insert-more h ne e = ground arith

  search-run :
      (p : ℕ)
      → search_at fuel key t.root t.heap ≡ some (p, t.heap)
      → search fuel key t ≡ some (not (p == 0), t)
  unfolding search search_within
  search-run p e = ground arith

module _ (fuel : ℕ) (t : Btree) (free : t.rw_lock ≡ record { writing = false; readers = 0 }) where
  destroy_tree-run :
      (h : Heap)
      → destroy_at fuel t.root t.heap ≡ some (tt, h)
      → destroy_tree fuel t ≡ some (record t { heap = h })
  unfolding destroy_tree
  destroy_tree-run h e = ground arith

-- `insert` always succeeds on a valid tree, with fuel for as many levels as there are keys; the
-- lock is free again, and the tree is valid and holds one more copy of the key, and otherwise the
-- same keys.
pub insert-IsValid :
    (fuel : ℕ) (key : ℤ) {keys : List ℤ} {t : Btree}
    → IsValid keys t
    → length keys ≤ fuel
    → (t' : Btree) × (insert fuel key t ≡ some t') × IsValid (key ∷ keys) t'
insert-IsValid fuel key {keys} {t} v f = elim (ℕ_discrete (root_of v.shape) 0) [
  | yes e ↦
      let nil = null-leaf t.heap v.shape v.holds e in
      let h = with_node key t.heap in
      (
        grown fuel key v h,
        rw (root_of-first key t.heap.next v.shape nil)
            (insert-first fuel key t v.unlocked (v.rooted ∙ e)),
        grown-IsValid fuel key v h (first-Inserted key t.heap v.shape v.fresh nil),
      )
  | no ne ↦
      let (h, run, ins) =
        insert_at-Inserts fuel key v.shape t.heap ne (omega (arith, v.flat)) v.holds v.apart in
      (
        grown fuel key v h,
        rw (root_of-add key t.heap.next v.shape ne, ← v.rooted)
            (insert-more fuel key t v.unlocked h (λ z. ne (sym v.rooted ∙ z)) (rw v.rooted run)),
        grown-IsValid fuel key v h ins,
      )
]

-- `search` on a valid tree, with fuel for one level more than there are keys, succeeds, changes
-- nothing, and answers true exactly if the key was inserted.
pub search-count :
    (fuel : ℕ) (key : ℤ) {keys : List ℤ} {t : Btree}
    → IsValid keys t
    → length keys < fuel
    → (b : Bool) × (search fuel key t ≡ some (b, t)) × ((b ≡ true) ↔ (0 < count_key key keys))
search-count fuel key {keys} {t} v f = (
  not (p == 0),
  search-run fuel key t v.unlocked p
      (rw v.rooted (search_at-find fuel key v.shape t.heap (omega (arith, v.flat)) v.holds)),
  ground (arith, find-count key v.shape t.heap v.holds v.ordered, v.counts key),
)
  where
    p : ℕ
    p = find key v.shape

destroy_tree-ends :
    (fuel : ℕ) {keys : List ℤ} {t : Btree} (v : IsValid keys t)
    → length keys < fuel
    → (h : Heap) × (destroy_tree fuel t ≡ some (record t { heap = h })) × Destroyed t.heap v.shape h
destroy_tree-ends fuel {keys} {t} v f =
    let (h, run, d) =
      destroy_at-Destroys fuel v.shape t.heap (omega (arith, v.flat)) v.holds v.apart in
    (h, destroy_tree-run fuel t v.unlocked h (rw v.rooted run), d)

destroy_at-dangling : (fuel p : ℕ) (h : Heap) → p ≢ 0 → h.cell p ≡ none → destroy_at fuel p h ≡ none
unfolding destroy_at
destroy_at-dangling zero p h ne e = refl
destroy_at-dangling (suc fuel) p h ne e = ground arith

root-Has : (t : Tree) (h : Heap) → Holds h t → root_of t ≢ 0 → Has (root_of t) t
root-Has leaf h s ne = ne refl
root-Has (node a l k r) h s ne = inl refl

shape-ne_leaf :
    {key : ℤ} {keys : List ℤ} {t : Btree} (v : IsValid (key ∷ keys) t) → root_of v.shape ≢ 0
unfolding count count_key
shape-ne_leaf {key} {t} v z =
    absurd (ground (arith, v.counts key, ap (count key) (null-leaf t.heap v.shape v.holds z)))

destroy_tree-dangling :
    (more : ℕ) (t : Btree)
    → t.rw_lock ≡ record { writing = false; readers = 0 }
    → destroy_at more t.root t.heap ≡ none
    → destroy_tree more t ≡ none
unfolding destroy_tree
destroy_tree-dangling more t free e = ground arith

destruct-Destroyed :
    (more : ℕ) {key : ℤ} {keys : List ℤ} {t : Btree} (v : IsValid (key ∷ keys) t) (h : Heap)
    → Destroyed t.heap v.shape h
    → destruct more (record t { heap = h }) ≡ none
unfolding destruct
destruct-Destroyed more {t} v h d =
    let ne = shape-ne_leaf v in
    destroy_tree-dangling more (record t { heap = h }) v.unlocked
      (destroy_at-dangling more t.root h (rw v.rooted ne)
        (rw v.rooted (d.gone (root_of v.shape) (root-Has v.shape t.heap v.holds ne))))

destruct-none :
    (more : ℕ) {keys : List ℤ} {t : Btree} (v : IsValid keys t) (h : Heap)
    → Destroyed t.heap v.shape h
    → (keys ≡ []) ⊎ (destruct more (record t { heap = h }) ≡ none)
destruct-none more {keys = []} v h d = inl refl
destruct-none more {keys = key ∷ keys} v h d = inr (destruct-Destroyed more v h d)

-- The public `destroy_tree` on a valid tree succeeds, with more fuel than keys: it
-- deletes each node of the tree once, and nothing else. But it leaves `root` as it was: unless the
-- tree has no key, the destructor's own call then has undefined behaviour, whatever the fuel, since
-- it reads a deleted node.
pub destroy_tree-Destroyed :
    (fuel more : ℕ) {keys : List ℤ} {t : Btree} (v : IsValid keys t)
    → length keys < fuel
    → (h : Heap) × (destroy_tree fuel t ≡ some (record t { heap = h }))
      × Destroyed t.heap v.shape h
      × ((keys ≡ []) ⊎ (destruct more (record t { heap = h }) ≡ none))
destroy_tree-Destroyed fuel more v f =
    let (h, run, d) = destroy_tree-ends fuel v f in (h, run, d, destruct-none more v h d)
