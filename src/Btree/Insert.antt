-- ===== src/Btree/Insert.antt =====
-- `insert(key, leaf)` of day2/07a_rwlock_tree/pthread_rwlock.cpp does on the heap what `add` does
-- to the tree.
use mathlib.Core.Path.{subst}
use cpp_rt.Prelude.{
  ℕ, zero, suc, ◌+◌, ◌≤◌, ◌<◌, ◌≡◌, ◌≢◌, inl, inr, refl, true, false, some, ℤ, ltb_ℤ, arith,
  Bool-cases, put_at, ◌∙◌, sym, ℕ_discrete,
}
use cpp_rt.Btree.Heap.{Node, Heap}
use cpp_rt.Btree.Nodes.{insert_at}
use cpp_rt.Btree.Shape.{
  Tree, leaf, node, root_of, Holds, Has, Apart, height, height-children, add, Has-next, Holds-frame,
  root_of-add, null-leaf,
}

-- The outcome of an insertion: it succeeds, the heap holds the new tree, and only cells of the
-- tree have changed, and the fresh one.
pub record Inserted (h : Heap) (key : ℤ) (t : Tree) (h' : Heap) : Type 0 where
  pub holds : Holds h' (add key h.next t)
  pub next : h'.next ≡ h.next + 1
  pub frame : (b : ℕ) → ¬ Has b t → b ≢ h.next → h'.cell b ≡ h.cell b

abbrev fresh_node : ℤ → Node
fresh_node key = record { key_value = key; left = 0; right = 0 }

-- The child is NULL: a new node is hung below `a`.
abbrev hung : Heap → ℤ → ℕ → Node → Heap
hung h key a n = record {
  next = h.next + 1;
  cell = put_at a (some n) (put_at h.next (some (fresh_node key)) h.cell);
}

module _ (h : Heap) (key : ℤ) (a : ℕ) (l r : Tree) (k : ℤ) (s : Holds h (node a l k r))
    (p : Apart (node a l k r)) where
  -- A heap in which the left child has been added to, and the cell of the root says so.
  graft_left :
      (h' : Heap)
      → Holds h' (add key h.next l)
      → h'.next ≡ h.next + 1
      → ((b : ℕ) → ¬ Has b l → b ≢ h.next → b ≢ a → h'.cell b ≡ h.cell b)
      → h'.cell a
        ≡ some (record { key_value = k; left = root_of (add key h.next l); right = root_of r })
      → ltb_ℤ key k ≡ true
      → Inserted h key (node a l k r) h'
  unfolding add
  graft_left h' hold nx fr at_a lt = record {
    holds = rw lt (
      s.0,
      omega (arith, s.1),
      at_a,
      hold,
      Holds-frame h h' r (omega arith)
          (λ b m.
            fr b (λ ml. p.2 b ml m) (λ e. absurd (omega (arith, Has-next h r b s.4 m)))
              (λ e. p.1 (subst (λ x. Has x r) e m)))
          s.4,
    );
    next = nx;
    frame = λ b out ne. fr b (λ m. out (inr (inl m))) ne (λ e. out (inl (sym e)));
  }

  graft_right :
      (h' : Heap)
      → Holds h' (add key h.next r)
      → h'.next ≡ h.next + 1
      → ((b : ℕ) → ¬ Has b r → b ≢ h.next → b ≢ a → h'.cell b ≡ h.cell b)
      → h'.cell a
        ≡ some (record { key_value = k; left = root_of l; right = root_of (add key h.next r) })
      → ltb_ℤ key k ≡ false
      → Inserted h key (node a l k r) h'
  unfolding add
  graft_right h' hold nx fr at_a lt = record {
    holds = rw lt (
      s.0,
      omega (arith, s.1),
      at_a,
      Holds-frame h h' l (omega arith)
          (λ b m.
            fr b (λ mr. p.2 b m mr) (λ e. absurd (omega (arith, Has-next h l b s.3 m)))
              (λ e. p.0 (subst (λ x. Has x l) e m)))
          s.3,
      hold,
    );
    next = nx;
    frame = λ b out ne. fr b (λ m. out (inr (inr m))) ne (λ e. out (inl (sym e)));
  }

abbrev Inserts : ℕ → ℤ → Tree → Heap → Type 0
Inserts fuel key t h =
    (h' : Heap) × (insert_at fuel key (root_of t) h ≡ some (tt, h')) × Inserted h key t h'

module _ (fuel : ℕ) (key : ℤ) (h : Heap) (a : ℕ) (l r : Tree) (k : ℤ)
    (s : Holds h (node a l k r)) where
  hang_left :
      ltb_ℤ key k ≡ true
      → root_of l ≡ 0
      → insert_at (suc fuel) key a h
        ≡ some (tt, hung h key a (record { key_value = k; left = h.next; right = root_of r }))
  unfolding insert_at
  hang_left lt z = ground (arith, s.1, s.2)

  hang_right :
      ltb_ℤ key k ≡ false
      → root_of r ≡ 0
      → insert_at (suc fuel) key a h
        ≡ some (tt, hung h key a (record { key_value = k; left = root_of l; right = h.next }))
  unfolding insert_at
  hang_right lt z = ground (arith, s.1, s.2)

  walk_left :
      ltb_ℤ key k ≡ true
      → root_of l ≢ 0
      → insert_at (suc fuel) key a h ≡ insert_at fuel key (root_of l) h
  unfolding insert_at
  walk_left lt z = ground (arith, s.2)

  walk_right :
      ltb_ℤ key k ≡ false
      → root_of r ≢ 0
      → insert_at (suc fuel) key a h ≡ insert_at fuel key (root_of r) h
  unfolding insert_at
  walk_right lt z = ground (arith, s.2)

holds_fresh :
    (h : Heap) (key : ℤ) (a : ℕ) (n : Node)
    → 0 < a
    → a < h.next
    → Holds (hung h key a n) (add key h.next leaf)
unfolding add
holds_fresh h key a n pos lt = (omega arith, omega arith, ground arith, tt, tt)

hung-frame :
    (h : Heap) (key : ℤ) (a : ℕ) (n : Node) (b : ℕ)
    → b ≢ h.next
    → b ≢ a
    → (hung h key a n).cell b ≡ h.cell b
hung-frame h key a n b ne na = ground arith

root_of-add_leaf : (key : ℤ) (new : ℕ) (t : Tree) → t ≡ leaf → new ≡ root_of (add key new t)
unfolding add
root_of-add_leaf key new t e = rw e

grown :
    (h : Heap) (key : ℤ) (a : ℕ) (n : Node) (t : Tree)
    → 0 < a
    → a < h.next
    → t ≡ leaf
    → Holds (hung h key a n) (add key h.next t)
grown h key a n t pos lt e = rw e (holds_fresh h key a n pos lt)

-- With fuel for its height, the insertion into a tree that the heap holds succeeds.
pub insert_at-Inserts :
    (fuel : ℕ) (key : ℤ) (t : Tree) (h : Heap)
    → root_of t ≢ 0
    → height t ≤ fuel
    → Holds h t
    → Apart t
    → Inserts fuel key t h
unfolding height
insert_at-Inserts fuel key leaf h z f s p = absurd (z refl)
insert_at-Inserts zero key (node a l k r) h z f s p = absurd (omega arith)
insert_at-Inserts (suc fuel) key (node a l k r) h z f s p = elim (Bool-cases (ltb_ℤ key k)) [
  | inl lt ↦ elim (ℕ_discrete (root_of l) 0) [
    | yes e ↦
        let nil = null-leaf h l s.3 e in
        (
          _,
          hang_left fuel key h a l r k s lt e,
          graft_left h key a l r k s p _ (grown h key a _ l s.0 s.1 nil) refl
              (λ b out nn na. hung-frame h key a _ b nn na)
              (rw (← root_of-add_leaf key h.next l nil) (ground arith)) lt,
        )
    | no ne ↦
        let (h', run, done) =
          insert_at-Inserts fuel key l h ne (height-children a l r k fuel f).0 s.3 p.3 in
        (
          h',
          walk_left fuel key h a l r k s lt ne ∙ run,
          graft_left h key a l r k s p h' done.holds done.next (λ b out nn na. done.frame b out nn)
              (rw (root_of-add key h.next l ne) (done.frame a p.0 (omega (arith, s.1)) ∙ s.2)) lt,
        )
  ]
  | inr ge ↦ elim (ℕ_discrete (root_of r) 0) [
    | yes e ↦
        let nil = null-leaf h r s.4 e in
        (
          _,
          hang_right fuel key h a l r k s ge e,
          graft_right h key a l r k s p _ (grown h key a _ r s.0 s.1 nil) refl
              (λ b out nn na. hung-frame h key a _ b nn na)
              (rw (← root_of-add_leaf key h.next r nil) (ground arith)) ge,
        )
    | no ne ↦
        let (h', run, done) =
          insert_at-Inserts fuel key r h ne (height-children a l r k fuel f).1 s.4 p.4 in
        (
          h',
          walk_right fuel key h a l r k s ge ne ∙ run,
          graft_right h key a l r k s p h' done.holds done.next (λ b out nn na. done.frame b out nn)
              (rw (root_of-add key h.next r ne) (done.frame a p.1 (omega (arith, s.1)) ∙ s.2)) ge,
        )
  ]
]
