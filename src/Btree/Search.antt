-- ===== src/Btree/Search.antt =====
-- `search(key, leaf)` and `destroy_tree(leaf)` of day2/07a_rwlock_tree/pthread_rwlock.cpp on a tree
-- that the heap holds.
use mathlib.Core.Path.{subst}
use cpp_rt.Prelude.{
  ℕ, zero, suc, ◌<◌, ◌≡◌, ◌≢◌, ◌↔◌, inl, inr, refl, none, some, if◌then◌else◌, ℤ, ltb_ℤ, eqb_ℤ,
  ◌<ℤ◌, ◌≤ℤ◌, arith, put_at, ◌∙◌, sym,
}
use cpp_rt.Btree.Heap.{Heap}
use cpp_rt.Btree.Nodes.{search_at, destroy_at}
use cpp_rt.Btree.Shape.{
  Tree, leaf, node, root_of, Holds, Has, Apart, height, height-children_lt, Holds-frame, All,
  IsOrdered, count,
}

-- The first node with the key on the way down, or NULL.
unfoldable pub find : ℤ → Tree → ℕ
find key leaf = 0
find key (node a l k r) =
    if eqb_ℤ key k then a else (if ltb_ℤ key k then find key l else find key r)

pub search_at-find :
    (fuel : ℕ) (key : ℤ) (t : Tree) (h : Heap)
    → height t < fuel
    → Holds h t
    → search_at fuel key (root_of t) h ≡ some (find key t, h)
unfolding search_at find
search_at-find zero key t h f s = absurd (omega arith)
search_at-find (suc fuel) key leaf h f s = refl
search_at-find (suc fuel) key (node a l k r) h f s = ground (
  arith,
  s.0,
  s.2,
  search_at-find fuel key l h (height-children_lt a l r k fuel f).0 s.3,
  search_at-find fuel key r h (height-children_lt a l r k fuel f).1 s.4,
)

count-below : (key k : ℤ) (t : Tree) → All (λ x. x <ℤ k) t → k ≤ℤ key → count key t ≡ 0
unfolding count
count-below key k leaf a le = refl
count-below key k (node b l x r) a le =
    ground (arith, count-below key k l a.1 le, count-below key k r a.2 le)

count-above : (key k : ℤ) (t : Tree) → All (λ x. k ≤ℤ x) t → key <ℤ k → count key t ≡ 0
unfolding count
count-above key k leaf a lt = refl
count-above key k (node b l x r) a lt =
    ground (arith, count-above key k l a.1 lt, count-above key k r a.2 lt)

-- In an ordered tree the search finds a node exactly if the key is there.
pub find-count :
    (key : ℤ) (t : Tree) (h : Heap) → Holds h t → IsOrdered t → (find key t ≢ 0) ↔ (0 < count key t)
unfolding find count
find-count key leaf h s o = ground arith
find-count key (node a l k r) h s o = ground (
  arith,
  s.0,
  find-count key l h s.3 o.2,
  find-count key r h s.4 o.3,
  count-below key k l o.0,
  count-above key k r o.1,
)

-- The outcome of `destroy_tree(leaf)`: each node of the tree has been deleted, and no other.
pub record Destroyed (h : Heap) (t : Tree) (h' : Heap) : Type 0 where
  pub gone : (b : ℕ) → Has b t → h'.cell b ≡ none
  pub kept : (b : ℕ) → ¬ Has b t → h'.cell b ≡ h.cell b
  pub next : h'.next ≡ h.next

abbrev Destroys : ℕ → Tree → Heap → Type 0
Destroys fuel t h = (h' : Heap) × (destroy_at fuel (root_of t) h ≡ some (tt, h')) × Destroyed h t h'

abbrev freed : Heap → ℕ → Heap
freed h a = record h { cell = put_at a none h.cell }

module _ (h h1 h2 : Heap) (a : ℕ) (l r : Tree) (k : ℤ) (s : Holds h (node a l k r))
    (p : Apart (node a l k r)) (d1 : Destroyed h l h1) (d2 : Destroyed h1 r h2) where
  Destroyed-node : Destroyed h (node a l k r) (freed h2 a)
  Destroyed-node = record {
    gone = λ b m. elim m [
      | inl e ↦ ground arith
      | inr ms ↦ elim ms [
        | inl ml ↦
            put_ne b (λ e. p.0 (subst (λ x. Has x l) (sym e) ml))
            ∙ (d2.kept b (λ mr. p.2 b ml mr) ∙ d1.gone b ml)
        | inr mr ↦ put_ne b (λ e. p.1 (subst (λ x. Has x r) (sym e) mr)) ∙ d2.gone b mr
      ]
    ];
    kept = λ b out.
        put_ne b (λ e. out (inl e))
        ∙ (d2.kept b (λ m. out (inr (inr m))) ∙ d1.kept b (λ m. out (inr (inl m))));
    next = d2.next ∙ d1.next;
  }
    where
      put_ne : (b : ℕ) → a ≢ b → put_at a none h2.cell b ≡ h2.cell b
      put_ne b ne = ground arith

  destroy_steps :
      (fuel : ℕ)
      → destroy_at fuel (root_of l) h ≡ some (tt, h1)
      → destroy_at fuel (root_of r) h1 ≡ some (tt, h2)
      → destroy_at (suc fuel) a h ≡ some (tt, freed h2 a)
  unfolding destroy_at
  destroy_steps fuel e1 e2 = ground (arith, s.0, s.2, e1, e2, d1.kept a p.0, d2.kept a p.1)

pub destroy_at-Destroys :
    (fuel : ℕ) (t : Tree) (h : Heap) → height t < fuel → Holds h t → Apart t → Destroys fuel t h
destroy_at-Destroys zero t h f s p = absurd (omega arith)
destroy_at-Destroys (suc fuel) leaf h f s p = (
  h,
  unfold destroy_at in refl,
  record { gone = λ b m. elim m [ ]; kept = λ b o. refl; next = refl },
)
destroy_at-Destroys (suc fuel) (node a l k r) h f s p =
    let (h1, e1, d1) = destroy_at-Destroys fuel l h (height-children_lt a l r k fuel f).0 s.3 p.3 in
    let (h2, e2, d2) =
      destroy_at-Destroys fuel r h1 (height-children_lt a l r k fuel f).1
        (Holds-frame h h1 r (omega (arith, d1.next)) (λ b m. d1.kept b (λ ml. p.2 b ml m)) s.4)
        p.4 in
    (
      freed h2 a,
      destroy_steps h h1 h2 a l r k s p d1 d2 fuel e1 e2,
      Destroyed-node h h1 h2 a l r k s p d1 d2,
    )
