-- ===== src/Btree/Shape.antt =====
-- The trees that the pointers of day2/07a_rwlock_tree/pthread_rwlock.cpp stand for.
use mathlib.Core.Path.{subst}
use cpp_rt.Prelude.{
  ℕ, suc, ◌+◌, ◌≤◌, ◌<◌, ◌≡◌, ◌≢◌, ◌⊎◌, inl, inr, refl, some, if◌then◌else◌, ℤ, ltb_ℤ, eqb_ℤ, ◌<ℤ◌,
  ◌≤ℤ◌, arith, leb, ◌∙◌, Bool-cases,
}
use cpp_rt.Btree.Heap.{Heap}

-- A tree with the address of each node.
pub data Tree : Type 0 where
  leaf : Tree
  node : ℕ → Tree → ℤ → Tree → Tree

abbrev pub root_of : Tree → ℕ
root_of leaf = 0
root_of (node a l k r) = a

-- The heap holds the tree.
abbrev pub Holds : Heap → Tree → Type 0
Holds h leaf = Unit
Holds h (node a l k r) =
    (0 < a)
    × (a < h.next)
    × (h.cell a ≡ some (record { key_value = k; left = root_of l; right = root_of r }))
    × Holds h l
    × Holds h r

-- The tree has a node at the address.
abbrev pub Has : ℕ → Tree → Type 0
Has b leaf = ⊥
Has b (node a l k r) = (a ≡ b) ⊎ (Has b l ⊎ Has b r)

-- No two nodes share an address.
abbrev pub Apart : Tree → Type 0
Apart leaf = Unit
Apart (node a l k r) = ¬ Has a l × ¬ Has a r × ((b : ℕ) → Has b l → Has b r → ⊥) × Apart l × Apart r

unfoldable pub height : Tree → ℕ
height leaf = 0
height (node a l k r) = suc (if leb (height l) (height r) then height r else height l)

pub height-children :
    (a : ℕ) (l r : Tree) (k : ℤ) (fuel : ℕ)
    → height (node a l k r) ≤ suc fuel
    → (height l ≤ fuel) × (height r ≤ fuel)
unfolding height
height-children a l r k fuel h = ground arith

pub height-children_lt :
    (a : ℕ) (l r : Tree) (k : ℤ) (fuel : ℕ)
    → height (node a l k r) < suc fuel
    → (height l < fuel) × (height r < fuel)
unfolding height
height-children_lt a l r k fuel h = ground arith

-- What `insert` does to the tree: the new node, at a fresh address, becomes a leaf; equal keys go
-- to the right.
unfoldable pub add : ℤ → ℕ → Tree → Tree
add key new leaf = node new leaf key leaf
add key new (node a l k r) =
    if ltb_ℤ key k then node a (add key new l) k r else node a l k (add key new r)

-- Smaller keys are on the left, equal and greater keys on the right.
abbrev pub All : (ℤ → Type 0) → Tree → Type 0
All P leaf = Unit
All P (node a l k r) = P k × All P l × All P r

abbrev pub IsOrdered : Tree → Type 0
IsOrdered leaf = Unit
IsOrdered (node a l k r) = All (λ x. x <ℤ k) l × All (λ x. k ≤ℤ x) r × IsOrdered l × IsOrdered r

-- How often the key stands in the tree.
unfoldable pub count : ℤ → Tree → ℕ
count q leaf = 0
count q (node a l k r) = (if eqb_ℤ k q then 1 else 0) + (count q l + count q r)

pub Has-next : (h : Heap) (t : Tree) (b : ℕ) → Holds h t → Has b t → b < h.next
Has-next h leaf b s m = elim m [ ]
Has-next h (node a l k r) b s (inl e) = omega arith
Has-next h (node a l k r) b s (inr (inl m)) = Has-next h l b s.3 m
Has-next h (node a l k r) b s (inr (inr m)) = Has-next h r b s.4 m

-- A heap that agrees on the cells of the tree holds it too.
pub Holds-frame :
    (h h' : Heap) (t : Tree)
    → h.next ≤ h'.next
    → ((b : ℕ) → Has b t → h'.cell b ≡ h.cell b)
    → Holds h t
    → Holds h' t
Holds-frame h h' leaf le same s = tt
Holds-frame h h' (node a l k r) le same s = (
  s.0,
  omega arith,
  same a (inl refl) ∙ s.2,
  Holds-frame h h' l le (λ b m. same b (inr (inl m))) s.3,
  Holds-frame h h' r le (λ b m. same b (inr (inr m))) s.4,
)

pub Has-add : (key : ℤ) (new b : ℕ) (t : Tree) → Has b (add key new t) → (b ≡ new) ⊎ Has b t
unfolding add
Has-add key new b leaf m = ground arith
Has-add key new b (node a l k r) m = ground (arith, Has-add key new b l, Has-add key new b r)

pub Apart-add : (key : ℤ) (new : ℕ) (t : Tree) → ¬ Has new t → Apart t → Apart (add key new t)
unfolding add
Apart-add key new leaf f p = (λ m. m, λ m. m, λ b m _. m, tt, tt)
Apart-add key new (node a l k r) f p = elim (Bool-cases (ltb_ℤ key k)) [
  | inl e ↦ rw e (
    λ m. elim (Has-add key new a l m) [ inl q ↦ f (inl q) | inr m' ↦ p.0 m' ],
    p.1,
    λ b m mr. elim (Has-add key new b l m) [
      | inl q ↦ f (inr (inr (subst (λ x. Has x r) q mr)))
      | inr m' ↦ p.2 b m' mr
    ],
    Apart-add key new l (λ m. f (inr (inl m))) p.3,
    p.4,
  )
  | inr e ↦ rw e (
    p.0,
    λ m. elim (Has-add key new a r m) [ inl q ↦ f (inl q) | inr m' ↦ p.1 m' ],
    λ b ml m. elim (Has-add key new b r m) [
      | inl q ↦ f (inr (inl (subst (λ x. Has x l) q ml)))
      | inr m' ↦ p.2 b ml m'
    ],
    p.3,
    Apart-add key new r (λ m. f (inr (inr m))) p.4,
  )
]

pub All-add :
    (P : ℤ → Type 0) (key : ℤ) (new : ℕ) (t : Tree) → P key → All P t → All P (add key new t)
unfolding add
All-add P key new leaf p a = (p, tt, tt)
All-add P key new (node b l k r) p a = ground (arith, All-add P key new l p, All-add P key new r p)

pub add-IsOrdered : (key : ℤ) (new : ℕ) (t : Tree) → IsOrdered t → IsOrdered (add key new t)
unfolding add
add-IsOrdered key new leaf o = (tt, tt, tt, tt)
add-IsOrdered key new (node a l k r) o = ground (
  arith,
  add-IsOrdered key new l,
  add-IsOrdered key new r,
  All-add (λ x. x <ℤ k) key new l,
  All-add (λ x. k ≤ℤ x) key new r,
)

pub count-add :
    (q key : ℤ) (new : ℕ) (t : Tree)
    → count q (add key new t) ≡ (if eqb_ℤ key q then 1 else 0) + count q t
unfolding add count
count-add q key new leaf = omega arith
count-add q key new (node a l k r) = ground (arith, count-add q key new l, count-add q key new r)

pub root_of-add :
    (key : ℤ) (new : ℕ) (t : Tree) → root_of t ≢ 0 → root_of (add key new t) ≡ root_of t
unfolding add
root_of-add key new leaf z = absurd (z refl)
root_of-add key new (node a l k r) z = ground arith

pub null-leaf : (h : Heap) (t : Tree) → Holds h t → root_of t ≡ 0 → t ≡ leaf
null-leaf h leaf s z = refl
null-leaf h (node a l k r) s z = absurd (omega (arith, s.0))

pub height-add : (key : ℤ) (new : ℕ) (t : Tree) → height (add key new t) ≤ height t + 1
unfolding add height
height-add key new leaf = omega arith
height-add key new (node a l k r) = ground (arith, height-add key new l, height-add key new r)
