-- ===== src/Btree/Heap.antt =====
-- The heap that day2/07a_rwlock_tree/pthread_rwlock.cpp keeps its nodes on. Address 0 is NULL.
use cpp_rt.Prelude.{ℕ, ◌+◌, Option, none, some, put_at, ℤ}

-- `struct node`
pub record Node : Type 0 where
  pub key_value : ℤ
  pub left : ℕ
  pub right : ℕ

-- A cell holds a node from its `new` to its `delete`.
pub record Heap : Type 0 where
  pub next : ℕ
  pub cell : ℕ → Option Node

-- What a member of the tree does to the heap. The answer `none` is undefined behaviour: a read, a
-- write or a `delete` of an address that holds no node.
abbrev pub Access : Type 0 → Type 0
Access A = Heap → Option (A × Heap)

-- The four accesses that the members are made of.
abbrev pub load : ℕ → Access Node
load p heap = elim (heap.cell p) [ some n ↦ some (n, heap) | none ↦ none ]

abbrev pub overwrite : ℕ → Option Node → Access (Unit {0})
overwrite p content heap = elim (heap.cell p) [
  | some _ ↦ some (tt, record heap { cell = put_at p content heap.cell })
  | none ↦ none
]

abbrev pub store : ℕ → Node → Access (Unit {0})
store p n = overwrite p (some n)

-- `delete`
abbrev pub free : ℕ → Access (Unit {0})
free p = overwrite p none

-- `new node`, with the three assignments that follow it each time.
abbrev pub new_node : ℤ → Access ℕ
new_node key heap = some (
  heap.next,
  record {
    next = heap.next + 1;
    cell = put_at heap.next (some (record { key_value = key; left = 0; right = 0 })) heap.cell;
  },
)

-- One access after another.
infixl 5 ◌>>◌ ◌>>=◌
abbrev pub ◌>>=◌ : {A B : Type 0} → Access A → (A → Access B) → Access B
◌>>=◌ first rest heap = elim (first heap) [ some (a, after) ↦ rest a after | none ↦ none ]

abbrev pub ◌>>◌ : {B : Type 0} → Access (Unit {0}) → Access B → Access B
first >> second = first >>= λ ignored. second

abbrev pub pure : {A : Type 0} → A → Access A
pure result heap = some (result, heap)
