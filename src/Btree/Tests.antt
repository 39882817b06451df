-- ===== src/Btree/Tests.antt =====
-- The class `btree` of day2/07a_rwlock_tree/pthread_rwlock.cpp at concrete inputs: `tree_writer`
-- inserts the first keys, and `tree_reader` looks for one of them.
use cpp_rt.Prelude.{
  ◌<◌, ◌≡◌, ◌↔◌, refl, Bool, true, false, Option, none, some, List, [], ◌∷◌, ℤ, ◌⊎◌, pos, negsuc,
  arith,
}
use cpp_rt.Btree.Heap.{Heap}
use cpp_rt.Btree.Nodes.{insert_at, search_at}
use cpp_rt.Btree.Object.{Btree, create, insert, search, destroy_tree, destruct, ◌>>=◌}
use cpp_rt.Btree.Search.{Destroyed}
use cpp_rt.Btree.Laws.{
  IsValid, create-IsValid, insert-IsValid, search-count, destroy_tree-Destroyed, count_key,
}

abbrev empty_heap : Heap
empty_heap = record { next = 1; cell = λ _. none }

abbrev two_keys : Option Btree
two_keys = do t ← insert 5 (pos 1) (create empty_heap); insert 5 (negsuc 1) t

finds_negative : (two_keys >>= λ t. search 5 (negsuc 1) t >>= λ r. some r.0) ≡ some true
unfolding insert search insert_at search_at
finds_negative = refl

misses : (two_keys >>= λ t. search 5 (pos 2) t >>= λ r. some r.0) ≡ some false
unfolding insert search insert_at search_at
misses = refl

abbrev one_key :
    (t : Btree) × (insert 3 (pos 7) (create empty_heap) ≡ some t) × IsValid (pos 7 ∷ []) t
one_key = insert-IsValid 3 (pos 7) (create-IsValid empty_heap (omega arith)) (omega arith)

insert-IsValid_example :
    (t : Btree) × (insert 3 (negsuc 4) one_key.0 ≡ some t) × IsValid (negsuc 4 ∷ pos 7 ∷ []) t
insert-IsValid_example = insert-IsValid 3 (negsuc 4) one_key.2 (omega arith)

search-count_example :
    (b : Bool) × (search 3 (pos 7) one_key.0 ≡ some (b, one_key.0))
    × ((b ≡ true) ↔ (0 < count_key (pos 7) (pos 7 ∷ [])))
search-count_example = search-count 3 (pos 7) one_key.2 (omega arith)

destroy_tree-Destroyed_example :
    (h : Heap) × (destroy_tree 3 one_key.0 ≡ some (record one_key.0 { heap = h }))
    × Destroyed one_key.0.heap one_key.2.shape h
    × ((◌≡◌ {A = List ℤ} (pos 7 ∷ []) []) ⊎ (destruct 9 (record one_key.0 { heap = h }) ≡ none))
destroy_tree-Destroyed_example = destroy_tree-Destroyed 3 9 one_key.2 (omega arith)
