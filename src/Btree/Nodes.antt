-- ===== src/Btree/Nodes.antt =====
-- The private members of `btree` in day2/07a_rwlock_tree/pthread_rwlock.cpp, which recur on
-- pointers. The fuel bounds the depth of the calls: `none` is a fault, or fuel that ran out.
use cpp_rt.Prelude.{ℕ, zero, suc, none, ◌==◌, if◌then◌else◌, ℤ, ltb_ℤ, leb_ℤ, eqb_ℤ}
use cpp_rt.Btree.Heap.{Access, pure, ◌>>=◌, ◌>>◌, load, store, new_node, free}

unfoldable pub insert_at : ℕ → ℤ → ℕ → Access (Unit {0})
insert_at zero key leaf = λ h. none
insert_at (suc fuel) key leaf =
    let go_left = λ (p : ℕ). insert_at fuel key p in
    let go_right = λ (p : ℕ). insert_at fuel key p in
    do
      n ← load leaf
      if ltb_ℤ key n.key_value
          then (if n.left == 0
              then (do p ← new_node key; store leaf (record n { left = p }))
              else go_left n.left)
          else (if leb_ℤ n.key_value key
              then (if n.right == 0
                  then (do p ← new_node key; store leaf (record n { right = p }))
                  else go_right n.right)
              else pure tt)

unfoldable pub search_at : ℕ → ℤ → ℕ → Access ℕ
search_at zero key leaf = λ h. none
search_at (suc fuel) key leaf =
    let go_on = λ (p : ℕ). search_at fuel key p in
    if leaf == 0 then pure 0 else do
      n ← load leaf
      if eqb_ℤ key n.key_value
          then pure leaf
          else (if ltb_ℤ key n.key_value then go_on n.left else go_on n.right)

unfoldable pub destroy_at : ℕ → ℕ → Access (Unit {0})
destroy_at zero leaf = λ h. none
destroy_at (suc fuel) leaf =
    let go = λ (p : ℕ). destroy_at fuel p in
    if leaf == 0
    then pure tt
    else do n ← load leaf; go n.left; n' ← load leaf; go n'.right; free leaf
