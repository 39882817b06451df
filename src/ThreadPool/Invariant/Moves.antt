-- ===== src/ThreadPool/Invariant/Moves.antt =====
-- What one step of one thread, `move i m p ≡ some (m', p')`, keeps.
use mathlib.Core.List.{append_assoc}
use cpp_rt.Prelude.{length-append, ℕ, ◌+◌, ◌≤◌, ◌<◌, ◌≡◌, ◌≢◌, ◌⊎◌, some, ◌++◌, length, arith}
use cpp_rt.ThreadPool.Mutex.{Shared, locks}
use cpp_rt.ThreadPool.Queue.{is_empty_move, pop_move, push_move}
use cpp_rt.ThreadPool.History.{
  count, count_task, count_null, count-snoc, count_task-snoc, count_null-snoc,
}
use cpp_rt.ThreadPool.System.{Pc, worker_move, move, exited, unborn}
use cpp_rt.ThreadPool.Invariant.Defs.{
  pc_locks, IsFresh, unpushed, quits, sleeps, active, carries, IsMain, IsWorker, born, gone,
}

module _ (i : ℕ) (m : Shared) (p : Pc) {m' : Shared} {p' : Pc} (made : move i m p ≡ some (m', p'))
    (own : locks m i ≡ pc_locks p) where
  pub move-locks : locks m' i ≡ pc_locks p'
  unfolding move worker_move pop_move push_move is_empty_move
  move-locks = ground arith

  pub move-locks_ne : (j : ℕ) → j ≢ i → locks m' j ≡ locks m j
  unfolding move worker_move pop_move push_move is_empty_move
  move-locks_ne j ne = ground arith

  pub move-queue : pc_locks p ≡ 0 → m'.queue ≡ m.queue
  unfolding move worker_move pop_move push_move is_empty_move
  move-queue z = ground arith

  pub move-IsFresh : IsFresh m p → IsFresh m' p'
  unfolding move worker_move pop_move push_move is_empty_move
  move-IsFresh f = ground arith

  pub move-holder :
      (n : ℕ)
      → i ≤ n
      → ((j : ℕ) → m.owner ≡ some j → (j ≤ n) × (0 < m.depth))
      → (j : ℕ) → m'.owner ≡ some j
      → (j ≤ n) × (0 < m'.depth)
  unfolding move worker_move pop_move push_move is_empty_move
  move-holder n le h j e = ground (arith, h j)

  pub move-nulls : quits p' + count_null m.taken ≡ quits p + count_null m'.taken
  unfolding move worker_move pop_move push_move is_empty_move
  move-nulls = grind (arith, count_null-snoc)

  pub move-fifo : m'.taken ++ (m'.queue ++ unpushed p') ≡ m.taken ++ (m.queue ++ unpushed p)
  unfolding move worker_move pop_move push_move is_empty_move
  move-fifo = grind (arith, append_assoc)

  pub move-wakes :
      IsFresh m p
      → ((sleeps p' ≡ sleeps p) × (length m'.queue + active p ≤ length m.queue + active p'))
        ⊎ (length m'.queue ≡ 0)
  unfolding move worker_move pop_move push_move is_empty_move
  move-wakes f = grind (arith, length-append)

  pub move-calls :
      (t : ℕ)
      → count t m'.ran + carries t p' + count_task t m.taken
        ≡ count t m.ran + carries t p + count_task t m'.taken
  unfolding move worker_move pop_move push_move is_empty_move
  move-calls t = grind (arith, count_task-snoc, count-snoc)

  pub move-roles :
      (IsMain p → IsMain p')
      × (IsWorker p → IsWorker p')
      × (p ≢ unborn)
      × (p' ≢ unborn)
      × (p ≢ exited)
  unfolding move worker_move pop_move push_move is_empty_move
  move-roles = ground arith

  pub move-born : (n : ℕ) → IsMain p → (born n p' ≡ born n p) × (gone n p' ≡ gone n p)
  unfolding move worker_move pop_move push_move is_empty_move
  move-born n h = ground arith
