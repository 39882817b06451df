-- ===== src/ThreadPool/Termination.antt =====
-- The threads of day2/ex_ThreadPool stop: without spurious wake-ups every run is finite, and the
-- destructor returns.
use cpp_rt.Prelude.{
  ℕ, zero, suc, ◌+◌, ◌-◌, ◌*◌, ◌≤◌, ◌<◌, ◌≡◌, inl, inr, none, some, List, [], ◌∷◌, arith, sum_first,
  sum_first-put_at, length, length-append, put_at, length-replicate,
}
use cpp_rt.ThreadPool.Mutex.{Task, Shared}
use cpp_rt.ThreadPool.Queue.{
  EmptyPc, lock_empty, read_empty, unlock_empty, is_empty_returns, PopPc, lock_pop, test, wait,
  asleep, woken, take_front, unlock_pop, pop_returns, PushPc, lock_push, append, unlock_push,
  signal, is_empty_move, pop_move, push_move,
}
use cpp_rt.ThreadPool.System.{
  Pc, launching, pushing, joining, finished, unborn, popping, running, exited, System, Step, act,
  launch, launched, wake, wake_none, join, joined, Reach, here, later, start, program, move,
  worker_move, next_push,
}
use cpp_rt.ThreadPool.Invariant.{Inv, Reach-Inv}
use cpp_rt.ThreadPool.Progress.{no_deadlock}

-- An upper bound for the steps that a thread has ahead of it, those that it hands to others by a
-- push or a signal among them.
abbrev empty_rank : EmptyPc → ℕ
empty_rank lock_empty = 7
empty_rank read_empty = 6
empty_rank (unlock_empty b) = 5
empty_rank (is_empty_returns b) = 4

abbrev pop_rank : PopPc → ℕ
pop_rank lock_pop = 8
pop_rank (test e) = empty_rank e
pop_rank wait = 3
pop_rank asleep = 0
pop_rank woken = 8
pop_rank take_front = 3
pop_rank (unlock_pop x) = 11
pop_rank (pop_returns x) = 10

abbrev push_rank : PushPc → ℕ
push_rank (lock_push x) = 22
push_rank (append x) = 21
push_rank unlock_push = 10
push_rank signal = 9

abbrev rank : ℕ → Pc → ℕ
rank n (launching k rest) = 22 * length rest + (n - k) + (n + 2)
rank n (pushing p rest) = 22 * length rest + push_rank p + (n + 1)
rank n (joining k) = n - k + 1
rank n finished = 0
rank n unborn = 9
rank n (popping p) = pop_rank p
rank n (running t) = 9
rank n exited = 0

pub measure : ℕ → System → ℕ
measure n s = 10 * length s.mem.queue + sum_first (rank n) (suc n) s.pc

move-rank :
    (n i : ℕ) (m : Shared) (p : Pc) {m' : Shared} {p' : Pc}
    → move i m p ≡ some (m', p')
    → 10 * length m'.queue + rank n p' < 10 * length m.queue + rank n p
unfolding move worker_move pop_move push_move is_empty_move
move-rank n i m p made = grind (arith, length-append)

next_push-rank : (n : ℕ) (rest : List Task) → rank n (next_push rest) ≤ 22 * length rest + (n + 1)
next_push-rank n rest = ground arith

main_moves :
    (n : ℕ) (s : System) (p : Pc)
    → sum_first (rank n) (suc n) (put_at 0 p s.pc) + rank n (s.pc 0)
      ≡ sum_first (rank n) (suc n) s.pc + rank n p
main_moves n s p = sum_first-put_at (rank n) (suc n) 0 p s.pc (omega arith)

worker_moves :
    (n : ℕ) (s : System) (w : ℕ) (p : Pc)
    → w < n
    → sum_first (rank n) (suc n) (put_at (w + 1) p s.pc) + rank n (s.pc (w + 1))
      ≡ sum_first (rank n) (suc n) s.pc + rank n p
worker_moves n s w p lt = sum_first-put_at (rank n) (suc n) (w + 1) p s.pc (omega arith)

-- Every step other than a spurious wake-up brings the end nearer.
Step-measure :
    {n : ℕ} {tasks : List ℕ} {s t : System} → Inv n tasks s → Step n s t → measure n t < measure n s
unfolding measure
Step-measure {n} {s} inv (act i {m} {p} le made) = omega (
  arith,
  move-rank n i s.mem (s.pc i) made,
  sum_first-put_at (rank n) (suc n) i p s.pc (omega arith),
)
Step-measure {n} {s} inv (launch k {rest} lt e) = ground (
  arith,
  (inv.launches k lt).1,
  sum_first-put_at (rank n) (suc n) 0 (launching (k + 1) rest)
      (put_at (k + 1) (popping lock_pop) s.pc),
  worker_moves n s k (popping lock_pop) lt,
)
Step-measure {n} {s} inv (launched {rest} e) =
    ground (arith, main_moves n s (next_push rest), next_push-rank n rest)
Step-measure {n} {s} inv (wake w {rest} lt a e) = ground (
  arith,
  sum_first-put_at (rank n) (suc n) 0 (next_push rest) (put_at (w + 1) (popping woken) s.pc),
  worker_moves n s w (popping woken) lt,
  next_push-rank n rest,
)
Step-measure {n} {s} inv (wake_none {rest} h e) =
    ground (arith, main_moves n s (next_push rest), next_push-rank n rest)
Step-measure {n} {s} inv (join k lt x e) = ground (arith, main_moves n s (joining (k + 1)))
Step-measure {n} {s} inv (joined e) = ground (arith, main_moves n s finished)

-- A run of so many steps, none of them a spurious wake-up.
pub data Run (n : ℕ) : System → ℕ → System → Type 0 where
  stay : (s : System) → Run n s 0 s
  go : {k : ℕ} {s t u : System} → Step n s t → Run n t k u → Run n s (suc k) u

Run-measure :
    {n : ℕ} {tasks : List ℕ} {k : ℕ} {s t : System}
    → Reach n tasks s
    → Run n s k t
    → k + measure n t ≤ measure n s
Run-measure r (stay s) = omega arith
Run-measure r (go st run) =
    omega (arith, Run-measure (later r st) run, Step-measure (Reach-Inv r) st)

sum_first-start :
    (n k : ℕ) (tasks : List ℕ)
    → sum_first (rank n) (suc k) (start n tasks).pc
      ≡ 22 * length (program n tasks) + (n + (n + 2)) + 9 * k
unfolding sum_first
sum_first-start n zero tasks = omega arith
sum_first-start n (suc k) tasks = omega (arith, sum_first-start n k tasks)

length-program : (n : ℕ) (tasks : List ℕ) → length (program n tasks) ≡ length tasks + n
unfolding program
length-program n [] = omega (arith, length-replicate {0} {A = Task} n none)
length-program n (t ∷ tasks) = omega (arith, length-program n tasks)

-- A run of `main` and its workers from the start has at most 22 steps for each task, 33 for each
-- worker, and 2 more, however the threads are interleaved, if there is no spurious wake-up.
pub run-length :
    (n : ℕ) (tasks : List ℕ) {k : ℕ} {t : System}
    → Run n (start n tasks) k t
    → k ≤ 22 * length tasks + 33 * n + 2
unfolding measure
run-length n tasks run =
    omega (
      arith,
      Run-measure {tasks = tasks} here run,
      sum_first-start n n tasks,
      length-program n tasks,
    )

finishes_by :
    (fuel n : ℕ) (tasks : List ℕ) (s : System)
    → measure n s < fuel
    → Reach n tasks s
    → (k : ℕ) × (t : System) × Run n s k t × (t.pc 0 ≡ finished)
finishes_by zero n tasks s lt r = absurd (omega arith)
finishes_by (suc fuel) n tasks s lt r = elim (no_deadlock r) [
  | inl done ↦ (0, s, stay s, done)
  | inr (t, st) ↦
      let (k, u, run, done) =
        finishes_by fuel n tasks t (omega (arith, Step-measure (Reach-Inv r) st)) (later r st) in
      (suc k, u, go st run, done)
]

-- From every state that can be reached, whatever spurious wake-ups there were, the threads can run
-- on until the destructor has returned.
pub finishes :
    (n : ℕ) (tasks : List ℕ) (s : System)
    → Reach n tasks s
    → (k : ℕ) × (t : System) × Run n s k t × (t.pc 0 ≡ finished)
finishes n tasks s r = finishes_by (suc (measure n s)) n tasks s (omega arith) r

-- The pool comes to its end: a run from the start has at most 22 steps for each task, 33 for each
-- worker and 2 more, however the threads take turns, if there is no spurious wake-up; and from
-- every state that can be reached, whatever spurious wake-ups there were, the threads can run on
-- until the destructor has returned.
pub terminates :
    (n : ℕ) (tasks : List ℕ) (s : System) {k : ℕ} {t : System}
    → Run n (start n tasks) k t
    → Reach n tasks s
    → (k ≤ 22 * length tasks + 33 * n + 2)
      × ((j : ℕ) × (u : System) × Run n s j u × (u.pc 0 ≡ finished))
terminates n tasks s run r = (run-length n tasks run, finishes n tasks s r)
