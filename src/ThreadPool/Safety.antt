-- ===== src/ThreadPool/Safety.antt =====
-- What day2/ex_ThreadPool promises in every state that its threads can reach.
use mathlib.Core.List.{append-nil, tail}
use native.Mathlib.Numerals.{add-one}
use cpp_rt.Prelude.{
  ℕ, zero, suc, ◌+◌, ◌≤◌, ◌<◌, ◌≡◌, ◌≢◌, refl, ap, List, [], ◌∷◌, ◌++◌, arith, sum_first,
  sum_first-eq-zero, sum_first-ones,
}
use cpp_rt.ThreadPool.Mutex.{Task}
use cpp_rt.ThreadPool.Queue.{take_front}
use cpp_rt.ThreadPool.History.{
  count, count_task, count_null, count_null-program, count_task-program, count_null-append,
}
use cpp_rt.ThreadPool.System.{Pc, finished, popping, exited, System, Reach, program}
use cpp_rt.ThreadPool.Invariant.{pc_locks, quits, carries, unpushed, Inv, Reach-Inv}

-- Two threads are never between the constructor and the destructor of their lock guards together.
pub mutual_exclusion :
    {n : ℕ} {tasks : List ℕ} {s : System}
    → Reach n tasks s
    → (i j : ℕ) → i ≤ n
    → j ≤ n
    → pc_locks (s.pc i) ≢ 0
    → pc_locks (s.pc j) ≢ 0
    → i ≡ j
mutual_exclusion r i j li lj a b =
    let inv = Reach-Inv r in ground (arith, inv.held i li, inv.held j lj)

-- No thread reaches `q.front(); q.pop();` while the queue is empty.
pub front_defined :
    {n : ℕ} {tasks : List ℕ} {s : System}
    → Reach n tasks s
    → (i : ℕ) → i ≤ n
    → s.pc i ≡ popping take_front
    → s.mem.queue ≢ []
front_defined r i le e = let inv = Reach-Inv r in ground (arith, inv.fresh i le)

-- What a thread that is about to call `front` and `pop` finds.
abbrev pub IsFrontDefined : Pc → List Task → Type 0
IsFrontDefined (popping take_front) queue = queue ≢ []
IsFrontDefined p queue = Unit

front-IsFrontDefined :
    (p : Pc) (queue : List Task) → (p ≡ popping take_front → queue ≢ []) → IsFrontDefined p queue
front-IsFrontDefined (popping take_front) queue h = h refl
front-IsFrontDefined p queue h = tt

-- Two threads are never between the constructor and the destructor of their lock guards together,
-- and a thread that is there and about to call `q.front(); q.pop();` finds the queue not empty.
pub critical_section :
    {n : ℕ} {tasks : List ℕ} {s : System} (i j : ℕ)
    → Reach n tasks s
    → i ≤ n
    → j ≤ n
    → pc_locks (s.pc i) ≢ 0
    → pc_locks (s.pc j) ≢ 0
    → (i ≡ j) × IsFrontDefined (s.pc i) s.mem.queue
critical_section {s} i j r li lj a b = (
  mutual_exclusion r i j li lj a b,
  front-IsFrontDefined (s.pc i) s.mem.queue (front_defined r i li),
)

-- The workers together take the tasks in the order in which they were added: what has been taken,
-- then what is queued, then what `main` has still to push (`unpushed`, by where it stands), is the
-- list of all pushes.
pub taken-in_order :
    {n : ℕ} {tasks : List ℕ} {s : System}
    → Reach n tasks s
    → s.mem.taken ++ (s.mem.queue ++ unpushed (s.pc 0)) ≡ program n tasks
taken-in_order r = (Reach-Inv r).fifo

-- With every empty task taken from a pool that has workers, nothing is left.
drained :
    (n : ℕ) (tasks : List ℕ) (xs ys : List Task)
    → 0 < n
    → xs ++ ys ≡ program n tasks
    → count_null ys ≡ 0
    → ys ≡ []
unfolding program count_null
drained zero tasks xs ys h e z = absurd (omega arith)
drained (suc n) tasks [] ys h e z =
    absurd (omega (arith, ap count_null e, count_null-program (suc n) tasks))
drained (suc zero) [] (x ∷ []) ys h e z = ap tail e
drained (suc zero) [] (x ∷ y ∷ xs) ys h e z = ground arith
drained (suc (suc n)) [] (x ∷ xs) ys h e z = drained (suc n) [] xs ys (omega arith) (ap tail e) z
drained (suc n) (t ∷ tasks) (x ∷ xs) ys h e z = drained (suc n) tasks xs ys h (ap tail e) z

module _ {n : ℕ} {tasks : List ℕ} {s : System} (inv : Inv n tasks s) (pos : 0 < n)
    (done : s.pc 0 ≡ finished) where
  all_exited : (i : ℕ) → i < n → s.pc (i + 1) ≡ exited
  all_exited i lt = inv.joins i (ground arith)

  -- A weight that an exited worker and a finished `main` do not have sums up to nothing.
  sum-exited : (f : Pc → ℕ) → f finished ≡ 0 → f exited ≡ 0 → sum_first f (suc n) s.pc ≡ 0
  sum-exited f a b = sum_first-eq-zero f (suc n) s.pc at_thread
    where
      at_thread : (i : ℕ) → i < suc n → f (s.pc i) ≡ 0
      at_thread zero lt = rw done a
      at_thread (suc i) lt = rw (rw add-one at (all_exited i (omega arith))) b

  all_taken : (s.mem.taken ≡ program n tasks) × (s.mem.queue ≡ [])
  all_taken = (simp append-nil at (rw empty at pushed), empty)
    where
      pushed : s.mem.taken ++ s.mem.queue ≡ program n tasks
      pushed = simp append-nil at (rw done at inv.fifo)

      quit : count_null s.mem.taken ≡ n
      quit = omega (
        arith,
        inv.nulls,
        sum_first-ones quits n s.pc (rw done refl) (λ i lt. rw (all_exited i lt) refl),
      )

      empty : s.mem.queue ≡ []
      empty = drained n tasks s.mem.taken s.mem.queue pos pushed (
          omega (
            arith,
            quit,
            ap count_null pushed,
            count_null-append s.mem.taken s.mem.queue,
            count_null-program n tasks,
          ))

  ran-count : (t : ℕ) → count t s.mem.ran ≡ count t tasks
  ran-count t = omega (
    arith,
    inv.calls t,
    sum-exited (carries t) refl refl,
    ap (count_task t) all_taken.0,
    count_task-program t n tasks,
  )

-- When the destructor of a pool with workers has returned, every worker has returned, each task
-- has been called as often as it was added, and no other; the workers took all the tasks in the
-- order in which they were added, and the queue is empty.
pub finished_complete :
    {n : ℕ} {tasks : List ℕ} {s : System}
    → Reach n tasks s
    → 0 < n
    → s.pc 0 ≡ finished
    → ((i : ℕ) → i < n → s.pc (i + 1) ≡ exited)
      × ((t : ℕ) → count t s.mem.ran ≡ count t tasks)
      × (s.mem.taken ≡ program n tasks)
      × (s.mem.queue ≡ [])
finished_complete r pos done =
    let inv = Reach-Inv r in
    let taken = all_taken inv pos done in
    (all_exited inv pos done, ran-count inv pos done, taken.0, taken.1)
