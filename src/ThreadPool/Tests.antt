-- ===== src/ThreadPool/Tests.antt =====
-- Runs of day2/ex_ThreadPool at concrete inputs.
use cpp_rt.Prelude.{ℕ, ◌+◌, ◌≤◌, ◌<◌, ◌≡◌, ◌≢◌, ◌⊎◌, refl, List, [], ◌∷◌, ◌++◌, arith, ◌*◌, length}
use cpp_rt.ThreadPool.Queue.{is_empty_move, pop_move, push_move}
use cpp_rt.ThreadPool.History.{count}
use cpp_rt.ThreadPool.System.{
  finished, exited, System, Step, act, launch, launched, Reach, here, later, move, worker_move,
  program,
}
use cpp_rt.ThreadPool.Invariant.{unpushed}
use cpp_rt.ThreadPool.Safety.{critical_section, taken-in_order, finished_complete}
use cpp_rt.ThreadPool.Progress.{no_deadlock}
use cpp_rt.ThreadPool.Termination.{Run, stay, go, finishes, terminates}

abbrev one_task : List ℕ
one_task = 7 ∷ []

-- `main` has launched its one worker and locked the queue to push task 7.
abbrev main_locks : (s : System) × Reach 1 one_task s
unfolding program move worker_move pop_move push_move is_empty_move
main_locks = (
  _,
  later (later (later here (launch 0 (omega arith) refl)) (launched refl))
      (act 0 (omega arith) refl),
)

-- The push is done, its signal found nobody, and the worker is about to take the task.
abbrev worker_takes : (s : System) × Reach 1 one_task s
unfolding main_locks program move worker_move pop_move push_move is_empty_move
worker_takes = (
  _,
  (later
      (later
        (later
          (later
            (later
              (later (later main_locks.1 (act 0 (omega arith) refl)) (act 0 (omega arith) refl))
              (act 1 (omega arith) refl))
            (act 1 (omega arith) refl))
          (act 1 (omega arith) refl))
        (act 1 (omega arith) refl))
      (act 1 (omega arith) refl)),
)

critical_section_example : (◌≡◌ {A = ℕ} 1 1) × (worker_takes.0.mem.queue ≢ [])
unfolding worker_takes main_locks program move worker_move pop_move push_move is_empty_move
critical_section_example =
    critical_section 1 1 worker_takes.1 (omega arith) (omega arith) (ground arith) (ground arith)

taken-in_order_example :
    worker_takes.0.mem.taken ++ (worker_takes.0.mem.queue ++ unpushed (worker_takes.0.pc 0))
    ≡ program 1 one_task
taken-in_order_example = taken-in_order worker_takes.1

no_deadlock_example : (worker_takes.0.pc 0 ≡ finished) ⊎ ((t : System) × Step 1 worker_takes.0 t)
no_deadlock_example = no_deadlock worker_takes.1

abbrev to_the_end : (k : ℕ) × (t : System) × Run 1 worker_takes.0 k t × (t.pc 0 ≡ finished)
to_the_end = finishes 1 one_task worker_takes.0 worker_takes.1

Run-Reach :
    {n : ℕ} {tasks : List ℕ} {k : ℕ} {s t : System}
    → Reach n tasks s
    → Run n s k t
    → Reach n tasks t
Run-Reach r (stay s) = r
Run-Reach r (go st run) = Run-Reach (later r st) run

finished_complete_example :
    ((i : ℕ) → i < 1 → to_the_end.1.pc (i + 1) ≡ exited)
    × ((t : ℕ) → count t to_the_end.1.mem.ran ≡ count t one_task)
    × (to_the_end.1.mem.taken ≡ program 1 one_task)
    × (to_the_end.1.mem.queue ≡ [])
finished_complete_example =
    finished_complete (Run-Reach worker_takes.1 to_the_end.2) (omega arith) to_the_end.3

terminates_example :
    (2 ≤ 22 * length one_task + 33 * 1 + 2)
    × ((k : ℕ) × (t : System) × Run 1 worker_takes.0 k t × (t.pc 0 ≡ finished))
unfolding program
terminates_example =
    terminates 1 one_task worker_takes.0
      (go (launch 0 (omega arith) refl) (go (launched refl) (stay _))) worker_takes.1
