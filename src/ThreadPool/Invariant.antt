-- ===== src/ThreadPool/Invariant.antt =====
-- The invariant of day2/ex_ThreadPool holds when `main` starts, and every step keeps it, spurious
-- wake-ups included.
mod Defs
mod Moves
mod Acts
mod Turns
pub use Defs.*
pub use Moves.{move-locks}
use Acts.{act-Inv}
use Turns.{wake-Inv, launch-Inv, signal-Inv, next-Inv, join-Inv, joined-Inv}
use native.Mathlib.Numerals.{add-one}
use cpp_rt.Prelude.{
  ℕ, zero, suc, ◌+◌, ◌<◌, ◌≡◌, ◌≢◌, refl, inl, inr, none, List, sum_first, sum_first-eq-zero, arith,
}
use cpp_rt.ThreadPool.History.{count, count_task, count_null}
use cpp_rt.ThreadPool.Queue.{asleep}
use cpp_rt.ThreadPool.System.{
  Pc, launching, unborn, popping, System, fresh, Step, act, launch, launched, wake, wake_none, join,
  joined, Spurious, spurious, start, first_pc, program, Reach, here, later, later_spurious,
}

start-Inv : (n : ℕ) (tasks : List ℕ) → Inv n tasks (start n tasks)
unfolding count count_task count_null
start-Inv n tasks = record {
  held = λ i le. positions i;
  holder = λ j e. cc;
  fresh = λ i le. untested i;
  main = tt;
  worker = λ i le. rw add-one tt;
  launches = λ i le. (λ _. omega arith, λ _. rw add-one refl);
  joins = λ i le. absurd (omega arith);
  within = omega arith;
  fifo = refl;
  nulls = idle quits (λ i. idle_pc quits i refl refl);
  wakes = inl (idle sleeps (λ i. idle_pc sleeps i refl refl));
  calls = λ t. omega (arith, idle (carries t) (λ i. idle_pc (carries t) i refl refl));
}
  where
    idle :
        (f : Pc → ℕ)
        → ((i : ℕ) → f (first_pc (program n tasks) i) ≡ 0)
        → sum_first f (suc n) (start n tasks).pc ≡ 0
    idle f z = sum_first-eq-zero f (suc n) _ (λ i le. z i)

    idle_pc :
        (f : Pc → ℕ) (i : ℕ)
        → f (launching 0 (program n tasks)) ≡ 0
        → f unborn ≡ 0
        → f (first_pc (program n tasks) i) ≡ 0
    idle_pc f zero a b = a
    idle_pc f (suc i) a b = b

    untested : (i : ℕ) → IsFresh fresh (first_pc (program n tasks) i)
    untested zero = tt
    untested (suc i) = tt

    positions : (i : ℕ) → 0 ≡ pc_locks (first_pc (program n tasks) i)
    positions zero = refl
    positions (suc i) = refl

no_sleepers :
    (n : ℕ) (pc : ℕ → Pc)
    → sleeps (pc 0) ≡ 0
    → ((w : ℕ) → w < n → pc (w + 1) ≢ popping asleep)
    → sum_first sleeps (suc n) pc ≡ 0
no_sleepers n pc m h = sum_first-eq-zero sleeps (suc n) pc awake
  where
    is_asleep : (p : Pc) → p ≢ popping asleep → sleeps p ≡ 0
    is_asleep p ne = ground arith

    awake : (i : ℕ) → i < suc n → sleeps (pc i) ≡ 0
    awake zero lt = m
    awake (suc i) lt = is_asleep (pc (suc i)) (rw add-one at (h i (omega arith)))

pub Step-Inv : {n : ℕ} {tasks : List ℕ} {s t : System} → Step n s t → Inv n tasks s → Inv n tasks t
Step-Inv (act i le made) inv = act-Inv inv i le made
Step-Inv (launch k lt e) inv = launch-Inv inv k lt e
Step-Inv (launched e) inv = next-Inv inv (inl e)
Step-Inv (wake w lt a e) inv = signal-Inv inv w lt a e
Step-Inv (wake_none h e) inv = next-Inv inv (inr (e, no_sleepers _ _ (ground arith) h))
Step-Inv (join k lt x e) inv = join-Inv inv k lt x e
Step-Inv (joined e) inv = joined-Inv inv e

pub Reach-Inv : {n : ℕ} {tasks : List ℕ} {s : System} → Reach n tasks s → Inv n tasks s
Reach-Inv {n} {tasks} here = start-Inv n tasks
Reach-Inv (later r st) = Step-Inv st (Reach-Inv r)
Reach-Inv (later_spurious r (spurious w lt e)) = wake-Inv (Reach-Inv r) w lt e
