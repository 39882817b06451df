-- ===== src/ThreadPool/Invariant/Turns.antt =====
-- The steps that name two threads, those of `main` at its loops, and spurious wake-ups keep the
-- invariant.
use cpp_rt.Prelude.{ℕ, suc, ◌+◌, ◌<◌, ◌≡◌, ◌⊎◌, List, put_at, sum_first, sum_first-put_at, arith}
use cpp_rt.ThreadPool.Mutex.{Task}
use cpp_rt.ThreadPool.Queue.{lock_pop, asleep, woken, signal}
use cpp_rt.ThreadPool.System.{
  Pc, System, launching, pushing, joining, finished, unborn, popping, exited, next_push,
}
use cpp_rt.ThreadPool.Invariant.Defs.{quits, sleeps, active, carries, Inv}

-- A worker is moved from one quiet position to another: woken, or launched.
module _ {n : ℕ} {tasks : List ℕ} {s : System} (inv : Inv n tasks s) (w : ℕ) (lt : w < n)
    (p : Pc) where
  abbrev moved : ℕ → Pc
  moved = put_at (w + 1) p s.pc

  turned :
      (f : Pc → ℕ) → sum_first f (suc n) moved + f (s.pc (w + 1)) ≡ sum_first f (suc n) s.pc + f p
  turned f = sum_first-put_at f (suc n) (w + 1) p s.pc (omega arith)

pub wake-Inv :
    {n : ℕ} {tasks : List ℕ} {s : System}
    → Inv n tasks s
    → (w : ℕ) → w < n
    → s.pc (w + 1) ≡ popping asleep
    → Inv n tasks (record s { pc = put_at (w + 1) (popping woken) s.pc })
wake-Inv {n} {s} inv w lt e = record {
  held = λ i le. ground (arith, inv.held i le);
  holder = inv.holder;
  fresh = λ i le. ground (arith, inv.fresh i le);
  main = ground (arith, inv.main);
  worker = λ i le. ground (arith, inv.worker i le);
  launches = λ i le. ground (arith, inv.launches i le);
  joins = λ i le. ground (arith, inv.joins i);
  within = ground (arith, inv.within);
  fifo = ground (arith, inv.fifo);
  nulls = ground (arith, inv.nulls, turned inv w lt (popping woken) quits);
  wakes = ground (
    arith,
    inv.wakes,
    turned inv w lt (popping woken) sleeps,
    turned inv w lt (popping woken) active,
  );
  calls = λ t. ground (arith, inv.calls t, turned inv w lt (popping woken) (carries t));
}

-- `main` goes on, and a worker with it.
module _ {n : ℕ} {tasks : List ℕ} {s : System} (inv : Inv n tasks s) (q : Pc) (w : ℕ) (lt : w < n)
    (p : Pc) where
  both :
      (f : Pc → ℕ)
      → sum_first f (suc n) (put_at 0 q (put_at (w + 1) p s.pc)) + f (s.pc 0) + f (s.pc (w + 1))
        ≡ sum_first f (suc n) s.pc + f q + f p
  both f =
      ground (arith, sum_first-put_at f (suc n) 0 q (put_at (w + 1) p s.pc), turned inv w lt p f)

pub launch-Inv :
    {n : ℕ} {tasks : List ℕ} {s : System} {rest : List Task}
    → Inv n tasks s
    → (k : ℕ) → k < n
    → s.pc 0 ≡ launching k rest
    → Inv n tasks (record s {
      pc = put_at 0 (launching (k + 1) rest) (put_at (k + 1) (popping lock_pop) s.pc);
    })
launch-Inv {n} {s} {rest} inv k lt e = record {
  held = λ i le. ground (arith, inv.held i le, fresh_worker);
  holder = inv.holder;
  fresh = λ i le. ground (arith, inv.fresh i le);
  main = tt;
  worker = λ i le. ground (arith, inv.worker i le);
  launches = λ i le. ground (arith, inv.launches i le);
  joins = λ i le. ground (arith, inv.joins i);
  within = ground (arith, inv.within);
  fifo = ground (arith, inv.fifo);
  nulls = ground (
    arith,
    inv.nulls,
    fresh_worker,
    both inv (launching (k + 1) rest) k lt (popping lock_pop) quits,
  );
  wakes = ground (
    arith,
    inv.wakes,
    fresh_worker,
    both inv (launching (k + 1) rest) k lt (popping lock_pop) sleeps,
    both inv (launching (k + 1) rest) k lt (popping lock_pop) active,
  );
  calls = λ t. ground (
    arith,
    inv.calls t,
    fresh_worker,
    both inv (launching (k + 1) rest) k lt (popping lock_pop) (carries t),
  );
}
  where
    fresh_worker : s.pc (k + 1) ≡ unborn
    fresh_worker = (inv.launches k lt).1 (ground arith)

pub signal-Inv :
    {n : ℕ} {tasks : List ℕ} {s : System} {rest : List Task}
    → Inv n tasks s
    → (w : ℕ) → w < n
    → s.pc (w + 1) ≡ popping asleep
    → s.pc 0 ≡ pushing signal rest
    → Inv n tasks
        (record s { pc = put_at 0 (next_push rest) (put_at (w + 1) (popping woken) s.pc) })
signal-Inv {n} {s} {rest} inv w lt a e = record {
  held = λ i le. ground (arith, inv.held i le);
  holder = inv.holder;
  fresh = λ i le. ground (arith, inv.fresh i le);
  main = ground arith;
  worker = λ i le. ground (arith, inv.worker i le);
  launches = λ i le. ground (arith, inv.launches i le);
  joins = λ i le. ground (arith, inv.joins i);
  within = ground (arith, inv.within);
  fifo = ground (arith, inv.fifo);
  nulls = ground (arith, inv.nulls, both inv (next_push rest) w lt (popping woken) quits);
  wakes = ground (
    arith,
    inv.wakes,
    both inv (next_push rest) w lt (popping woken) sleeps,
    both inv (next_push rest) w lt (popping woken) active,
  );
  calls =
      λ t. ground (arith, inv.calls t, both inv (next_push rest) w lt (popping woken) (carries t));
}

-- `main` alone goes on, at a position without lock and test.
module _ {n : ℕ} {tasks : List ℕ} {s : System} (inv : Inv n tasks s) (q : Pc) where
  alone :
      (f : Pc → ℕ)
      → sum_first f (suc n) (put_at 0 q s.pc) + f (s.pc 0) ≡ sum_first f (suc n) s.pc + f q
  alone f = sum_first-put_at f (suc n) 0 q s.pc (omega arith)

pub next-Inv :
    {n : ℕ} {tasks : List ℕ} {s : System} {rest : List Task}
    → Inv n tasks s
    → (s.pc 0 ≡ launching n rest)
      ⊎ ((s.pc 0 ≡ pushing signal rest) × (sum_first sleeps (suc n) s.pc ≡ 0))
    → Inv n tasks (record s { pc = put_at 0 (next_push rest) s.pc })
next-Inv {n} {s} {rest} inv e = record {
  held = λ i le. ground (arith, inv.held i le);
  holder = inv.holder;
  fresh = λ i le. ground (arith, inv.fresh i le);
  main = ground arith;
  worker = λ i le. ground (arith, inv.worker i le);
  launches = λ i le. ground (arith, inv.launches i le);
  joins = λ i le. ground (arith, inv.joins i);
  within = ground (arith, inv.within);
  fifo = ground (arith, inv.fifo);
  nulls = ground (arith, inv.nulls, alone inv (next_push rest) quits);
  wakes =
      ground
        (arith, inv.wakes, alone inv (next_push rest) sleeps, alone inv (next_push rest) active);
  calls = λ t. ground (arith, inv.calls t, alone inv (next_push rest) (carries t));
}

pub join-Inv :
    {n : ℕ} {tasks : List ℕ} {s : System}
    → Inv n tasks s
    → (k : ℕ) → k < n
    → s.pc (k + 1) ≡ exited
    → s.pc 0 ≡ joining k
    → Inv n tasks (record s { pc = put_at 0 (joining (k + 1)) s.pc })
join-Inv {n} {s} inv k lt x e = record {
  held = λ i le. ground (arith, inv.held i le);
  holder = inv.holder;
  fresh = λ i le. ground (arith, inv.fresh i le);
  main = tt;
  worker = λ i le. ground (arith, inv.worker i le);
  launches = λ i le. ground (arith, inv.launches i le);
  joins = λ i le. ground (arith, inv.joins i);
  within = ground (arith, inv.within);
  fifo = ground (arith, inv.fifo);
  nulls = ground (arith, inv.nulls, alone inv (joining (k + 1)) quits);
  wakes =
      ground
        (arith, inv.wakes, alone inv (joining (k + 1)) sleeps, alone inv (joining (k + 1)) active);
  calls = λ t. ground (arith, inv.calls t, alone inv (joining (k + 1)) (carries t));
}

pub joined-Inv :
    {n : ℕ} {tasks : List ℕ} {s : System}
    → Inv n tasks s
    → s.pc 0 ≡ joining n
    → Inv n tasks (record s { pc = put_at 0 finished s.pc })
joined-Inv {n} {s} inv e = record {
  held = λ i le. ground (arith, inv.held i le);
  holder = inv.holder;
  fresh = λ i le. ground (arith, inv.fresh i le);
  main = tt;
  worker = λ i le. ground (arith, inv.worker i le);
  launches = λ i le. ground (arith, inv.launches i le);
  joins = λ i le. ground (arith, inv.joins i);
  within = ground (arith, inv.within);
  fifo = ground (arith, inv.fifo);
  nulls = ground (arith, inv.nulls, alone inv finished quits);
  wakes = ground (arith, inv.wakes, alone inv finished sleeps, alone inv finished active);
  calls = λ t. ground (arith, inv.calls t, alone inv finished (carries t));
}
