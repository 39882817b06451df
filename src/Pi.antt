-- ===== src/Pi.antt =====
-- day2/ex_pi/pthreads/pi.cpp, and the same loops of day2/ex_pi/boost/pi.cpp: darts thrown at a
-- quarter of a circle, by one function and by threads that share the generator. The clocks and the
-- output are left out.
mod Laws
mod Tests
use cpp_rt.Prelude.{
  ℕ, zero, suc, ◌+◌, ◌/◌, ◌<◌, ◌≡◌, Bool, Option, none, some, put_at, sum_first, if◌then◌else◌,
}

-- The generator, `RandGen` or `rand`, with a call of it, and the test of a dart in floating-point
-- numbers, `x * x + y * y <= 1.0`.
module _ (Gen : Type 0) (rg : Gen → ℕ × Gen) (is_hit : ℕ → ℕ → Bool) where
  abbrev pub counted : ℕ → ℕ → ℕ → ℕ
  counted x y p = if is_hit x y then p + 1 else p

  -- The loop of `darts`, with the rounds that are left and the hits so far.
  unfoldable pub darts_loop : ℕ → ℕ → Gen → ℕ × Gen
  darts_loop zero p gen = (p, gen)
  darts_loop (suc rounds) p gen =
      let (x, gen1) = rg gen in let (y, gen2) = rg gen1 in darts_loop rounds (counted x y p) gen2

  -- `darts`, which `calculate_serial` calls.
  unfoldable pub darts : ℕ → Gen → ℕ × Gen
  unfolding darts_loop
  darts num_darts gen = darts_loop num_darts 0 gen

  -- Where a thread's call of `darts` stands, with the rounds that are left and the hits so far:
  -- before it draws x, before it draws y, or behind the write of its result.
  pub data Pc : Type 0 where
    drawing_x : ℕ → ℕ → Pc
    drawing_y : ℕ → ℕ → ℕ → Pc
    finished : ℕ → Pc

  -- A step of a thread, each of which calls the generator once at most.
  unfoldable pub move : Gen → Pc → Option (Gen × Pc)
  move gen (drawing_x zero p) = some (gen, finished p)
  move gen (drawing_x (suc rounds) p) = let (x, gen1) = rg gen in some (gen1, drawing_y rounds p x)
  move gen (drawing_y rounds p x) =
      let (y, gen1) = rg gen in some (gen1, drawing_x rounds (counted x y p))
  move gen (finished p) = none

  pub record System : Type 0 where
    pub gen : Gen
    pub pc : ℕ → Pc

  -- `calculate_threaded` creates its threads with `num_darts / num_threads` darts each.
  abbrev pub start : ℕ → ℕ → Gen → System
  start num_threads num_darts gen = record {
    gen = gen;
    pc = λ i. drawing_x (num_darts / num_threads) 0;
  }

  pub data Step (num_threads : ℕ) (s : System) : System → Type 0 where
    act :
        (i : ℕ) (gen : Gen) (p : Pc)
        → i < num_threads
        → move s.gen (s.pc i) ≡ some (gen, p)
        → Step num_threads s (record { gen = gen; pc = put_at i p s.pc })

  pub data Reach (num_threads num_darts : ℕ) (gen : Gen) : System → Type 0 where
    here : Reach num_threads num_darts gen (start num_threads num_darts gen)
    later :
        {s t : System}
        → Reach num_threads num_darts gen s
        → Step num_threads s t
        → Reach num_threads num_darts gen t

  abbrev pub result_of : Pc → ℕ
  result_of (drawing_x rounds p) = 0
  result_of (drawing_y rounds p x) = 0
  result_of (finished p) = p

  -- `std::accumulate` over the results.
  unfoldable pub total : ℕ → System → ℕ
  total num_threads s = sum_first result_of num_threads s.pc
