-- ===== src/Barrier/Tests.antt =====
-- day2/12_barrier/pthread_barrier.c with two threads.
use cpp_rt.Prelude.{ℕ, ◌<◌, ◌≡◌, refl, ◌⊎◌, inl, Bool, true, arith, sum_first}
use cpp_rt.Barrier.Threads.{quit, System, Step, arrive, complete, Reach, here, later}
use cpp_rt.Barrier.Laws.{IsBehind, is_serial, passed-all, barrier_opens}

abbrev one_waits : (s : System) × Reach 2 s
one_waits = (_, later here (arrive 0 (omega arith) refl (λ e. omega (arith, e))))

abbrev both_passed : (s : System) × Reach 2 s
both_passed = (_, later one_waits.1 (complete 1 0 (omega arith) refl refl (omega arith) refl))

passed-all_example : IsBehind (both_passed.0.pc 1) × (sum_first is_serial 2 both_passed.0.pc ≡ 1)
passed-all_example = passed-all 0 1 both_passed.1 (omega arith) (omega arith) (true, inl refl)

barrier_opens_example :
    ((i : ℕ) → i < 2 → (b : Bool) × (one_waits.0.pc i ≡ quit b))
    ⊎ ((t : System) × Step 2 one_waits.0 t)
barrier_opens_example = barrier_opens (omega arith) one_waits.1
