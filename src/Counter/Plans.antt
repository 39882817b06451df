-- ===== src/Counter/Plans.antt =====
-- `main` of day1/05_mutex/pthread_mutex_perf.cpp and of day2/08_spin/pthread_spinlock.c: the order
-- of the calls.
use cpp_rt.Prelude.{ℕ, List, [], ◌∷◌, ◌++◌}
use cpp_rt.Process.Plan.{
  Item, must, may, plan_range, Follows, must-Follows, may-Follows, done-Follows, ◌⨟◌,
  for_range-Follows,
}
use cpp_rt.Counter.Mains.{
  Call, mutex_init, spin_init, create, join, mutex_destroy, mutex_main, spin_main,
}

-- All `n` threads are created before the first one is joined, and each is joined once.
abbrev pub creations_and_joins : ℕ → List (Item Call) → List (Item Call)
creations_and_joins n rest =
    plan_range n 0 (λ i. must (create i) ∷ []) ++ (plan_range n 0 (λ i. must (join i) ∷ []) ++ rest)

-- Both programs make these calls in this order, and exit with EXIT_FAILURE behind the first one
-- that must succeed and does not.
pub counters-Follow :
    Follows mutex_main (must mutex_init ∷ creations_and_joins 10 (may mutex_destroy ∷ [])) 0
    × Follows spin_main (must mutex_init ∷ must spin_init ∷ creations_and_joins 25 []) 0
unfolding mutex_main spin_main
counters-Follow = (
  must-Follows _
      ⨟ for_range-Follows 10 0 _ _ (λ i. must-Follows (create i))
      ⨟ for_range-Follows 10 0 _ _ (λ i. must-Follows (join i))
      ⨟ may-Follows _
      ⨟ done-Follows 0,
  must-Follows _
      ⨟ must-Follows _
      ⨟ for_range-Follows 25 0 _ _ (λ i. must-Follows (create i))
      ⨟ for_range-Follows 25 0 _ _ (λ i. must-Follows (join i))
      ⨟ done-Follows 0,
)
