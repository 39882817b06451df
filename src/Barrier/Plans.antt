-- ===== src/Barrier/Plans.antt =====
-- day2/12_barrier/pthread_barrier.c: the order of the calls of `main`.
use cpp_rt.Prelude.{[], ◌∷◌, ◌++◌, List}
use cpp_rt.Process.Plan.{
  Item, must, plan_range, Follows, must-Follows, done-Follows, ◌⨟◌, for_range-Follows,
}
use cpp_rt.Barrier.{Call, barrier_init, create, join, barrier_destroy, num_threads, main}

-- `main` makes a barrier for as many threads as it creates, creates them all before it joins the
-- first one, and destroys the barrier behind the last join.
abbrev pub plan_barrier : List (Item Call)
plan_barrier =
    must (barrier_init num_threads)
    ∷ (plan_range num_threads 0 (λ i. must (create i) ∷ [])
        ++ (plan_range num_threads 0 (λ i. must (join i) ∷ []) ++ (must barrier_destroy ∷ [])))

pub barrier_main-Follows : Follows main plan_barrier 0
unfolding main
barrier_main-Follows =
    must-Follows _
    ⨟ for_range-Follows num_threads 0 _ _ (λ i. must-Follows (create i))
    ⨟ for_range-Follows num_threads 0 _ _ (λ i. must-Follows (join i))
    ⨟ must-Follows _
    ⨟ done-Follows 0
