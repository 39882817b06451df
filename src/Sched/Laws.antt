-- ===== src/Sched/Laws.antt =====
-- day2/04_attribs/sched.cpp: the order of the calls of `main`.
use cpp_rt.Prelude.{ℕ, ◌+◌, List, [], ◌∷◌, ◌++◌}
use cpp_rt.Process.Plan.{
  Item, must, may, plan_range, Follows, must-Follows, may-Follows, done-Follows, ◌⨟◌,
  for_range-Follows,
}
use cpp_rt.Sched.{
  Call, get_priority_min, get_priority_max, attr_init, attr_setinheritsched, attr_setschedpolicy,
  attr_getschedparam, attr_setschedparam, create, attr_destroy, sleep, set_interrupt, join,
  sched_fifo, explicit_sched, create_thread, main,
}

module _ (priority_min : ℕ → ℕ) where
  -- Thread `i` has its priority set in the attributes before it is created with them.
  unfoldable pub creation : ℕ → List (Item Call)
  creation i =
      may attr_getschedparam
      ∷ may (get_priority_min sched_fifo)
      ∷ must (attr_setschedparam (priority_min sched_fifo + i))
      ∷ must
          (create i (record { counter = 0; interrupt = 0; priority = priority_min sched_fifo + i }))
      ∷ []

  unfoldable pub plan_sched : List (Item Call)
  unfolding creation
  plan_sched =
      may (get_priority_min sched_fifo)
      ∷ may (get_priority_max sched_fifo)
      ∷ must attr_init
      ∷ must (attr_setinheritsched explicit_sched)
      ∷ must (attr_setschedpolicy sched_fifo)
      ∷ (plan_range 4 0 creation
          ++ (must attr_destroy
              ∷ may (sleep 10)
              ∷ (plan_range 4 0 (λ i. may (set_interrupt i) ∷ [])
                  ++ (plan_range 4 0 (λ i. must (join i) ∷ []) ++ []))))

  creation-Follows : (i : ℕ) → Follows (create_thread priority_min i) (creation i) tt
  unfolding create_thread creation
  creation-Follows i =
      may-Follows attr_getschedparam
      ⨟ may-Follows (get_priority_min sched_fifo)
      ⨟ must-Follows (attr_setschedparam (priority_min sched_fifo + i))
      ⨟ must-Follows _

  -- `main` sets the attributes up, gives thread `i` the lowest priority of the policy and `i`, and
  -- interrupts all the threads before it joins the first one; behind the first call that must
  -- succeed and does not, it exits with EXIT_FAILURE and makes no other call.
  pub sched_main-Follows : Follows (main priority_min) plan_sched 0
  unfolding main plan_sched
  sched_main-Follows =
      may-Follows _
      ⨟ may-Follows _
      ⨟ must-Follows _
      ⨟ must-Follows _
      ⨟ must-Follows _
      ⨟ for_range-Follows 4 0 (create_thread priority_min) creation creation-Follows
      ⨟ must-Follows _
      ⨟ may-Follows _
      ⨟ for_range-Follows 4 0 _ _ (λ i. may-Follows (set_interrupt i))
      ⨟ for_range-Follows 4 0 _ _ (λ i. must-Follows (join i))
      ⨟ done-Follows 0
