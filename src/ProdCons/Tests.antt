-- ===== src/ProdCons/Tests.antt =====
-- day1/08_prod_cons/main.cpp: the first messages.
use cpp_rt.Prelude.{◌≡◌, refl, [], ◌∷◌, ◌++◌}
use cpp_rt.ProdCons.{
  System, producer_lock, push, producer_unlock, signal, consumer_lock, test_empty, test_full, wait,
  return_from_wait, front, pop, consumer_unlock, Reach, here, later,
}
use cpp_rt.ProdCons.Invariant.{first, Found, IsAwaited}
use cpp_rt.ProdCons.Laws.{messages-in_order}

-- The consumer finds the queue empty and goes to sleep.
abbrev asleep : (s : System) × Reach s
asleep =
    (_, later (later (later here (consumer_lock refl refl)) (test_empty refl refl)) (wait refl))

abbrev pushed : (s : System) × Reach s
pushed = (_, later (later asleep.1 (producer_lock refl refl)) (push refl))

abbrev signalled : (s : System) × Reach s
signalled = (_, later (later pushed.1 (producer_unlock refl)) (signal refl))

abbrev taken : (s : System) × Reach s
taken = (
  _,
  later
      (later (later (later signalled.1 (return_from_wait refl refl)) (test_full refl (λ e. cc)))
        (front 0 [] refl refl))
      (pop 0 0 [] refl refl),
)

abbrev pushed_again : (s : System) × Reach s
pushed_again =
    (_, later (later (later taken.1 (consumer_unlock refl)) (producer_lock refl refl)) (push refl))

messages-in_order_example :
    (pushed_again.0.received ++ pushed_again.0.q ≡ first pushed_again.0.i)
    × Found pushed_again.0.consumer_pc pushed_again.0.q
    × IsAwaited pushed_again.0.producer_pc pushed_again.0.consumer_pc pushed_again.0.q
messages-in_order_example = messages-in_order pushed_again.1

both : pushed_again.0.received ++ pushed_again.0.q ≡ 0 ∷ 1 ∷ []
both = refl
