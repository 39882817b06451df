-- ===== src/Mains.antt =====
-- The order of the calls of `main` in day1/05_mutex, day2/08_spin, day2/12_barrier, day2/13_cancel,
-- day2/04a_signals, day2/14_tss and day2/04_attribs.
mod Tests
use cpp_rt.Prelude.{Bool, ℕ, List, [], ◌∷◌, ◌++◌, ℤ, ◌%◌}
use cpp_rt.Process.{Prog, ◌>>=◌, ◌>>◌, for_range}
use cpp_rt.Process.Plan.{Item, must, may, plan_range}
use cpp_rt.Process.Protocol.{Event, setup, create, stop, join, teardown, other, Rules, Watch}
use cpp_rt.Counter
use cpp_rt.Counter.Mains.{mutex_init, spin_init, mutex_destroy}
use cpp_rt.Counter.Plans.{creations_and_joins}
use cpp_rt.Barrier.Plans.{plan_barrier}
use cpp_rt.Cancel
use cpp_rt.Signals
use cpp_rt.Tss
use cpp_rt.Barrier
use cpp_rt.Sched

abbrev pub plan_cancel : ℤ → List (Item Cancel.Call)
plan_cancel z =
    must (Cancel.create (Cancel.routine_of z) (Cancel.number_of (Cancel.routine_of z)))
    ∷ may (Cancel.nanosleep 0 5000000)
    ∷ must Cancel.cancel
    ∷ must Cancel.join
    ∷ []

abbrev pub plan_signals : List (Item Signals.Call)
plan_signals =
    may Signals.empty_sa_mask
    ∷ may (Signals.sigaction Signals.rtmin)
    ∷ may Signals.sigemptyset
    ∷ may (Signals.sigaddset Signals.usr1)
    ∷ may (Signals.sigaddset Signals.rtmin)
    ∷ must Signals.block
    ∷ may Signals.self
    ∷ must Signals.create
    ∷ may Signals.sigwait
    ∷ may Signals.join
    ∷ []

abbrev pub plan_tss : List (Item Tss.Call)
plan_tss =
    must Tss.key_create
    ∷ (plan_range 3 0 (λ i. must (Tss.create i (i % 3)) ∷ [])
        ++ (plan_range 3 0 (λ i. may (Tss.join i) ∷ []) ++ (must Tss.key_delete ∷ [])))

-- What the calls of each program mean for their order.
abbrev pub counter_event : Counter.Mains.Call → Event
counter_event Counter.Mains.mutex_init = setup
counter_event Counter.Mains.spin_init = setup
counter_event (Counter.Mains.create i) = create i
counter_event (Counter.Mains.join i) = join i
counter_event Counter.Mains.mutex_destroy = teardown

abbrev pub barrier_event : Barrier.Call → Event
barrier_event (Barrier.barrier_init n) = setup
barrier_event (Barrier.create i) = create i
barrier_event (Barrier.join i) = join i
barrier_event Barrier.barrier_destroy = teardown

abbrev pub cancel_event : Cancel.Call → Event
cancel_event (Cancel.create r n) = create 0
cancel_event (Cancel.nanosleep s ns) = other
cancel_event Cancel.cancel = stop 0
cancel_event Cancel.join = join 0

-- The thread inherits the mask of the signals that is set by `block`.
abbrev pub signals_event : Signals.Call → Event
signals_event Signals.block = setup
signals_event Signals.create = create 0
signals_event Signals.join = join 0
signals_event c = other

abbrev pub tss_event : Tss.Call → Event
tss_event Tss.key_create = setup
tss_event (Tss.create i t) = create i
tss_event (Tss.join i) = join i
tss_event Tss.key_delete = teardown

abbrev pub sched_event : Sched.Call → Event
sched_event Sched.Call.attr_init = setup
sched_event (Sched.attr_setinheritsched n) = setup
sched_event (Sched.attr_setschedpolicy n) = setup
sched_event (Sched.create i arg) = create i
sched_event (Sched.set_interrupt i) = stop i
sched_event (Sched.join i) = join i
sched_event c = other

abbrev pub rules : ℕ → ℕ → Bool → Rules
rules setups kept endless = record { setups = setups; kept = kept; endless = endless }

abbrev all_over : ℕ → List ℕ → Watch
all_over kept stopped = record { ready = kept; live = []; stopped = stopped }
