-- ===== src/Counter/Tests.antt =====
-- Two threads that count up once each.
use cpp_rt.Prelude.{ℕ, zero, suc, ◌+◌, ◌*◌, ◌<◌, ◌≤◌, ◌≡◌, refl, ◌⊎◌, some, none, true, arith}
use cpp_rt.Counter.{
  Shared, looping, reading, writing, unlocking, move, System, Step, act, Reach, here, later, is_ok,
}
use cpp_rt.Counter.Laws.{finished-is_ok, counter_bounded, counting_goes_on}

abbrev mem : ℕ → Shared
mem c = record { counter = c; holder = none }

abbrev held : ℕ → ℕ → Shared
held c i = record { counter = c; holder = some i }

locks : (i c : ℕ) → move i (mem c) (looping 1) ≡ some (held c i, reading 0)
unfolding move
locks i c = refl

reads : (i c : ℕ) → move i (held c i) (reading 0) ≡ some (held c i, writing 0 c)
unfolding move
reads i c = refl

writes : (i c : ℕ) → move i (held c i) (writing 0 c) ≡ some (held (c + 1) i, unlocking 0)
unfolding move
writes i c = refl

unlocks : (i c : ℕ) → move i (held c i) (unlocking 0) ≡ some (mem c, looping 0)
unfolding move
unlocks i c = refl

abbrev reads_first : (s : System) × Reach 2 1 s
reads_first = (
  _,
  later (later here (act 0 _ _ (omega arith) (locks 0 0))) (act 0 _ _ (omega arith) (reads 0 0)),
)

abbrev first_ends : (s : System) × Reach 2 1 s
first_ends = (
  _,
  later (later reads_first.1 (act 0 _ _ (omega arith) (writes 0 0)))
      (act 0 _ _ (omega arith) (unlocks 0 1)),
)

abbrev both_end : (s : System) × Reach 2 1 s
both_end = (
  _,
  later
      (later
        (later (later first_ends.1 (act 1 _ _ (omega arith) (locks 1 1)))
          (act 1 _ _ (omega arith) (reads 1 1)))
        (act 1 _ _ (omega arith) (writes 1 1)))
      (act 1 _ _ (omega arith) (unlocks 1 2)),
)

all_ended : (i : ℕ) → i < 2 → both_end.0.pc i ≡ looping 0
all_ended zero lt = refl
all_ended (suc zero) lt = refl
all_ended (suc (suc i)) lt = absurd (omega arith)

finished-is_ok_example : (both_end.0.mem.counter ≡ 2 * 1) × (is_ok 2 1 both_end.0 ≡ true)
finished-is_ok_example = finished-is_ok both_end.1 all_ended

counter_bounded_example : (0 ≡ reads_first.0.mem.counter) × (0 + 1 ≤ 2 * 1)
counter_bounded_example = counter_bounded 0 0 0 reads_first.1 (omega arith) refl

two_of_two_go_on :
    ((i : ℕ) → i < 2 → reads_first.0.pc i ≡ looping 0) ⊎ ((t : System) × Step 2 reads_first.0 t)
two_of_two_go_on = counting_goes_on reads_first.1
