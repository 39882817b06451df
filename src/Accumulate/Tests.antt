-- ===== src/Accumulate/Tests.antt =====
-- day1/ex_accumulate/multithread_sum.cpp on a small table.
use cpp_rt.Prelude.{ℕ, ◌-◌, ◌≤◌, ◌<◌, ◌≡◌, refl, List, [], ◌∷◌, arith}
use cpp_rt.Accumulate.{one_thread_sum, wrap, ranges, run, join_sums}
use cpp_rt.Accumulate.Laws.{AllJoined, multithread_sum-total, total, turns}

-- The second element is -1.
abbrev table : List ℕ
table = 5 ∷ 0xffff_ffff_ffff_ffff ∷ 7 ∷ 1 ∷ 2 ∷ 3 ∷ []

sums : one_thread_sum table 0 6 ≡ 17
unfolding one_thread_sum
sums = refl

abbrev schedule : List ℕ
schedule = 3 ∷ 0 ∷ 3 ∷ 2 ∷ 1 ∷ 0 ∷ 3 ∷ []

enough : (i : ℕ) → i < 4 → (ranges 0 6 i).end - (ranges 0 6 i).start ≤ turns i schedule
unfolding ranges
enough i h = ground arith

multithread_sum-total_example :
    AllJoined (run table schedule (ranges 0 6))
    × (join_sums (run table schedule (ranges 0 6)) ≡ one_thread_sum table 0 6)
    × (one_thread_sum table 0 6 ≡ wrap (total table 0 6))
multithread_sum-total_example = multithread_sum-total table schedule 0 6 (omega arith) enough
