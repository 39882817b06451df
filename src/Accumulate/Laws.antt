-- ===== src/Accumulate/Laws.antt =====
-- The four threads of day1/ex_accumulate/multithread_sum.cpp compute what the one thread computes.
use cpp_rt.Prelude.{
  ℕ, zero, suc, ◌+◌, ◌-◌, ◌/◌, ◌^◌, ◌≤◌, ◌<◌, ◌≡◌, refl, List, [], ◌∷◌, put_at, arith, ◌∙◌, sym, ap,
  ◌==◌, if◌then◌else◌,
}
use cpp_rt.Accumulate.{
  wrap, at, sum_loop, one_thread_sum, Range, partial_sum_round, ranges, run, join_sums,
}

-- The sum of `n` elements from `begin` on, without wrapping.
unfoldable pub total : List ℕ → ℕ → ℕ → ℕ
total table begin zero = 0
total table begin (suc n) = at table begin + total table (begin + 1) n

sum_loop-total :
    (n : ℕ) (table : List ℕ) (begin sum : ℕ)
    → wrap (sum_loop n table begin sum) ≡ wrap (sum + total table begin n)
unfolding sum_loop total
sum_loop-total zero table begin sum = omega arith
sum_loop-total (suc n) table begin sum =
    omega (arith, sum_loop-total n table (begin + 1) (wrap (sum + at table begin)))

sum_loop-wraps :
    (n : ℕ) (table : List ℕ) (begin sum : ℕ) → sum < 2 ^ 64 → sum_loop n table begin sum < 2 ^ 64
unfolding sum_loop
sum_loop-wraps zero table begin sum h = h
sum_loop-wraps (suc n) table begin sum h = sum_loop-wraps n table (begin + 1) _ (omega arith)

pub one_thread_sum-total :
    (table : List ℕ) (begin end : ℕ)
    → one_thread_sum table begin end ≡ wrap (total table begin (end - begin))
unfolding one_thread_sum
one_thread_sum-total table begin end = omega (
  arith,
  sum_loop-total (end - begin) table begin 0,
  sum_loop-wraps (end - begin) table begin 0 (omega arith),
)

total-step :
    (table : List ℕ) (begin n : ℕ)
    → 0 < n
    → total table begin n ≡ at table begin + total table (begin + 1) (n - 1)
unfolding total
total-step table begin zero h = absurd (omega arith)
total-step table begin (suc n) h = ground arith

total-split :
    (table : List ℕ) (begin m n : ℕ)
    → total table begin (m + n) ≡ total table begin m + total table (begin + m) n
unfolding total
total-split table begin zero n = ground arith
total-split table begin (suc m) n =
    ground (arith, total-step table begin (suc m + n), total-split table (begin + 1) m n)

-- What a range has summed up and has still to sum.
abbrev due : List ℕ → Range → ℕ
due table r = wrap (r.partial_sum + total table r.start (r.end - r.start))

round-due : (table : List ℕ) (r : Range) → due table (partial_sum_round table r) ≡ due table r
unfolding partial_sum_round
round-due table r = ground (arith, total-step table r.start (r.end - r.start))

run-due :
    (table schedule : List ℕ) (rs : ℕ → Range) (i : ℕ)
    → due table (run table schedule rs i) ≡ due table (rs i)
unfolding run
run-due table [] rs i = refl
run-due table (j ∷ schedule) rs i =
    run-due table schedule (put_at j (partial_sum_round table (rs j)) rs) i
    ∙ ground (arith, round-due table (rs j))

run-end :
    (table schedule : List ℕ) (rs : ℕ → Range) (i : ℕ) → (run table schedule rs i).end ≡ (rs i).end
unfolding run
run-end table [] rs i = refl
run-end table (j ∷ schedule) rs i =
    run-end table schedule (put_at j (partial_sum_round table (rs j)) rs) i ∙ ground arith

-- Every thread's loop has ended.
abbrev pub AllJoined : (ℕ → Range) → Type 0
AllJoined rs = (i : ℕ) → i < 4 → (rs i).end ≤ (rs i).start

total-empty : (table : List ℕ) (begin n : ℕ) → n ≡ 0 → total table begin n ≡ 0
unfolding total
total-empty table begin n e = rw e

due-joined : (table : List ℕ) (r : Range) → r.end ≤ r.start → due table r ≡ wrap r.partial_sum
due-joined table r h = omega (arith, total-empty table r.start (r.end - r.start))

part :
    (table schedule : List ℕ) (rs : ℕ → Range) (i : ℕ)
    → (run table schedule rs i).end ≤ (run table schedule rs i).start
    → wrap (run table schedule rs i).partial_sum ≡ due table (rs i)
part table schedule rs i h =
    sym (due-joined table (run table schedule rs i) h) ∙ run-due table schedule rs i

range-total :
    (table : List ℕ) (r : Range) (b n : ℕ)
    → r.partial_sum ≡ 0
    → r.start ≡ b
    → r.end - r.start ≡ n
    → due table r ≡ wrap (total table b n)
range-total table r b n p s e = ground arith

-- The four blocks, one after the other, are the whole range.
blocks-total :
    (table : List ℕ) (begin q m : ℕ)
    → total table begin (q + (q + (q + m)))
      ≡ total table begin q
        + total table (begin + q) q
        + total table (begin + q + q) q
        + total table (begin + q + q + q) m
blocks-total table begin q m = omega (
  arith,
  total-split table begin q (q + (q + m)),
  total-split table (begin + q) q (q + m),
  total-split table (begin + q + q) q m,
)

abbrev quarter : ℕ → ℕ → ℕ
quarter begin end = (end - begin) / 4

ranges-due :
    (table : List ℕ) (begin end : ℕ)
    → begin ≤ end
    → let q = quarter begin end in
      (due table (ranges begin end 0) ≡ wrap (total table begin q))
      × (due table (ranges begin end 1) ≡ wrap (total table (begin + q) q))
      × (due table (ranges begin end 2) ≡ wrap (total table (begin + q + q) q))
      × (due table (ranges begin end 3)
          ≡ wrap (total table (begin + q + q + q) (end - (begin + q + q + q))))
unfolding ranges
ranges-due table begin end le =
    let q = quarter begin end in
    (
      range-total table (ranges begin end 0) begin q refl (omega arith) (omega arith),
      range-total table (ranges begin end 1) (begin + q) q refl (omega arith) (omega arith),
      range-total table (ranges begin end 2) (begin + q + q) q refl (omega arith) (omega arith),
      range-total table (ranges begin end 3) (begin + q + q + q) _ refl (omega arith) (omega arith),
    )

-- However the four threads are interleaved: once they have been joined, `multithread_sum` has the
-- sum that `one_thread_sum` has, modulo 2 ^ 64, for every table and every range of it.
pub multithread_sum-one_thread_sum :
    (table schedule : List ℕ) (begin end : ℕ)
    → begin ≤ end
    → AllJoined (run table schedule (ranges begin end))
    → join_sums (run table schedule (ranges begin end)) ≡ one_thread_sum table begin end
unfolding join_sums
multithread_sum-one_thread_sum table schedule begin end le done = omega (
  arith,
  one_thread_sum-total table begin end,
  blocks-total table begin q m,
  ap (total table begin) whole,
  part table schedule (ranges begin end) 0 (done 0 (omega arith)),
  part table schedule (ranges begin end) 1 (done 1 (omega arith)),
  part table schedule (ranges begin end) 2 (done 2 (omega arith)),
  part table schedule (ranges begin end) 3 (done 3 (omega arith)),
  ranges-due table begin end le,
)
  where
    q : ℕ
    q = quarter begin end

    m : ℕ
    m = end - (begin + q + q + q)

    whole : end - begin ≡ q + (q + (q + m))
    whole = omega arith

-- How often a thread has its turn in a schedule.
abbrev pub turns : ℕ → List ℕ → ℕ
turns i [] = 0
turns i (j ∷ schedule) = (if j == i then 1 else 0) + turns i schedule

run-progress :
    (table schedule : List ℕ) (rs : ℕ → Range) (i : ℕ)
    → (rs i).end - (rs i).start ≤ turns i schedule
    → (run table schedule rs i).end ≤ (run table schedule rs i).start
unfolding run
run-progress table [] rs i h = omega arith
run-progress table (j ∷ schedule) rs i h =
    run-progress table schedule (put_at j (partial_sum_round table (rs j)) rs) i
      (unfold partial_sum_round in ground arith)

-- The joins return: once each thread has had as many turns as its block has elements, all loops
-- have ended, whatever the order of the turns.
pub run-AllJoined :
    (table schedule : List ℕ) (begin end : ℕ)
    → ((i : ℕ) → i < 4 → (ranges begin end i).end - (ranges begin end i).start ≤ turns i schedule)
    → AllJoined (run table schedule (ranges begin end))
run-AllJoined table schedule begin end h i lt =
    run-progress table schedule (ranges begin end) i (h i lt)

-- `multithread_sum` returns, and has the sum that `one_thread_sum` has, for every table and every
-- range of it: the sum of its elements modulo 2 ^ 64. Whatever the order in which the four threads
-- take turns, once each has had as many as its block has elements, all of them have ended, so that
-- the joins return, and the sums that are added up behind them are that one.
pub multithread_sum-total :
    (table schedule : List ℕ) (begin end : ℕ)
    → begin ≤ end
    → ((i : ℕ) → i < 4 → (ranges begin end i).end - (ranges begin end i).start ≤ turns i schedule)
    → AllJoined (run table schedule (ranges begin end))
      × (join_sums (run table schedule (ranges begin end)) ≡ one_thread_sum table begin end)
      × (one_thread_sum table begin end ≡ wrap (total table begin (end - begin)))
multithread_sum-total table schedule begin end le h =
    let joined = run-AllJoined table schedule begin end h in
    (
      joined,
      multithread_sum-one_thread_sum table schedule begin end le joined,
      one_thread_sum-total table begin end,
    )
