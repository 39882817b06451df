-- ===== src/Accumulate.antt =====
-- day1/ex_accumulate/multithread_sum.cpp: the sum of a table of `long`, by one thread and by four.
-- A pointer is an index into the table. An element stands as its bit pattern, a number below
-- 2 ^ 64: `sum += *begin` converts it to `unsigned long` and wraps.
pub mod Laws
mod Tests
use cpp_rt.Prelude.{
  ℕ, zero, suc, ◌+◌, ◌-◌, ◌*◌, ◌/◌, ◌%◌, ◌^◌, List, [], ◌∷◌, get_or, ltb, if◌then◌else◌, put_at,
}

abbrev pub wrap : ℕ → ℕ
wrap n = n % 2 ^ 64

-- `*p`
abbrev pub at : List ℕ → ℕ → ℕ
at table p = get_or table p 0

-- The loop of `one_thread_sum`, with the number of elements left to read.
unfoldable pub sum_loop : ℕ → List ℕ → ℕ → ℕ → ℕ
sum_loop zero table begin sum = sum
sum_loop (suc n) table begin sum = sum_loop n table (begin + 1) (wrap (sum + at table begin))

unfoldable pub one_thread_sum : List ℕ → ℕ → ℕ → ℕ
unfolding sum_loop
one_thread_sum table begin end = sum_loop (end - begin) table begin 0

-- `range_t`
pub record Range : Type 0 where
  pub start : ℕ
  pub end : ℕ
  pub partial_sum : ℕ

-- One round of the loop in the thread function `partial_sum`; a thread whose loop has ended has
-- returned.
unfoldable pub partial_sum_round : List ℕ → Range → Range
partial_sum_round table r =
    if ltb r.start r.end
    then record r { start = r.start + 1; partial_sum = wrap (r.partial_sum + at table r.start) }
    else r

-- The first two loops of `multithread_sum`: `ranges[i]`, with the block size computed before.
unfoldable pub ranges : ℕ → ℕ → ℕ → Range
ranges begin end i =
    let block_size = (end - begin) / 4 in
    if ltb i 3
    then record {
      start = begin + i * block_size;
      end = begin + i * block_size + block_size;
      partial_sum = 0;
    }
    else record { start = begin + 3 * block_size; end = end; partial_sum = 0 }

-- The threads, a round of one of them at a time, in the order of a schedule.
unfoldable pub run : List ℕ → List ℕ → (ℕ → Range) → ℕ → Range
unfolding partial_sum_round
run table [] rs = rs
run table (i ∷ schedule) rs = run table schedule (put_at i (partial_sum_round table (rs i)) rs)

-- The last loop of `multithread_sum`, after the joins.
unfoldable pub join_sums : (ℕ → Range) → ℕ
join_sums rs = wrap (
    wrap (wrap (wrap (0 + (rs 0).partial_sum) + (rs 1).partial_sum) + (rs 2).partial_sum)
    + (rs 3).partial_sum)
