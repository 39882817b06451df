-- ===== src/Tsq.antt =====
-- day1/ex_TSQ: `thread_safe_queue` as it stands, without a lock, and its producer and consumers.
mod Laws
mod Tests
use cpp_rt.Prelude.{
  ℕ, zero, suc, ◌+◌, Bool, true, false, Option, none, some, List, [], ◌∷◌, ◌++◌, ℤ, pos, negsuc,
  eqb_ℤ, if◌then◌else◌,
}

-- `front` and `pop` of an empty queue are undefined: `none`.
unfoldable pub pop : List ℤ → Option (ℤ × List ℤ)
pop [] = none
pop (item ∷ q) = some (item, q)

unfoldable pub is_empty : List ℤ → Bool
is_empty [] = true
is_empty (item ∷ q) = false

-- `none` in the result for `false`.
unfoldable pub try_pop : List ℤ → Option (Option ℤ × List ℤ)
unfolding is_empty pop
try_pop q =
    if is_empty q
    then some (none, q)
    else (elim (pop q) [ none ↦ none | some (item, rest) ↦ some (some item, rest) ])

unfoldable pub push : ℤ → List ℤ → List ℤ
push item q = q ++ item ∷ []

abbrev pub minus_one : ℤ
minus_one = negsuc 0

-- The first loop of `producer`, from `i` on.
unfoldable pub push_numbers : ℕ → ℕ → List ℤ → List ℤ
unfolding push
push_numbers zero i q = q
push_numbers (suc rounds) i q = push_numbers rounds (i + 1) (push (pos i) q)

unfoldable pub push_ends : ℕ → List ℤ → List ℤ
unfolding push
push_ends zero q = q
push_ends (suc rounds) q = push_ends rounds (push minus_one q)

unfoldable pub producer : ℕ → ℕ → List ℤ → List ℤ
unfolding push_numbers push_ends
producer num_iterations num_consumers q = push_ends num_consumers (push_numbers num_iterations 0 q)

-- How a run ends; `unfinished` is one that the fuel does not reach the end of.
pub data Outcome (A : Type 0) : Type 0 where
  value : A → Outcome A
  undefined : Outcome A
  unfinished : Outcome A

abbrev pub printing : ℤ → Outcome (List ℤ × List ℤ) → Outcome (List ℤ × List ℤ)
printing v (value (printed, q)) = value (v ∷ printed, q)
printing v undefined = undefined
printing v unfinished = unfinished

-- What a consumer prints, and the queue that it leaves.
unfoldable pub consumer : ℕ → List ℤ → Outcome (List ℤ × List ℤ)
unfolding pop
consumer zero q = unfinished
consumer (suc fuel) q = elim (pop q) [
  | none ↦ undefined
  | some (v, rest) ↦
      let others = consumer fuel rest in
      if eqb_ℤ v minus_one then value ([], rest) else printing v others
]

abbrev pub beside : List ℤ → Outcome (List (List ℤ) × List ℤ) → Outcome (List (List ℤ) × List ℤ)
beside printed (value (others, q)) = value (printed ∷ others, q)
beside printed undefined = undefined
beside printed unfinished = unfinished

-- The last loop of `main`: what each of its consumers prints.
unfoldable pub consumers : ℕ → ℕ → List ℤ → Outcome (List (List ℤ) × List ℤ)
unfolding consumer
consumers fuel zero q = value ([], q)
consumers fuel (suc count) q = elim (consumer fuel q) [
  | value (printed, rest) ↦ beside printed (consumers fuel count rest)
  | undefined ↦ undefined
  | unfinished ↦ unfinished
]

-- `main`, where the producer's thread has ended before the first consumer, or has not begun.
unfoldable pub main : ℕ → Bool → ℕ → ℕ → Outcome (List (List ℤ) × List ℤ)
unfolding push pop producer consumers
main fuel has_produced num_iterations num_consumers = elim (pop (push (pos 10) [])) [
  | none ↦ undefined
  | some (i, q) ↦
      consumers fuel num_consumers
        (if has_produced then producer num_iterations num_consumers q else q)
]
