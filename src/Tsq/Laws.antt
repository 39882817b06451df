-- ===== src/Tsq/Laws.antt =====
-- day1/ex_TSQ: what the consumers print.
use cpp_rt.Prelude.{
  ℕ, zero, suc, ◌+◌, ◌<◌, ◌≡◌, refl, sym, ap, ◌∙◌, true, false, none, some, ◌==◌, List, [], ◌∷◌,
  ◌++◌, ℤ, pos, arith, replicate, append_assoc, append_nil,
}
use cpp_rt.Tsq.{
  pop, is_empty, try_pop, push, minus_one, push_numbers, push_ends, producer, value, undefined,
  printing, consumer, beside, consumers, main,
}

-- i, i + 1, …, as many as `rounds`
unfoldable pub numbers : ℕ → ℕ → List ℤ
numbers zero i = []
numbers (suc rounds) i = pos i ∷ numbers rounds (i + 1)

push_numbers-numbers : (rounds i : ℕ) (q : List ℤ) → push_numbers rounds i q ≡ q ++ numbers rounds i
unfolding push_numbers push numbers
push_numbers-numbers zero i q = sym (append_nil q)
push_numbers-numbers (suc rounds) i q =
    push_numbers-numbers rounds (i + 1) (q ++ pos i ∷ [])
    ∙ append_assoc q (pos i ∷ []) (numbers rounds (i + 1))

push_ends-replicate :
    (rounds : ℕ) (q : List ℤ) → push_ends rounds q ≡ q ++ replicate rounds minus_one
unfolding push_ends push
push_ends-replicate zero q = sym (append_nil q)
push_ends-replicate (suc rounds) q =
    push_ends-replicate rounds (q ++ minus_one ∷ [])
    ∙ append_assoc q (minus_one ∷ []) (replicate rounds minus_one)

-- A consumer takes everything up to the first -1.
consumer-numbers :
    (fuel n i : ℕ) (rest : List ℤ)
    → n < fuel
    → consumer fuel (numbers n i ++ minus_one ∷ rest) ≡ value (numbers n i, rest)
unfolding consumer pop numbers
consumer-numbers zero n i rest lt = absurd (omega (arith, lt))
consumer-numbers (suc fuel) zero i rest lt = refl
consumer-numbers (suc fuel) (suc n) i rest lt =
    let not_end : ((i + 1) == 0) ≡ false = ground arith in
    rw not_end
      (ap (λ o. printing (pos i) o) (consumer-numbers fuel n (i + 1) rest (omega (arith, lt))))

consumers-replicate :
    (fuel count : ℕ)
    → 0 < fuel
    → consumers fuel count (replicate count minus_one) ≡ value (replicate count [], [])
unfolding consumers consumer pop
consumers-replicate fuel zero lt = refl
consumers-replicate zero (suc count) lt = absurd (omega (arith, lt))
consumers-replicate (suc fuel) (suc count) lt =
    ap (λ o. beside [] o) (consumers-replicate (suc fuel) count lt)

-- `main` has at least one consumer. Where the producer has ended before they begin, the first one
-- prints all the numbers in their order, each of the others prints nothing, all return, and
-- nothing is left in the queue; more fuel than numbers is enough. Where the producer has not
-- begun, the first consumer takes from an empty queue, which is undefined, since the queue does
-- not wait.
pub main-drains :
    (fuel num_iterations others : ℕ)
    → num_iterations < fuel
    → (main fuel true num_iterations (suc others)
        ≡ value (numbers num_iterations 0 ∷ replicate others [], []))
      × (main fuel false num_iterations (suc others) ≡ undefined)
unfolding main push pop consumers producer
main-drains fuel n others lt = (
  ap (λ q. consumers fuel (suc others) q)
        (push_ends-replicate (suc others) (push_numbers n 0 [])
          ∙ ap (λ q. q ++ replicate (suc others) minus_one) (push_numbers-numbers n 0 []))
      ∙ first_takes,
  nothing fuel (omega (arith, lt)),
)
  where
    first_takes :
        consumers fuel (suc others) (numbers n 0 ++ replicate (suc others) minus_one)
        ≡ value (numbers n 0 ∷ replicate others [], [])
    first_takes =
        rw (consumer-numbers fuel n 0 (replicate others minus_one) lt, consumers)
          (ap (λ o. beside (numbers n 0) o) (consumers-replicate fuel others (omega (arith, lt))))

    nothing : (f : ℕ) → 0 < f → consumers f (suc others) [] ≡ undefined
    nothing zero h = absurd (omega (arith, h))
    nothing (suc f) h = unfold consumer in refl

-- `try_pop` never takes from an empty queue, and takes what `pop` does from any other.
try_pop-pop :
    (item : ℤ) (q : List ℤ)
    → (try_pop [] ≡ some (none, [])) × (try_pop (item ∷ q) ≡ some (some item, q))
unfolding try_pop is_empty pop
try_pop-pop item q = (refl, refl)
