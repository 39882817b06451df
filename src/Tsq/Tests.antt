-- ===== src/Tsq/Tests.antt =====
-- day1/ex_TSQ with three numbers and two consumers.
use cpp_rt.Prelude.{◌≡◌, true, false, [], ◌∷◌, arith, replicate}
use cpp_rt.Tsq.{value, undefined, main}
use cpp_rt.Tsq.Laws.{numbers, main-drains}

main-drains_example :
    (main 4 true 3 2 ≡ value (numbers 3 0 ∷ replicate 1 [], [])) × (main 4 false 3 2 ≡ undefined)
main-drains_example = main-drains 4 3 1 (omega arith)
