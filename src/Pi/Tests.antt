-- ===== src/Pi/Tests.antt =====
-- day2/ex_pi with a generator that counts up and a circle of radius 2: two threads with a dart
-- each.
use cpp_rt.Prelude.{ℕ, ◌+◌, ◌*◌, ◌≡◌, refl, Bool, ltb}
use cpp_rt.Pi.{darts, darts_loop}

abbrev draw : ℕ → ℕ × ℕ
draw n = (n, n + 1)

abbrev in_circle : ℕ → ℕ → Bool
in_circle x y = ltb (x * x + y * y) 5

one_dart : darts ℕ draw in_circle 1 0 ≡ (1, 2)
unfolding darts darts_loop
one_dart = refl
