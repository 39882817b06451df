-- ===== src/Histogram.antt =====
-- day1/ex_histogram/modify_image.cpp: the histogram of an image's brightness, by one thread and by
-- two. A `u_char*` or a `std::vector` is a list; `none` is an access outside it, which is undefined
-- behaviour. `u_int` wraps at 2 ^ 32.
pub mod Laws
pub mod Threads
mod Draw
mod Overflow
mod Tests
use cpp_rt.Prelude.{
  ℕ, zero, suc, ◌+◌, ◌-◌, ◌*◌, ◌/◌, ◌%◌, ◌^◌, ◌≡◌, Option, none, some, List, [], ◌∷◌, get_elem?,
  set, replicate,
}

infixl 5 ◌>>=◌
abbrev pub ◌>>=◌ {ℓ κ} : {A : Type ℓ} {B : Type κ} → Option A → (A → Option B) → Option B
none >>= f = none
some a >>= f = f a

abbrev pub u32 : ℕ → ℕ
u32 n = n % 2 ^ 32

-- `u_char value`, of the pixel at column `x` and row `y`
unfoldable pub value_at : List ℕ → ℕ → ℕ → ℕ → Option ℕ
value_at image width x y = do
  let offset = u32 ((x + y * width) * 3)
  r ← get_elem? image offset
  g ← get_elem? image (u32 (offset + 1))
  b ← get_elem? image (u32 (offset + 2))
  some ((r + g + b) / 3 % 256)

-- `histogram[value]++`
unfoldable pub bump : List ℕ → ℕ → Option (List ℕ)
bump histogram value = do c ← get_elem? histogram value; some (set histogram value (u32 (c + 1)))

-- The inner loop, with `n` rows to go.
unfoldable pub row_loop : ℕ → List ℕ → ℕ → ℕ → ℕ → List ℕ → Option (List ℕ)
unfolding value_at bump
row_loop zero image width x y histogram = some histogram
row_loop (suc n) image width x y histogram =
    value_at image width x y >>= λ value. bump histogram value >>= row_loop n image width x (y + 1)

-- The outer loop, with `n` columns to go, over the rows from `from_y` to `to_y`.
unfoldable pub column_loop : ℕ → List ℕ → ℕ → ℕ → ℕ → ℕ → List ℕ → Option (List ℕ)
unfolding row_loop
column_loop zero image width from_y to_y x histogram = some histogram
column_loop (suc n) image width from_y to_y x histogram =
    row_loop (to_y - from_y) image width x from_y histogram
    >>= column_loop n image width from_y to_y (x + 1)

unfoldable pub make_histogram : List ℕ → ℕ → ℕ → List ℕ → Option (List ℕ)
unfolding column_loop
make_histogram image width height histogram = column_loop width image width 0 height 0 histogram

unfoldable pub make_histogram_th : List ℕ → ℕ → ℕ → ℕ → List ℕ → Option (List ℕ)
unfolding column_loop
make_histogram_th image width from_y to_y histogram =
    column_loop width image width from_y to_y 0 histogram
