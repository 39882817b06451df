-- ===== src/Histogram/Draw.antt =====
-- `draw_histogram`, `main_seq` and `main_threaded` of day1/ex_histogram/modify_image.cpp, from the
-- image that `ReadPPM` has read to the one that `WritePPM` is given.
use cpp_rt.Prelude.{
  ℕ, zero, suc, ◌+◌, ◌-◌, ◌*◌, ◌^◌, ◌≤◌, ◌<◌, ◌≡◌, Option, none, some, Option-cases, inl, inr, List,
  [], ◌∷◌, arith, length, get_elem?, get_elem?-get_or, get_elem?-beyond, get_or, set, ltb,
  if◌then◌else◌, dec_lt,
}
use cpp_rt.Histogram.{◌>>=◌, u32, make_histogram}
use cpp_rt.Histogram.Threads.{no_counts, partition, join_all}

-- `image[offset] = 255`, which is undefined outside the image.
unfoldable pub whiten : List ℕ → ℕ → Option (List ℕ)
whiten image offset = if ltb offset (length image) then some (set image offset 255) else none

-- The inner loop, from row `start` on, with `n` rounds to go.
unfoldable pub bar_loop : ℕ → ℕ → ℕ → ℕ → List ℕ → Option (List ℕ)
unfolding whiten
bar_loop zero start width idx image = some image
bar_loop (suc n) start width idx image =
    whiten image (u32 ((start * width + idx) * 3)) >>= λ image1.
    whiten image1 (u32 ((start * width + idx) * 3 + 1)) >>= λ image2.
    whiten image2 (u32 ((start * width + idx) * 3 + 2)) >>= bar_loop n (start + 1) width idx

abbrev pub max_element : List ℕ → ℕ
max_element [] = 0
max_element (x ∷ xs) = let m = max_element xs in if ltb x m then m else x

-- `height - value` in `u_int`
abbrev pub bar_start : ℕ → ℕ → ℕ
bar_start height value = u32 (height + 2 ^ 32 - u32 value)

-- A bar goes down to row `height` inclusive.
unfoldable pub draw_bar : ℕ → ℕ → ℕ → ℕ → List ℕ → Option (List ℕ)
unfolding bar_loop
draw_bar width height idx value image =
    let start = bar_start height value in bar_loop (height + 1 - start) start width idx image

-- The length of a bar, `(height / 2.0f) * float(count) / float(max)`, is computed in floating-point
-- numbers and cut to a `u_int`.
module _ (bar_length : ℕ → ℕ → ℕ → ℕ) where
  -- The outer loop, with `n` rounds to go.
  unfoldable pub draw_loop : ℕ → ℕ → ℕ → ℕ → ℕ → List ℕ → List ℕ → Option (List ℕ)
  unfolding draw_bar
  draw_loop zero idx width height max histogram image = some image
  draw_loop (suc n) idx width height max histogram image = get_elem? histogram idx >>= λ count.
      draw_bar width height idx (bar_length height count max) image
      >>= draw_loop n (idx + 1) width height max histogram

  -- `idx` runs from 0 to 256 inclusive.
  unfoldable pub draw_histogram : List ℕ → ℕ → ℕ → List ℕ → Option (List ℕ)
  unfolding draw_loop
  draw_histogram image width height histogram =
      draw_loop 257 0 width height (max_element histogram) histogram image

  unfoldable pub main_seq : List ℕ → ℕ → ℕ → Option (List ℕ)
  unfolding draw_histogram
  main_seq image width height =
      make_histogram image width height no_counts >>= draw_histogram image width height

  unfoldable pub main_threaded : List ℕ → ℕ → ℕ → Option (List ℕ)
  unfolding draw_histogram
  main_threaded image width height = partition image width height >>= λ parameters.
      join_all parameters no_counts >>= draw_histogram image width height

  pub draw_loop-none :
      (n idx width height max : ℕ) (histogram image : List ℕ)
      → length histogram ≡ 256
      → idx ≤ 256
      → 256 < idx + n
      → draw_loop n idx width height max histogram image ≡ none
  unfolding draw_loop
  draw_loop-none zero idx width height max histogram image e le lt = absurd (omega (arith, le, lt))
  draw_loop-none (suc n) idx width height max histogram image e le lt = elim (dec_lt idx 256) [
    | no p ↦ simp (get_elem?-beyond histogram idx (omega (arith, e)))
    | yes p ↦
        let value = bar_length height (get_or histogram idx 0) max in
        elim (Option-cases (draw_bar width height idx value image)) [
          | inl q ↦ simp (get_elem?-get_or histogram idx 0 (omega (arith, e)), q)
          | inr (drawn, q) ↦ simp (
            get_elem?-get_or histogram idx 0 (omega (arith, e)),
            q,
            draw_loop-none n (idx + 1) width height max histogram drawn e (omega arith)
                (omega arith),
          )
        ]
  ]
