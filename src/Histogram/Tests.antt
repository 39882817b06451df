-- ===== src/Histogram/Tests.antt =====
-- day1/ex_histogram/modify_image.cpp on an image of two columns and two rows.
use cpp_rt.Prelude.{ℕ, ◌-◌, ◌≡◌, refl, some, List, [], ◌∷◌, get_or, arith}
use cpp_rt.Histogram.{◌>>=◌, make_histogram, make_histogram_th}
use cpp_rt.Histogram.Laws.{IsImage, Counts, pixels, make_histogram-Counted}
use cpp_rt.Histogram.Threads.{no_counts, no_counts-IsHistogram}

-- Black and white, then two grey pixels of brightness 20.
abbrev image : List ℕ
image = 0 ∷ 0 ∷ 0 ∷ 255 ∷ 255 ∷ 255 ∷ 10 ∷ 20 ∷ 30 ∷ 20 ∷ 20 ∷ 21 ∷ []

image-IsImage : IsImage image 2 2
image-IsImage = record { fits = omega arith; small = omega arith }

grey : (make_histogram image 2 2 no_counts >>= λ h. some (get_or h 20 0)) ≡ some 2
unfolding make_histogram no_counts
grey = refl

make_histogram-Counted_example :
    Counts (make_histogram image 2 2 no_counts) no_counts (pixels 2 2 image 2 0 0)
    × Counts (make_histogram_th image 2 1 2 no_counts) no_counts (pixels 2 (2 - 1) image 2 1 0)
make_histogram-Counted_example =
    make_histogram-Counted image-IsImage 1 2 no_counts (omega arith) (omega arith)
      no_counts-IsHistogram

-- Bars of the length of their count.
abbrev rounded : ℕ → ℕ → ℕ → ℕ
rounded height count max = count
