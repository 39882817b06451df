-- ===== src/Histogram/Threads.antt =====
-- `main_threaded` of day1/ex_histogram/modify_image.cpp: two threads count two blocks of rows, and
-- `main` adds their histograms up.
use cpp_rt.Prelude.{
  ℕ, zero, suc, ◌+◌, ◌/◌, ◌≡◌, Option, none, some, List, [], ◌∷◌, arith, get_elem?, get_or, set,
  replicate, length-replicate, get_or-replicate,
}
use cpp_rt.Histogram.{◌>>=◌, u32, make_histogram_th}
use cpp_rt.Histogram.Laws.{IsHistogram}

-- `thread_data`, without the thread's handle.
pub record ThreadData : Type 0 where
  pub image : List ℕ
  pub width : ℕ
  pub from_y : ℕ
  pub to_y : ℕ
  pub histogram : List ℕ

unfoldable pub no_counts : List ℕ
no_counts = replicate 256 0

abbrev pub hardware_concurrency : ℕ
hardware_concurrency = 2

-- The loop that fills `parameters`, with `n` threads to go.
unfoldable pub blocks : ℕ → List ℕ → ℕ → ℕ → ℕ → List ThreadData
blocks zero image width block_size start = []
blocks (suc n) image width block_size start =
    record {
      image = image;
      width = width;
      from_y = start;
      to_y = start + block_size;
      histogram = no_counts;
    }
    ∷ blocks n image width block_size (start + block_size)

-- `parameters[i].to_y = height`, after the loop, where `i` is `hardware_concurrency`.
unfoldable pub partition : List ℕ → ℕ → ℕ → Option (List ThreadData)
unfolding blocks
partition image width height =
    let parameters = blocks hardware_concurrency image width (height / hardware_concurrency) 0 in
    get_elem? parameters hardware_concurrency >>= λ p.
    some (set parameters hardware_concurrency (record p { to_y = height }))

-- The thread function counts into its `thread_data`. It has to return a pointer and has no
-- `return`: its end is undefined.
unfoldable pub make_histogram_threaded : ThreadData → Option ThreadData
make_histogram_threaded p =
    make_histogram_th p.image p.width p.from_y p.to_y p.histogram >>= λ h. none

-- The loop `final_histograms[idx] += parameters[i].histogram[idx]`, with `n` rounds to go.
unfoldable pub merge_loop : ℕ → ℕ → List ℕ → List ℕ → Option (List ℕ)
merge_loop zero idx final histogram = some final
merge_loop (suc n) idx final histogram = get_elem? final idx >>= λ a.
    get_elem? histogram idx >>= λ b. merge_loop n (idx + 1) (set final idx (u32 (a + b))) histogram

-- `idx` runs from 0 to 256 inclusive.
unfoldable pub merge : List ℕ → List ℕ → Option (List ℕ)
unfolding merge_loop
merge final histogram = merge_loop 257 0 final histogram

-- The second and the third loop: each thread counts its block and is joined, and its histogram is
-- added up.
unfoldable pub join_all : List ThreadData → List ℕ → Option (List ℕ)
unfolding make_histogram_threaded merge
join_all [] final = some final
join_all (p ∷ parameters) final =
    make_histogram_threaded p >>= λ q. merge final q.histogram >>= join_all parameters

no_counts-entry : (v : ℕ) → get_or no_counts v 0 ≡ 0
unfolding no_counts
no_counts-entry v = get_or-replicate 256 v 0

pub no_counts-IsHistogram : IsHistogram no_counts
unfolding no_counts
no_counts-IsHistogram = record {
  size = length-replicate {0} {A = ℕ} 256 0;
  words = λ v l. omega (arith, no_counts-entry v);
}
