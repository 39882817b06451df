-- ===== src/Histogram/Laws.antt =====
-- What the loops of day1/ex_histogram/modify_image.cpp count.
use cpp_rt.Prelude.{
  ℕ, zero, suc, ◌+◌, ◌-◌, ◌*◌, ◌/◌, ◌%◌, ◌^◌, ◌≤◌, ◌<◌, ◌≡◌, refl, Option, some, List, arith, ap,
  ◌∙◌, ◌==◌, if◌then◌else◌, get_elem?, get_or, set, length, get_elem?-get_or, get_or-set,
  length-set,
}
use cpp_rt.Histogram.{u32, value_at, bump, row_loop, column_loop, make_histogram, make_histogram_th}

-- The image has its `3 * width * height` bytes, and offsets fit `u_int`.
pub record IsImage (image : List ℕ) (width height : ℕ) : Type 0 where
  pub fits : 3 * (height * width) ≤ length image
  pub small : 3 * (height * width) < 2 ^ 32

-- The brightness of a pixel.
unfoldable pub brightness : List ℕ → ℕ → ℕ → ℕ → ℕ
brightness image width x y =
    let at = λ (k : ℕ). get_or image ((y * width + x) * 3 + k) 0 in (at 0 + at 1 + at 2) / 3 % 256

-- How many pixels of brightness `v` there are in rows `y` to `y + n` of column `x`.
unfoldable pub pixels_in_column : ℕ → List ℕ → ℕ → ℕ → ℕ → ℕ → ℕ
pixels_in_column zero image width x y v = 0
pixels_in_column (suc n) image width x y v =
    (if brightness image width x y == v then 1 else 0) + pixels_in_column n image width x (y + 1) v

-- How many there are in those rows of the `n` columns from `x` on.
unfoldable pub pixels : ℕ → ℕ → List ℕ → ℕ → ℕ → ℕ → ℕ → ℕ
pixels zero rows image width y x v = 0
pixels (suc n) rows image width y x v =
    pixels_in_column rows image width x y v + pixels n rows image width y (x + 1) v

-- `std::vector<u_int>(256)`
pub record IsHistogram (histogram : List ℕ) : Type 0 where
  pub size : length histogram ≡ 256
  pub words : (v : ℕ) → v < 256 → get_or histogram v 0 < 2 ^ 32

-- A histogram to which the counts have been added, modulo 2 ^ 32.
pub record Counted (histogram : List ℕ) (counts : ℕ → ℕ) (result : List ℕ) : Type 0 where
  pub result_IsHistogram : IsHistogram result
  pub entries : (v : ℕ) → v < 256 → get_or result v 0 ≡ u32 (get_or histogram v 0 + counts v)

pixel_in_range : (x y w h : ℕ) → x < w → y < h → 3 * (y * w + x) + 2 < 3 * (h * w)
pixel_in_range x y w h p q = let row : suc y * w ≤ h * w = grind arith in omega (arith, row)

module _ {image : List ℕ} {width height : ℕ} (im : IsImage image width height) where
  -- One of the three bytes of a pixel.
  byte :
      (x y k : ℕ)
      → x < width
      → y < height
      → k < 3
      → get_elem? image (u32 (u32 ((x + y * width) * 3) + k))
        ≡ some (get_or image ((y * width + x) * 3 + k) 0)
  byte x y k p q lt =
      let range = pixel_in_range x y width height p q in
      let place : u32 (u32 ((x + y * width) * 3) + k) ≡ (y * width + x) * 3 + k =
        omega (arith, range, im.small) in
      rw place (get_elem?-get_or image ((y * width + x) * 3 + k) 0 (omega (arith, range, im.fits)))

  value_at-brightness :
      (x y : ℕ)
      → x < width
      → y < height
      → value_at image width x y ≡ some (brightness image width x y)
  unfolding value_at brightness
  value_at-brightness x y p q =
      let same : u32 ((x + y * width) * 3) ≡ u32 (u32 ((x + y * width) * 3) + 0) = omega arith in
      let first : get_elem? image (u32 ((x + y * width) * 3))
          ≡ some (get_or image ((y * width + x) * 3 + 0) 0) =
        ap (get_elem? image) same ∙ byte x y 0 p q (omega arith) in
      simp (first, byte x y 1 p q (omega arith), byte x y 2 p q (omega arith))

bump-set :
    (histogram : List ℕ) (value : ℕ)
    → IsHistogram histogram
    → value < 256
    → bump histogram value ≡ some (set histogram value (u32 (get_or histogram value 0 + 1)))
unfolding bump
bump-set histogram value e lt = rw (get_elem?-get_or histogram value 0 (omega (arith, e.size)))

bump-entries :
    (histogram : List ℕ) (value w : ℕ)
    → IsHistogram histogram
    → value < 256
    → get_or (set histogram value (u32 (get_or histogram value 0 + 1))) w 0
      ≡ (if value == w then u32 (get_or histogram value 0 + 1) else get_or histogram w 0)
bump-entries histogram value w e lt = get_or-set histogram value w _ 0 (omega (arith, e.size))

bump-IsHistogram :
    (histogram : List ℕ) (value : ℕ)
    → IsHistogram histogram
    → value < 256
    → IsHistogram (set histogram value (u32 (get_or histogram value 0 + 1)))
bump-IsHistogram histogram value e lt = record {
  size = length-set histogram value _ ∙ e.size;
  words = λ w l. ground (arith, bump-entries histogram value w e lt, e.words w l);
}

brightness-lt : (image : List ℕ) (width x y : ℕ) → brightness image width x y < 256
unfolding brightness
brightness-lt image width x y = omega arith

abbrev pub Counts : Option (List ℕ) → List ℕ → (ℕ → ℕ) → Type 0
Counts o histogram counts = (h : List ℕ) × (o ≡ some h) × Counted histogram counts h

module _ {image : List ℕ} {width height : ℕ} (im : IsImage image width height) where
  row_loop-Counted :
      (n x y : ℕ) (histogram : List ℕ)
      → x < width
      → y + n ≤ height
      → IsHistogram histogram
      → Counts (row_loop n image width x y histogram) histogram (pixels_in_column n image width x y)
  unfolding row_loop pixels_in_column
  row_loop-Counted zero x y histogram p q e = (
    histogram,
    refl,
    record { result_IsHistogram = e; entries = λ v l. omega (arith, e.words v l) },
  )
  row_loop-Counted (suc n) x y histogram p q e =
      let v = brightness image width x y in
      let h = set histogram v (u32 (get_or histogram v 0 + 1)) in
      let lt = brightness-lt image width x y in
      let (r, run, c) =
        row_loop-Counted n x (y + 1) h p (omega arith) (bump-IsHistogram histogram v e lt) in
      (
        r,
        simp (value_at-brightness im x y p (omega arith), bump-set histogram v e lt, run),
        record {
          result_IsHistogram = c.result_IsHistogram;
          entries = λ w l. ground (arith, c.entries w l, bump-entries histogram v w e lt);
        },
      )

  column_loop-Counted :
      (n from to x : ℕ) (histogram : List ℕ)
      → x + n ≤ width
      → from ≤ to
      → to ≤ height
      → IsHistogram histogram
      → Counts
          (column_loop n image width from to x histogram)
          histogram
          (pixels n (to - from) image width from x)
  unfolding column_loop pixels
  column_loop-Counted zero from to x histogram p o q e = (
    histogram,
    refl,
    record { result_IsHistogram = e; entries = λ v l. omega (arith, e.words v l) },
  )
  column_loop-Counted (suc n) from to x histogram p o q e =
      let (h, first, c) =
        row_loop-Counted (to - from) x from histogram (omega arith) (omega arith) e in
      let (r, rest, d) =
        column_loop-Counted n from to (x + 1) h (omega arith) o q c.result_IsHistogram in
      (
        r,
        simp (first, rest),
        record {
          result_IsHistogram = d.result_IsHistogram;
          entries = λ w l. omega (arith, c.entries w l, d.entries w l);
        },
      )

  -- Over an image, both functions succeed, and add to each entry of a histogram how many pixels of
  -- that brightness there are: `make_histogram` in the whole image, `make_histogram_th` in the rows
  -- from `from` up to `to`.
  pub make_histogram-Counted :
      (from to : ℕ) (histogram : List ℕ)
      → from ≤ to
      → to ≤ height
      → IsHistogram histogram
      → Counts
          (make_histogram image width height histogram)
          histogram
          (pixels width height image width 0 0)
        × Counts
            (make_histogram_th image width from to histogram)
            histogram
            (pixels width (to - from) image width from 0)
  unfolding make_histogram make_histogram_th
  make_histogram-Counted from to histogram o q e = (
    rw whole at (
        column_loop-Counted width 0 height 0 histogram (omega arith) (omega arith) (omega arith) e),
    column_loop-Counted width from to 0 histogram (omega arith) o q e,
  )
    where
      whole : height - 0 ≡ height
      whole = omega arith

column-step :
    (n : ℕ) (image : List ℕ) (width x y v : ℕ)
    → 0 < n
    → pixels_in_column n image width x y v
      ≡ (if brightness image width x y == v then 1 else 0)
        + pixels_in_column (n - 1) image width x (y + 1) v
unfolding pixels_in_column
column-step zero image width x y v h = absurd (omega arith)
column-step (suc n) image width x y v h = ground arith

column-split :
    (m n : ℕ) (image : List ℕ) (width x y v : ℕ)
    → pixels_in_column (m + n) image width x y v
      ≡ pixels_in_column m image width x y v + pixels_in_column n image width x (y + m) v
unfolding pixels_in_column
column-split zero n image width x y v = ground arith
column-split (suc m) n image width x y v =
    ground
      (arith, column-step (suc m + n) image width x y v, column-split m n image width x (y + 1) v)

-- Two adjacent blocks of rows hold the pixels of both.
pub pixels-split :
    (k m n : ℕ) (image : List ℕ) (width y x v : ℕ)
    → pixels k (m + n) image width y x v
      ≡ pixels k m image width y x v + pixels k n image width (y + m) x v
unfolding pixels
pixels-split zero m n image width y x v = refl
pixels-split (suc k) m n image width y x v =
    omega (arith, column-split m n image width x y v, pixels-split k m n image width y (x + 1) v)
