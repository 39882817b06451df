-- ===== src/Prelude/Family.antt =====
-- What each of a fixed number of threads holds, as a function of the thread's index: a change at
-- one index, and sums over the first `n` threads.
use Prim.Native.Nat.{ℕ, zero, suc, ◌+◌, ◌≤◌, ◌<◌}
use mathlib.Core.Path.{◌≡◌, refl, ap}
use mathlib.Core.Logic.{◌≢◌}
use native.Mathlib.Decide.{dec_lt, ℕ_discrete}
use native.Mathlib.Numerals.{add-one}
use native.Mathlib.Omega.{arith}
use cpp_rt.Prelude.Tests.{◌==◌, if◌then◌else◌}

abbrev pub put_at {ℓ} : {A : Type ℓ} → ℕ → A → (ℕ → A) → ℕ → A
put_at i a f j = if i == j then a else f j

module _ {ℓ} {A : Type ℓ} (weight : A → ℕ) where
  unfoldable pub sum_first : ℕ → (ℕ → A) → ℕ
  sum_first zero f = 0
  sum_first (suc n) f = weight (f n) + sum_first n f

  sum_first-put_above :
      (n i : ℕ) (a : A) (f : ℕ → A) → n ≤ i → sum_first n (put_at i a f) ≡ sum_first n f
  unfolding sum_first
  sum_first-put_above zero i a f h = refl
  sum_first-put_above (suc n) i a f h = ground (arith, sum_first-put_above n i a f)

  -- One thread's new weight replaces its old one in the sum.
  pub sum_first-put_at :
      (n i : ℕ) (a : A) (f : ℕ → A)
      → i < n
      → sum_first n (put_at i a f) + weight (f i) ≡ sum_first n f + weight a
  unfolding sum_first
  sum_first-put_at zero i a f h = elim h [ ]
  sum_first-put_at (suc n) i a f h =
      ground (arith, sum_first-put_at n i a f, sum_first-put_above n i a f)

  -- A thread's weight is part of the sum.
  pub weight-le-sum_first : (n i : ℕ) (f : ℕ → A) → i < n → weight (f i) ≤ sum_first n f
  unfolding sum_first
  weight-le-sum_first zero i f h = elim h [ ]
  weight-le-sum_first (suc n) i f h = ground (arith, weight-le-sum_first n i f)

  pub sum_first-eq-zero :
      (n : ℕ) (f : ℕ → A) → ((i : ℕ) → i < n → weight (f i) ≡ 0) → sum_first n f ≡ 0
  unfolding sum_first
  sum_first-eq-zero zero f h = refl
  sum_first-eq-zero (suc n) f h =
      omega (arith, h n (omega arith), sum_first-eq-zero n f (λ i lt. h i (omega arith)))

  -- If each of the threads 1 to `n` weighs 1, and thread 0 nothing, the sum is `n`.
  pub sum_first-ones :
      (n : ℕ) (f : ℕ → A)
      → weight (f 0) ≡ 0
      → ((i : ℕ) → i < n → weight (f (i + 1)) ≡ 1)
      → sum_first (suc n) f ≡ n
  unfolding sum_first
  sum_first-ones zero f z h = omega arith
  sum_first-ones (suc n) f z h = omega (arith, h', sum_first-ones n f z (λ i lt. h i (omega arith)))
    where
      h' : weight (f (suc n)) ≡ 1
      h' = rw add-one at (h n (omega arith))

  -- If the weight of each of the threads 1 to `n` is 1 at most, and thread 0 weighs nothing, the
  -- sum is `n` at most.
  pub sum_first-le :
      (n : ℕ) (f : ℕ → A)
      → weight (f 0) ≡ 0
      → ((i : ℕ) → i < n → weight (f (i + 1)) ≤ 1)
      → sum_first (suc n) f ≤ n
  unfolding sum_first
  sum_first-le zero f z h = omega arith
  sum_first-le (suc n) f z h = omega (arith, h', sum_first-le n f z (λ i lt. h i (omega arith)))
    where
      h' : weight (f (suc n)) ≤ 1
      h' = rw add-one at (h n (omega arith))

  -- A sum that is not 0 has a thread whose weight is not 0.
  pub sum_first-ne_zero :
      (n : ℕ) (f : ℕ → A) → 0 < sum_first n f → (i : ℕ) × (i < n) × (0 < weight (f i))
  unfolding sum_first
  sum_first-ne_zero zero f h = absurd (omega arith)
  sum_first-ne_zero (suc n) f h = elim (dec_lt 0 (weight (f n))) [
    | yes p ↦ (n, omega arith, p)
    | no p ↦ let (i, lt, q) = sum_first-ne_zero n f (omega arith) in (i, omega arith, q)
  ]

module _ {ℓ} {A : Type ℓ} (v w u : A → ℕ) where
  pub sum_first-add_le :
      (n : ℕ) (f : ℕ → A)
      → ((a : A) → v a + w a ≤ u a)
      → sum_first v n f + sum_first w n f ≤ sum_first u n f
  unfolding sum_first
  sum_first-add_le zero f h = omega arith
  sum_first-add_le (suc n) f h = omega (arith, h (f n), sum_first-add_le n f h)

module _ {ℓ} {A : Type ℓ} (weight : A → ℕ) where
  -- Where each thread weighs at most 1, and one weighs nothing, the sum is less than `n`.
  sum_first-at_most : (n : ℕ) (f : ℕ → A) → ((a : A) → weight a ≤ 1) → sum_first weight n f ≤ n
  unfolding sum_first
  sum_first-at_most zero f h = omega arith
  sum_first-at_most (suc n) f h = omega (arith, h (f n), sum_first-at_most n f h)

  pub sum_first-lt_each :
      (n i : ℕ) (f : ℕ → A)
      → ((a : A) → weight a ≤ 1)
      → i < n
      → weight (f i) ≡ 0
      → sum_first weight n f < n
  unfolding sum_first
  sum_first-lt_each zero i f h lt z = elim lt [ ]
  sum_first-lt_each (suc n) i f h lt z = elim (ℕ_discrete n i) [
    | yes same ↦ ground (arith, same, z, sum_first-at_most n f h)
    | no ne ↦ omega (arith, h (f n), sum_first-lt_each n i f h (omega (arith, ne, lt)) z)
  ]

  -- A sum below the number of threads leaves out a thread.
  pub sum_first-lt :
      (n : ℕ) (f : ℕ → A) → sum_first weight n f < n → (i : ℕ) × (i < n) × (weight (f i) ≡ 0)
  unfolding sum_first
  sum_first-lt zero f h = elim h [ ]
  sum_first-lt (suc n) f h = elim (dec_lt 0 (weight (f n))) [
    | no z ↦ (n, omega arith, omega arith)
    | yes p ↦ let (i, lt, z) = sum_first-lt n f (omega arith) in (i, omega arith, z)
  ]

  -- One thread that weighs 1, among others that weigh nothing.
  pub sum_first-one :
      (n j : ℕ) (f : ℕ → A)
      → j < n
      → weight (f j) ≡ 1
      → ((i : ℕ) → i < n → i ≢ j → weight (f i) ≡ 0)
      → sum_first weight n f ≡ 1
  unfolding sum_first
  sum_first-one zero j f h e z = elim h [ ]
  sum_first-one (suc n) j f h e z = elim (ℕ_discrete n j) [
    | yes same ↦
        let none_below =
          sum_first-eq-zero weight n f (λ i lt. z i (omega arith) (λ q. omega (arith, q))) in
        omega (arith, ap (λ k. weight (f k)) same, e, none_below)
    | no ne ↦ omega (
      arith,
      z n (omega arith) ne,
      sum_first-one n j f (omega (arith, ne)) e (λ i lt. z i (omega arith)),
    )
  ]
