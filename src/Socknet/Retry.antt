-- ===== src/Socknet/Retry.antt =====
-- day3/socknet/net: `TEMP_FAILURE_RETRY`.
use cpp_rt.Prelude.{
  ℕ, zero, suc, ◌^◌, ◌<◌, ◌≤◌, ◌≡◌, ◌≢◌, refl, ap, ◌∙◌, ◌⊎◌, inl, inr, true, some, List, ◌++◌,
  length, take, ℤ, pos, negsuc, arith, ℕ_discrete,
}
use cpp_rt.Socknet.Kernel.{Answer, returns, fails, eintr, econnreset, econnrefused, Kernel}
use cpp_rt.Socknet.Base.{
  Outcome, returned, thrown, BaseSocket, Process, send_failed, to_int, temp_failure_retry,
}

-- How sending may fail: with -1 after the peer has gone, or with an exception for another error.
abbrev pub Failed : Outcome ℤ → BaseSocket → Type 0
Failed (returned v) x = (v ≡ negsuc 0) × (x.peer_disconnected ≡ true)
Failed (thrown e) x =
    (e.message ≡ send_failed)
    × (e.error_code ≢ econnreset)
    × (e.error_code ≢ econnrefused)
    × (e.error_code ≢ eintr)

pub Answer-cases : (a : Answer) → ((n : ℕ) × (a ≡ returns n)) ⊎ ((e : ℕ) × (a ≡ fails e))
Answer-cases (returns n) = inl (n, refl)
Answer-cases (fails e) = inr (e, refl)

pub small-to_int : (n : ℕ) → n < 2 ^ 31 → to_int (pos n) ≡ pos n
small-to_int n h = ground arith

-- A call that is interrupted only finitely often, and a property that its failures keep.
module _ (k : Kernel) (call : k.State → Answer × k.State) (Q : k.State → Type 0)
    (keeps : (s : k.State) (e : ℕ) → Q s → (call s).0 ≡ fails e → Q (call s).1)
    (hurries : (s : k.State)
      → (call s).0 ≡ fails eintr
      → k.patience (call s).1 < k.patience s) where
  module _ (p : Process k.State) where
    abbrev failed_with : ℕ → Process k.State
    failed_with e = record { state = (call p.state).1; errno = e }

    retry-returns :
        (fuel n : ℕ)
        → (call p.state).0 ≡ returns n
        → temp_failure_retry k (suc fuel) call p
          ≡ some (pos n, record p { state = (call p.state).1 })
    unfolding temp_failure_retry
    retry-returns fuel n e = rw (e, temp_failure_retry)

    retry-fails :
        (fuel e : ℕ)
        → (call p.state).0 ≡ fails e
        → e ≢ eintr
        → temp_failure_retry k (suc fuel) call p ≡ some (negsuc 0, failed_with e)
    unfolding temp_failure_retry
    retry-fails fuel e h ne = rw (h, temp_failure_retry) (ground arith)

    retry-interrupted :
        (fuel : ℕ)
        → (call p.state).0 ≡ fails eintr
        → temp_failure_retry k (suc fuel) call p
          ≡ temp_failure_retry k fuel call (failed_with eintr)
    unfolding temp_failure_retry
    retry-interrupted fuel h = rw (h, temp_failure_retry)

  -- How a retried call ends: it has returned, from a state with the property, or failed for another
  -- reason than a signal.
  abbrev pub EndsFrom : Process k.State → ℤ → Process k.State → Type 0
  EndsFrom p v q =
      ((n : ℕ) × (s : k.State) × (v ≡ pos n)
        × Q s
        × ((call s).0 ≡ returns n)
        × (q.state ≡ (call s).1)
        × (k.patience s ≤ k.patience p.state))
      ⊎ ((v ≡ negsuc 0) × Q q.state × (q.errno ≢ eintr))

  later :
      (p p' : Process k.State) (v : ℤ) (q : Process k.State)
      → k.patience p'.state ≤ k.patience p.state
      → EndsFrom p' v q
      → EndsFrom p v q
  later p p' v q le (inl (n, s, e, h, f, g, l)) = inl (n, s, e, h, f, g, omega (arith, le, l))
  later p p' v q le (inr r) = inr r

  -- Enough fuel is one more than the patience.
  pub retry-ends :
      (fuel : ℕ) (p : Process k.State)
      → k.patience p.state < fuel
      → Q p.state
      → (v : ℤ) × (q : Process k.State) × (temp_failure_retry k fuel call p ≡ some (v, q))
        × EndsFrom p v q
  retry-ends zero p lt h = absurd (omega arith)
  retry-ends (suc fuel) p lt h = elim (Answer-cases (call p.state).0) [
    | inl (n, e) ↦ (
      pos n,
      record p { state = (call p.state).1 },
      retry-returns p fuel n e,
      inl (n, p.state, refl, h, e, refl, omega arith),
    )
    | inr (e, f) ↦ elim (ℕ_discrete e eintr) [
      | no ne ↦ (
        negsuc 0,
        failed_with p e,
        retry-fails p fuel e f ne,
        inr (refl, keeps p.state e h f, ne),
      )
      | yes i ↦
          let f' = f ∙ ap fails i in
          let (v, q, eq, r) =
            retry-ends fuel (failed_with p eintr) (omega (arith, lt, hurries p.state f'))
              (keeps p.state eintr h f') in
          (
            v,
            q,
            retry-interrupted p fuel f' ∙ eq,
            later p (failed_with p eintr) v q (omega (arith, hurries p.state f')) r,
          )
    ]
  ]

module _ (k : Kernel) (fd : ℕ) (b : List ℕ) where
  open k use {State, accepted, patience}

  -- The answer of a retried `send`.
  abbrev pub Retried : Process State → ℤ → Process State → Type 0
  Retried p v q =
      ((n : ℕ) × (v ≡ pos n)
        × (n ≤ length b)
        × (0 < length b → 0 < n)
        × (accepted fd q.state ≡ accepted fd p.state ++ take n b)
        × (patience q.state ≤ patience p.state))
      ⊎ ((v ≡ negsuc 0) × (q.errno ≢ eintr) × (accepted fd q.state ≡ accepted fd p.state))

  pub retry-Retried :
      (fuel : ℕ) (p : Process State)
      → patience p.state < fuel
      → (v : ℤ) × (q : Process State) × (temp_failure_retry k fuel (k.send fd b) p ≡ some (v, q))
        × Retried p v q
  retry-Retried fuel p lt =
      let (v, q, run, o) =
        retry-ends k (k.send fd b) (λ s. accepted fd s ≡ accepted fd p.state)
          (λ s e h f. k.send-failed fd b s e f ∙ h) (k.send-interrupted fd b) fuel p lt refl in
      (
        v,
        q,
        run,
        elim o [
          | inl (n, s, e, h, f, g, l) ↦ inl (
            n,
            e,
            k.send-most fd b s n f,
            k.send-some fd b s n f,
            ap (accepted fd) g ∙ k.send-accepted fd b s n f ∙ ap (λ t. t ++ take n b) h,
            omega (arith, ap patience g, k.send-patience fd b s n f, l),
          )
          | inr (e, h, ne) ↦ inr (e, ne, h)
        ],
      )
