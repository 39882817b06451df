-- ===== src/Socknet/Closing.antt =====
-- The ends of a socket in day3/socknet/net/base_socket.cpp: `disconnect` and the destructor.
use cpp_rt.Prelude.{
  ℕ, zero, suc, ◌<◌, ◌≡◌, refl, sym, ap, ◌∙◌, ◌⊎◌, inl, inr, false, some, List, ℤ, arith,
  Bool-cases, ◌==◌, same_some,
}
use cpp_rt.Socknet.Kernel.{Answer, eintr, econnreset, Kernel}
use cpp_rt.Socknet.Base.{
  Outcome, returned, thrown, BaseSocket, Process, send, disconnect, destroy, temp_failure_retry,
  disconnect_failed,
}
use cpp_rt.Socknet.Retry.{Answer-cases, retry-ends}

module _ (k : Kernel) where
  open k use {State, accepted}

  -- A retried call ends with a call.
  retry-last :
      (f : ℕ) (call : State → Answer × State) (p q : Process State) (v : ℤ)
      → temp_failure_retry k f call p ≡ some (v, q)
      → (s : State) × (q.state ≡ (call s).1)
  unfolding temp_failure_retry
  retry-last zero call p q v e = absurd cc
  retry-last (suc f) call p q v e = elim (Answer-cases (call p.state).0) [
    | inl (n, a) ↦
        let e' = rw (a, temp_failure_retry) at e in
        (p.state, sym (ap (λ w. w.1.state) (same_some e')))
    | inr (n, a) ↦ elim (Bool-cases (n == eintr)) [
      | inl i ↦
          retry-last f call (record { state = (call p.state).1; errno = n }) q v
            (rw i at (rw (a, temp_failure_retry) at e))
      | inr i ↦
          let e' = rw i at (rw (a, temp_failure_retry) at e) in
          (p.state, sym (ap (λ w. w.1.state) (same_some e')))
    ]
  ]

  pub destroy-closes :
      (fuel : ℕ) (patient : (s : State) → k.patience s < fuel) (fd : ℕ)
      (close-keeps : (s : State) → accepted fd (k.close fd s).1 ≡ accepted fd s) (x : BaseSocket)
      (p : Process State)
      → x.socket ≡ fd
      → (q : Process State) × (destroy k fuel x p ≡ some q)
        × ((s : State) × (q.state ≡ (k.close fd s).1))
        × (accepted fd q.state ≡ accepted fd p.state)
  unfolding destroy
  destroy-closes fuel patient fd close-keeps x p e =
      let shut : (s : State) → accepted fd (k.close x.socket s).1 ≡ accepted fd s =
        λ s. ap (λ d. accepted fd (k.close d s).1) e ∙ close-keeps s in
      let (v, q, eq, ends) =
        retry-ends k (k.close x.socket) (λ s. accepted fd s ≡ accepted fd p.state)
          (λ s n h f. shut s ∙ h) (λ s f. k.close-interrupted x.socket s f) fuel p (patient p.state)
          refl in
      let (s, last) = retry-last fuel (k.close x.socket) p q v eq in
      let kept : accepted fd q.state ≡ accepted fd p.state = elim ends [
        | inl (n, s', v', h, a, g, le) ↦ ap (accepted fd) g ∙ shut s' ∙ h
        | inr (v', h, ne) ↦ h
      ] in
      (q, rw (eq, destroy) refl, (s, last ∙ ap (λ d. (k.close d s).1) e), kept)

  pub disconnect-keeps :
      (fd : ℕ) (dissolve-keeps : (s : State) → accepted fd (k.dissolve fd s).1 ≡ accepted fd s)
      (x : BaseSocket) (p : Process State)
      → x.socket ≡ fd
      → (r : Outcome (Unit {0})) × (y : BaseSocket) × (q : Process State) × (disconnect k x p
          ≡ some (r, y, q))
        × (y.socket ≡ fd)
        × (accepted fd q.state ≡ accepted fd p.state)
        × ((r ≡ returned tt)
            ⊎ ((n : ℕ) × (r ≡ thrown (record { message = disconnect_failed; error_code = n }))))
  unfolding disconnect
  disconnect-keeps fd dissolve-keeps x p e =
      let kept : accepted fd (k.dissolve x.socket p.state).1 ≡ accepted fd p.state =
        ap (λ d. accepted fd (k.dissolve d p.state).1) e ∙ dissolve-keeps p.state in
      elim (Answer-cases (k.dissolve x.socket p.state).0) [
        | inl (n, a) ↦ (
          returned tt,
          x,
          record p { state = (k.dissolve x.socket p.state).1 },
          ground (arith, a),
          e,
          kept,
          inl refl,
        )
        | inr (n, a) ↦
            let q : Process State = record { state = (k.dissolve x.socket p.state).1; errno = n } in
            elim (Bool-cases (n == econnreset)) [
              | inl i ↦ (
                returned tt,
                record x { peer_disconnected = false },
                q,
                ground (arith, a, i),
                e,
                kept,
                inl refl,
              )
              | inr i ↦ (
                thrown (record { message = disconnect_failed; error_code = n }),
                x,
                q,
                ground (arith, a, i),
                e,
                kept,
                inr (n, refl),
              )
            ]
      ]

  -- `send` does not change which descriptor the socket has.
  pub send-socket :
      (fuel : ℕ) (msg : List ℕ) (x y : BaseSocket) (p q : Process State) (r : Outcome ℤ)
      → send k fuel msg x p ≡ some (r, y, q)
      → y.socket ≡ x.socket
  unfolding send
  send-socket fuel msg x y p q r e = ground (arith, e)
