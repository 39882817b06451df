-- ===== src/Socknet/Whole.antt =====
-- day3/socknet/net: a datagram is sent whole or not at all as far as the program is told.
use cpp_rt.Prelude.{
  ℕ, ◌^◌, ◌<◌, ◌≡◌, refl, ap, ◌∙◌, ◌⊎◌, inl, inr, some, List, [], ◌∷◌, ◌++◌, length, take,
  take-length, pos, negsuc, arith, ℕ_discrete,
}
use cpp_rt.Socknet.Kernel.{Kernel}
use cpp_rt.Socknet.Base.{
  Outcome, returned, thrown, sendto_failed, BaseSocket, Process, throw, temp_failure_retry,
}
use cpp_rt.Socknet.Internet.{SockaddrIn, InetKernel, with_addr, value_or}
use cpp_rt.Socknet.Datagram.{DatagramKernel, send_message, send_to}
use cpp_rt.Socknet.Retry.{small-to_int, retry-ends}
use cpp_rt.Socknet.Internet

module _ (k : Kernel) {A : Type 0} (d : DatagramKernel k A) where
  -- How a message is sent: whole, or an exception tells that it was not, in which case the system
  -- has taken nothing or less than the whole.
  abbrev pub Told : List ℕ → A → Outcome (Unit {0}) → k.State → k.State → Type 0
  Told b a (returned t) s s' = d.sent s' ≡ d.sent s ++ (b, a) ∷ []
  Told b a (thrown e) s s' =
      (e.message ≡ sendto_failed)
      × ((d.sent s' ≡ d.sent s)
          ⊎ ((n : ℕ) × (n < length b) × (d.sent s' ≡ d.sent s ++ (take n b, a) ∷ [])))

  module _ (fuel : ℕ) (b : List ℕ) (a : A) (x : BaseSocket) (p q : Process k.State) where
    message-whole :
        length b < 2 ^ 31
        → temp_failure_retry k fuel (d.sendto x.socket b a) p ≡ some (pos (length b), q)
        → send_message k d fuel b a x p ≡ some (returned tt, q)
    unfolding send_message
    message-whole small e = rw (e, send_message) (rw (small-to_int (length b) small) (ground arith))

    message-partial :
        (n : ℕ)
        → length b < 2 ^ 31
        → n < length b
        → temp_failure_retry k fuel (d.sendto x.socket b a) p ≡ some (pos n, q)
        → send_message k d fuel b a x p ≡ some (throw sendto_failed q.errno, q)
    unfolding send_message
    message-partial n small lt e =
        rw (e, send_message)
          (rw (small-to_int (length b) small, small-to_int n (omega (arith, small, lt)))
            (ground arith))

    message-fails :
        length b < 2 ^ 31
        → temp_failure_retry k fuel (d.sendto x.socket b a) p ≡ some (negsuc 0, q)
        → send_message k d fuel b a x p ≡ some (throw sendto_failed q.errno, q)
    unfolding send_message
    message-fails small e = rw (e, send_message) (rw (small-to_int (length b) small) (ground arith))

  pub send_message-Told :
      (fuel : ℕ) (b : List ℕ) (a : A) (x : BaseSocket) (p : Process k.State)
      → length b < 2 ^ 31
      → k.patience p.state < fuel
      → (r : Outcome (Unit {0})) × (q : Process k.State) × (send_message k d fuel b a x p
          ≡ some (r, q))
        × Told b a r p.state q.state
  send_message-Told fuel b a x p small lt =
      let (v, q, run, o) =
        retry-ends k (d.sendto x.socket b a) (λ s. d.sent s ≡ d.sent p.state)
          (λ s e h f. d.sendto-failed x.socket b a s e f ∙ h) (d.sendto-interrupted x.socket b a)
          fuel p lt refl in
      elim o [
        | inl (n, s, e, h, f, g, l) ↦
            let (le, taken) = d.sendto-sent x.socket b a s n f in
            let taken' : d.sent q.state ≡ d.sent p.state ++ (take n b, a) ∷ [] =
              ap d.sent g ∙ taken ∙ ap (λ t. t ++ (take n b, a) ∷ []) h in
            let run' = run ∙ ap (λ w. some (w, q)) e in
            elim (ℕ_discrete n (length b)) [
              | yes whole ↦ (
                returned tt,
                q,
                message-whole fuel b a x p q small (run' ∙ ap (λ m. some (pos m, q)) whole),
                taken'
                    ∙ ap (λ t. d.sent p.state ++ (t, a) ∷ [])
                        (ap (λ m. take m b) whole ∙ take-length b),
              )
              | no ne ↦
                  let less : n < length b = omega (arith, le, ne) in
                  (
                    throw sendto_failed q.errno,
                    q,
                    message-partial fuel b a x p q n small less run',
                    (refl, inr (n, less, taken')),
                  )
            ]
        | inr (e, h, ne) ↦ (
          throw sendto_failed q.errno,
          q,
          message-fails fuel b a x p q small (run ∙ ap (λ w. some (w, q)) e),
          (refl, inl h),
        )
      ]

-- `udp_socket::sendTo` ends, with fuel for the interruptions, once the address is resolved. If it
-- returns, the system has accepted exactly one message: the whole buffer (of less than 2 ^ 31
-- bytes), to the address. If it throws, the system has accepted nothing, or less than the whole.
pub send_to-Told :
    (k : Kernel) (u : InetKernel k) (d : DatagramKernel k SockaddrIn) (fuel : ℕ)
    (b address : List ℕ) (port : ℕ) (x : BaseSocket) (p q : Process k.State) (addr : SockaddrIn)
    → length b < 2 ^ 31
    → Internet.fill_address k u address port p ≡ (returned addr, q)
    → k.patience q.state < fuel
    → (r : Outcome (Unit {0})) × (t : Process k.State) × (send_to k u d fuel b address port x p
        ≡ some (r, t))
      × Told k d b addr r q.state t.state
unfolding send_to
send_to-Told k u d fuel b address port x p q addr small filled lt =
    let (r, t, run, told) = send_message-Told k d fuel b addr x q small lt in
    let run' = ap (λ w. send_message k d fuel b addr x w.1) filled ∙ run in
    (r, t, rw (ap (λ w. w.0) filled, send_to) run', told)
