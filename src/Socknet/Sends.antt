-- ===== src/Socknet/Sends.antt =====
-- day3/socknet/net: `base_socket::send` and `tcp_socket::sendAll` on a connected stream.
use cpp_rt.Prelude.{
  ℕ, zero, suc, ◌+◌, ◌-◌, ◌^◌, ◌<◌, ◌≤◌, ◌≡◌, ◌≢◌, refl, sym, ap, ◌∙◌, ◌⊎◌, inl, inr, true, false,
  ◌||◌, Option, some, List, ◌++◌, length, take, drop, length-drop, take-add, append_assoc,
  append_nil, ◌==◌, ℤ, pos, negsuc, arith, Bool-cases, ℕ_discrete,
}
use cpp_rt.Socknet.Kernel.{econnreset, econnrefused, Kernel}
use cpp_rt.Socknet.Base.{
  Outcome, returned, thrown, BaseSocket, Process, throw, send_failed, temp_failure_retry, send,
}
use cpp_rt.Socknet.Tcp.{send_all_loop, send_all}
use cpp_rt.Socknet.Retry.{Failed, small-to_int, retry-Retried}

module _ (k : Kernel) where
  open k use {State, accepted, patience}

  abbrev Result : Type 0
  Result = Option (Outcome ℤ × BaseSocket × Process State)

  module _ (fuel : ℕ) (b : List ℕ) (x : BaseSocket) (p q : Process State) where
    send-returned :
        (n : ℕ)
        → n < 2 ^ 31
        → temp_failure_retry k fuel (k.send x.socket b) p ≡ some (pos n, q)
        → send k fuel b x p ≡ some (returned (pos n), x, q)
    unfolding send
    send-returned n small e = rw (e, send) (rw (small-to_int n small) refl)

    send-gone :
        temp_failure_retry k fuel (k.send x.socket b) p ≡ some (negsuc 0, q)
        → ((q.errno == econnreset) || (q.errno == econnrefused)) ≡ true
        → send k fuel b x p ≡ some (returned (negsuc 0), record x { peer_disconnected = true }, q)
    unfolding send
    send-gone e g = rw (e, send) (rw g)

    send-throws :
        temp_failure_retry k fuel (k.send x.socket b) p ≡ some (negsuc 0, q)
        → ((q.errno == econnreset) || (q.errno == econnrefused)) ≡ false
        → send k fuel b x p ≡ some (throw send_failed q.errno, x, q)
    unfolding send
    send-throws e g = rw (e, send) (rw g)

  -- A call of `send` that took bytes, and one that failed.
  abbrev pub Sent : ℕ → List ℕ → BaseSocket → Process State → Type 0
  Sent fuel b x p =
      ((n : ℕ) × (q : Process State) × (send k fuel b x p ≡ some (returned (pos n), x, q))
        × (n ≤ length b)
        × (0 < length b → 0 < n)
        × (accepted x.socket q.state ≡ accepted x.socket p.state ++ take n b)
        × (patience q.state ≤ patience p.state))
      ⊎ ((r : Outcome ℤ) × (y : BaseSocket) × (q : Process State) × (send k fuel b x p
            ≡ some (r, y, q))
          × Failed r y
          × (accepted x.socket q.state ≡ accepted x.socket p.state))

  other_errno :
      (e : ℕ)
      → ((e == econnreset) || (e == econnrefused)) ≡ false
      → (e ≢ econnreset) × (e ≢ econnrefused)
  other_errno e h = (λ i. ground arith, λ i. ground arith)

  pub send-Sent :
      (fuel : ℕ) (b : List ℕ) (x : BaseSocket) (p : Process State)
      → patience p.state < fuel
      → length b < 2 ^ 31
      → Sent fuel b x p
  send-Sent fuel b x p lt small =
      let (v, q, e, o) = retry-Retried k x.socket b fuel p lt in
      elim o [
        | inl (n, f, m, z, a, l) ↦ inl (
          n,
          q,
          send-returned fuel b x p q n (omega (arith, m, small)) (e ∙ ap (λ w. some (w, q)) f),
          m,
          z,
          a,
          l,
        )
        | inr (f, i, a) ↦ elim (Bool-cases ((q.errno == econnreset) || (q.errno == econnrefused))) [
          | inl g ↦ inr (
            returned (negsuc 0),
            record x { peer_disconnected = true },
            q,
            send-gone fuel b x p q (e ∙ ap (λ w. some (w, q)) f) g,
            (refl, refl),
            a,
          )
          | inr g ↦
              let (ne, ne') = other_errno q.errno g in
              inr (
                throw send_failed q.errno,
                x,
                q,
                send-throws fuel b x p q (e ∙ ap (λ w. some (w, q)) f) g,
                (refl, ne, ne', i),
                a,
              )
        ]
      ]

  module _ (fuel : ℕ) (b : List ℕ) (x : BaseSocket) (small : length b < 2 ^ 31)
      (before : List ℕ) where
    -- How the loop ends: all is sent, or a prefix and then a failure.
    abbrev Ends : Result → Type 0
    Ends result =
        (r : Outcome ℤ) × (y : BaseSocket) × (q : Process State) × (m : ℕ) × (result
          ≡ some (r, y, q))
        × (m ≤ length b)
        × (accepted x.socket q.state ≡ before ++ take m b)
        × (((r ≡ returned (pos (length b))) × (m ≡ length b)) ⊎ Failed r y)

    loop-done :
        (rounds sent : ℕ) (p : Process State)
        → sent ≡ length b
        → send_all_loop k (suc rounds) fuel b sent x p ≡ some (returned (pos (length b)), x, p)
    unfolding send_all_loop
    loop-done rounds sent p e = rw e (ground (arith, small-to_int (length b) small))

    loop-stops :
        (rounds sent : ℕ) (p q : Process State) (r : Outcome ℤ) (y : BaseSocket)
        → sent < length b
        → send k fuel (drop sent b) x p ≡ some (r, y, q)
        → Failed r y
        → send_all_loop k (suc rounds) fuel b sent x p ≡ some (r, y, q)
    unfolding send_all_loop
    loop-stops rounds sent p q (returned v) y lt e (f, g) = ground (arith, e, f)
    loop-stops rounds sent p q (thrown v) y lt e f = ground (arith, e)

    loop-goes_on :
        (rounds sent n : ℕ) (p q : Process State)
        → sent < length b
        → n ≤ length b - sent
        → send k fuel (drop sent b) x p ≡ some (returned (pos n), x, q)
        → send_all_loop k (suc rounds) fuel b sent x p
          ≡ send_all_loop k rounds fuel b (sent + n) x q
    unfolding send_all_loop
    loop-goes_on rounds sent n p q lt le e = ground (arith, e)

    Ends-from : (result result' : Result) → result ≡ result' → Ends result' → Ends result
    Ends-from result result' e (r, y, q, m, f, le, a, o) = (r, y, q, m, e ∙ f, le, a, o)

    loop-Ends :
        (rounds sent : ℕ) (p : Process State)
        → sent ≤ length b
        → length b - sent < rounds
        → patience p.state < fuel
        → accepted x.socket p.state ≡ before ++ take sent b
        → Ends (send_all_loop k rounds fuel b sent x p)
    loop-Ends zero sent p le lt z a = absurd (omega arith)
    loop-Ends (suc rounds) sent p le lt z a = elim (ℕ_discrete sent (length b)) [
      | yes e ↦
          (returned (pos (length b)), x, p, sent, loop-done rounds sent p e, le, a, inl (refl, e))
      | no ne ↦
          let left = length-drop sent b in
          elim (send-Sent fuel (drop sent b) x p z (omega (arith, left, small))) [
            | inr (r, y, q, e, f, same) ↦ (
              r,
              y,
              q,
              sent,
              loop-stops rounds sent p q r y (omega (arith, ne, le)) e f,
              le,
              same ∙ a,
              inr f,
            )
            | inl (n, q, e, m, some_taken, taken, l) ↦
                Ends-from (send_all_loop k (suc rounds) fuel b sent x p)
                  (send_all_loop k rounds fuel b (sent + n) x q)
                  (loop-goes_on rounds sent n p q (omega (arith, ne, le)) (omega (arith, m, left))
                    e)
                  (loop-Ends rounds (sent + n) q (omega (arith, m, left, le))
                    (omega (arith, lt, some_taken (omega (arith, left, ne, le)), ne, le))
                    (omega (arith, l, z))
                    (taken
                      ∙ ap (λ t. t ++ take n (drop sent b)) a
                      ∙ append_assoc before (take sent b) (take n (drop sent b))
                      ∙ ap (λ t. before ++ t) (sym (take-add sent n b))))
          ]
    ]

  -- `sendAll` returns or throws, whatever the system answers: with rounds for each byte and fuel
  -- for the interruptions it ends. The stream has then accepted a prefix of the buffer, in order
  -- and once, besides what it had before. Either that is the whole buffer, of less than 2 ^ 31
  -- bytes, and the call returns its length; or the call returns -1 and the socket's peer counts as
  -- disconnected; or it throws the exception of `send` with an error number that is neither of the
  -- two of a lost connection nor EINTR.
  pub send_all-prefix :
      (rounds fuel : ℕ) (b : List ℕ) (x : BaseSocket) (p : Process State)
      → length b < 2 ^ 31
      → length b < rounds
      → patience p.state < fuel
      → (r : Outcome ℤ) × (y : BaseSocket) × (q : Process State) × (m : ℕ) × (send_all k rounds fuel
            b x p
          ≡ some (r, y, q))
        × (m ≤ length b)
        × (accepted x.socket q.state ≡ accepted x.socket p.state ++ take m b)
        × (((r ≡ returned (pos (length b))) × (m ≡ length b)) ⊎ Failed r y)
  unfolding send_all
  send_all-prefix rounds fuel b x p small lt z =
      loop-Ends fuel b x small (accepted x.socket p.state) rounds 0 p (omega arith)
        (omega (arith, lt)) z (sym (append_nil (accepted x.socket p.state)))
