-- ===== src/Socknet/Session.antt =====
-- The session of a server with a client, in day3/socknet/tcp_server.cpp and
-- tcp_server_threaded.cpp.
use cpp_rt.Prelude.{
  ℕ, zero, suc, ◌^◌, ◌<◌, ◌≤◌, ◌≡◌, refl, ap, ◌∙◌, ◌⊎◌, inl, inr, Bool, false, Option, some, List,
  ◌++◌, length, take, ℤ, pos, arith, if◌then◌else◌,
}
use cpp_rt.Socknet.Kernel.{Kernel}
use cpp_rt.Socknet.Base.{
  Outcome, returned, thrown, BaseSocket, Process, send, disconnect, adopt, send_failed,
  disconnect_failed,
}
use cpp_rt.Socknet.Retry.{Failed}
use cpp_rt.Socknet.Sends.{send-Sent}
use cpp_rt.Socknet.Closing.{destroy-closes, disconnect-keeps, send-socket}
use cpp_rt.Socknet.Programs.{with_socket, session, closed_behind, Ran}
use cpp_rt.Socknet.Programs

-- How a session in which bytes were taken may end, and one in which none was.
abbrev pub Served : Outcome ℕ → Type 0
Served r =
    (r ≡ returned 0)
    ⊎ ((e : ℕ) × (r ≡ thrown (record { message = disconnect_failed; error_code = e })))

abbrev pub Lost : Outcome ℕ → Type 0
Lost r =
    (r ≡ returned 1) ⊎ ((e : ℕ) × (r ≡ thrown (record { message = send_failed; error_code = e })))

module _ (k : Kernel) (fuel : ℕ) (patient : (s : k.State) → k.patience s < fuel) where
  open k use {State, accepted}

  module _ (fd : ℕ) (msg : List ℕ) (small : length msg < 2 ^ 31)
      (dissolve-keeps : (s : State) → accepted fd (k.dissolve fd s).1 ≡ accepted fd s)
      (close-keeps : (s : State) → accepted fd (k.close fd s).1 ≡ accepted fd s) where
    closed_behind-closes :
        {A : Type 0} (r : Outcome A) (y : BaseSocket) (p : Process State)
        → y.socket ≡ fd
        → (q : Process State) × (closed_behind k fuel (some (r, y, p)) ≡ some (r, q))
          × ((s : State) × (q.state ≡ (k.close fd s).1))
          × (accepted fd q.state ≡ accepted fd p.state)
    closed_behind-closes r y p e =
        let (q, eq, last, kept) = destroy-closes k fuel patient fd close-keeps y p e in
        (q, rw (eq, closed_behind) refl, last, kept)

    infixl 5 ◌then_run◌
    abbrev ◌then_run◌ :
        {A B : Type 0} → Ran k A → (A → BaseSocket → Process State → Ran k B) → Ran k B
    r then_run f = Programs.◌>>=◌ k r f

    abbrev to_success : Ran k (Unit {0}) → Ran k ℕ
    to_success r = r then_run λ t s3 p3. some (returned 0, s3, p3)

    -- What the server does behind `send`.
    abbrev behind : Bool → BaseSocket → Process State → Ran k ℕ
    behind gone x p = if gone then some (returned 1, x, p) else to_success (disconnect k x p)

    abbrev behind_send : Outcome ℤ → BaseSocket → Process State → Option (Outcome ℕ × Process State)
    behind_send r y p =
        closed_behind k fuel
          (some (r, y, p) then_run λ sent s2 p2. behind s2.peer_disconnected s2 p2)

    session-behind_send :
        (r : Outcome ℤ) (y : BaseSocket) (p q : Process State)
        → send k fuel msg (record { socket = fd; peer_disconnected = false }) p ≡ some (r, y, q)
        → session k fuel msg (pos fd) p ≡ behind_send r y q
    unfolding session adopt with_socket
    session-behind_send r y p q e = rw (e, session) refl

    Ends : Process State → Option (Outcome ℕ × Process State) → (Outcome ℕ → Type 0) → Type 0
    Ends p ran How =
        (r : Outcome ℕ) × (q : Process State) × (ran ≡ some (r, q))
        × How r
        × ((s : State) × (q.state ≡ (k.close fd s).1))
        × (accepted fd q.state ≡ accepted fd p.state)

    lost :
        (r : Outcome ℤ) (y : BaseSocket) (p : Process State)
        → Failed r y
        → y.socket ≡ fd
        → Ends p (behind_send r y p) Lost
    unfolding Ends
    lost (returned v) y p (e, gone) s =
        let (q, eq, last, kept) = closed_behind-closes {A = ℕ} (returned 1) y p s in
        (
          returned 1,
          q,
          ap (λ b. closed_behind k fuel (behind b y p)) gone ∙ eq,
          inl refl,
          last,
          kept,
        )
    lost (thrown e) y p (m, h1, h2, h3) s =
        let (q, eq, last, kept) = closed_behind-closes {A = ℕ} (thrown e) y p s in
        (
          thrown e,
          q,
          eq,
          inr (
            e.error_code,
            ap (λ w. thrown (record { message = w; error_code = e.error_code })) m,
          ),
          last,
          kept,
        )

    -- Behind `disconnect`, whatever came of it.
    disconnected :
        (r : Outcome (Unit {0})) (y : BaseSocket) (p : Process State)
        → (r ≡ returned tt)
          ⊎ ((n : ℕ) × (r ≡ thrown (record { message = disconnect_failed; error_code = n })))
        → y.socket ≡ fd
        → Ends p (closed_behind k fuel (to_success (some (r, y, p)))) Served
    unfolding Ends
    disconnected (returned t) y p how s =
        let (q, eq, last, kept) = closed_behind-closes {A = ℕ} (returned 0) y p s in
        (returned 0, q, eq, inl refl, last, kept)
    disconnected (thrown e) y p (inl ok) s = absurd cc
    disconnected (thrown e) y p (inr (n, bad)) s =
        let (q, eq, last, kept) = closed_behind-closes {A = ℕ} (thrown e) y p s in
        (thrown e, q, eq, inr (n, cc), last, kept)

    served :
        (v : ℤ) (x : BaseSocket) (p : Process State)
        → x.peer_disconnected ≡ false
        → x.socket ≡ fd
        → Ends p (behind_send (returned v) x p) Served
    unfolding Ends
    served v x p here s =
        let (r, y, p2, e, sy, kept, how) = disconnect-keeps k fd dissolve-keeps x p s in
        let (r2, q, eq, ends, last, kept2) = disconnected r y p2 how sy in
        (
          r2,
          q,
          ap (λ b. closed_behind k fuel (behind b x p)) here
              ∙ ap (λ w. closed_behind k fuel (to_success w)) e
              ∙ eq,
          ends,
          last,
          kept2 ∙ kept,
        )

    taken : (l n : ℕ) → (0 < l → 0 < n) → (l ≡ 0) ⊎ (0 < n)
    taken zero n h = inl refl
    taken (suc l) n h = inr (h (omega arith))

    -- The server sends a client `msg` from its handle `fd`. The process runs on until the
    -- session is over, and then `fd` has just been closed, whether or not an exception left the
    -- session. Either the system took a prefix of `msg` that is not empty, unless `msg` is, and
    -- the session answers 0 or throws the error of `disconnect`; or it took nothing, and the
    -- session answers 1 or throws the error of `send`. Each call is interrupted by fewer
    -- signals than the fuel counts, `msg` is shorter than 2 ^ 31 bytes, and neither the
    -- `connect` that dissolves the connection nor `close` changes what the system has taken.
    pub session-closes :
        (p : Process State)
        → (r : Outcome ℕ) × (q : Process State) × (session k fuel msg (pos fd) p ≡ some (r, q))
          × ((s : State) × (q.state ≡ (k.close fd s).1))
          × (((n : ℕ) × (n ≤ length msg)
                × ((length msg ≡ 0) ⊎ (0 < n))
                × (accepted fd q.state ≡ accepted fd p.state ++ take n msg)
                × Served r)
              ⊎ ((accepted fd q.state ≡ accepted fd p.state) × Lost r))
    unfolding Ends
    session-closes p =
        let x : BaseSocket = record { socket = fd; peer_disconnected = false } in
        elim (send-Sent k fuel msg x p (patient p.state) small) [
          | inl (n, q1, e, le, some_taken, took, h) ↦
              let (r, q, eq, how, last, kept) = served (pos n) x q1 refl refl in
              (
                r,
                q,
                session-behind_send (returned (pos n)) x p q1 e ∙ eq,
                last,
                inl (n, le, taken (length msg) n some_taken, kept ∙ took, how),
              )
          | inr (r1, y, q1, e, failed, same) ↦
              let (r, q, eq, how, last, kept) =
                lost r1 y q1 failed (send-socket k fuel msg x y p q1 r1 e) in
              (r, q, session-behind_send r1 y p q1 e ∙ eq, last, inr (kept ∙ same, how))
        ]
