-- ===== src/UnixStream/Laws.antt =====
-- day3/unix_stream_server/main.cpp: the descriptors of the server and the client.
use cpp_rt.Prelude.{
  ℕ, zero, suc, ◌+◌, ◌≡◌, ◌≢◌, refl, Bool, true, false, Bool-cases, Option-cases, inl, inr, arith,
  [], ◌∷◌, ◌++◌, ℤ, pos, eqb_ℤ, ltb_ℤ, if◌then◌else◌, ==_iff, eq_of_parts,
}
use cpp_rt.Process.{
  Prog, done, exit, call, ◌>>=◌, ◌>>◌, ask, drop_answer, Trace, System, Ending, blocked, run,
}
use cpp_rt.UnixStream.{
  Call, socket, accept, bind, listen, connect, read, write, close, minus_one, unless_failed, serve,
  server, client, main,
}

-- How often the descriptor `fd` was opened: for the client by `socket`, for the server by `accept`.
unfoldable pub opens : Bool → ℤ → Call × ℤ → ℕ
opens true fd (socket, answer) = if eqb_ℤ answer fd then 1 else 0
opens false fd (accept sfd, answer) = if eqb_ℤ answer fd then 1 else 0
opens is_client fd r = 0

unfoldable pub closes : ℤ → Call × ℤ → ℕ
closes fd (close closed, answer) = if eqb_ℤ closed fd then 1 else 0
closes fd r = 0

unfoldable pub tally : (Call × ℤ → ℕ) → Trace Call → ℕ
tally weight [] = 0
tally weight (r ∷ h) = weight r + tally weight h

tally-snoc :
    (weight : Call × ℤ → ℕ) (h : Trace Call) (r : Call × ℤ)
    → tally weight (h ++ r ∷ []) ≡ tally weight h + weight r
unfolding tally
tally-snoc weight [] r = omega arith
tally-snoc weight (x ∷ h) r = omega (arith, tally-snoc weight h r)

abbrev pub IsOver : {A : Type 0} → Ending A → Type 0
IsOver blocked = ⊥
IsOver e = Unit

module _ (is_client : Bool) (fd : ℤ) where
  abbrev pub Level : Trace Call → Type 0
  Level h = tally (opens is_client fd) h ≡ tally (closes fd) h

  -- A call that neither opens nor closes.
  snoc-Level :
      (h : Trace Call) (r : Call × ℤ)
      → Level h
      → opens is_client fd r ≡ closes fd r
      → Level (h ++ r ∷ [])
  snoc-Level h r level e =
      omega (arith, level, e, tally-snoc (opens is_client fd) h r, tally-snoc (closes fd) h r)

  -- A descriptor that is opened, used and closed.
  session-Level :
      (h : Trace Call) (a b c : Call × ℤ)
      → Level h
      → opens is_client fd a ≡ closes fd c
      → closes fd a ≡ 0
      → opens is_client fd c ≡ 0
      → opens is_client fd b ≡ closes fd b
      → Level (((h ++ a ∷ []) ++ b ∷ []) ++ c ∷ [])
  session-Level h a b c level matched opening closing neither =
      let o = tally-snoc (opens is_client fd) in
      let q = tally-snoc (closes fd) in
      omega (
        arith,
        level,
        matched,
        opening,
        closing,
        neither,
        o h a,
        q h a,
        o (h ++ a ∷ []) b,
        q (h ++ a ∷ []) b,
        o ((h ++ a ∷ []) ++ b ∷ []) c,
        q ((h ++ a ∷ []) ++ b ∷ []) c,
      )

-- A failed `accept` opens nothing.
failed-opens :
    (fd sfd cfd : ℤ)
    → fd ≢ minus_one
    → eqb_ℤ cfd minus_one ≡ true
    → opens false fd (accept sfd, cfd) ≡ 0
unfolding opens
failed-opens fd sfd cfd ne e = elim (Bool-cases (eqb_ℤ cfd fd)) [
  | inl z ↦
      absurd (ne (eq_of_parts fd minus_one (omega (arith, (==_iff _ _).0 e, (==_iff _ _).0 z))))
  | inr z ↦ rw z refl
]

-- From the trace `h` on, a program that is over has closed the descriptor as often as it opened it.
record Balances (is_client : Bool) (fd : ℤ) (o : System Call) {A : Type 0} (p : Prog Call A)
    (h : Trace Call) : Type 0 where
  balanced : IsOver (run o p h).0 → Level is_client fd (run o p h).1

module _ {is_client : Bool} {fd : ℤ} {o : System Call} where
  done-Balances :
      {A : Type 0} {a : A} {h : Trace Call}
      → Level is_client fd h
      → Balances is_client fd o (done a) h
  unfolding run
  done-Balances level = record { balanced = λ over. level }

  exit-Balances :
      {A : Type 0} {status : ℕ} {h : Trace Call}
      → Level is_client fd h
      → Balances is_client fd o {A = A} (exit status) h
  unfolding run
  exit-Balances level = record { balanced = λ over. level }

  call-Balances :
      {A : Type 0} {c : Call} {k : ℤ → Prog Call A} {h : Trace Call}
      → ((answer : ℤ) → Balances is_client fd o (k answer) (h ++ (c, answer) ∷ []))
      → Balances is_client fd o (call c k) h
  unfolding run
  call-Balances {c} {k} {h} each = record {
    balanced = elim (Option-cases (o h c)) [
      | inl e ↦ rw (e, run) (λ over. absurd over)
      | inr (answer, e) ↦ rw (e, run) (each answer).balanced
    ];
  }

  if-Balances :
      {A : Type 0} {b : Bool} {p q : Prog Call A} {h : Trace Call}
      → (b ≡ true → Balances is_client fd o p h)
      → (b ≡ false → Balances is_client fd o q h)
      → Balances is_client fd o (if b then p else q) h
  if-Balances {b} f g = elim (Bool-cases b) [ inl e ↦ rw e (f e) | inr e ↦ rw e (g e) ]

  unless-Balances :
      {A : Type 0} (answer : ℤ) {p : Prog Call A} {h : Trace Call}
      → (eqb_ℤ answer minus_one ≡ true → Level is_client fd h)
      → Balances is_client fd o p h
      → Balances is_client fd o (unless_failed answer p) h
  unless-Balances answer level b = if-Balances (λ e. exit-Balances (level e)) (λ e. b)

  then-Balances :
      {A : Type 0} (p : Prog Call (Unit {0})) (q : Prog Call A) (h : Trace Call)
      → Balances is_client fd o p h
      → ((t : Trace Call) → Level is_client fd t → Balances is_client fd o q t)
      → Balances is_client fd o (p >> q) h
  unfolding run
  then-Balances (done a) q h b each = each h (b.balanced tt)
  then-Balances (exit status) q h b each = exit-Balances (b.balanced tt)
  then-Balances (call c k) q h b each = record {
    balanced = elim (Option-cases (o h c)) [
      | inl e ↦ rw (e, run) (λ over. absurd over)
      | inr (answer, e) ↦
          rw (e, run)
            (then-Balances (k answer) q _ (record { balanced = rw (e, run) at b.balanced })
              each).balanced
    ];
  }

module _ (fd : ℤ) (ne : fd ≢ minus_one) (o : System Call) where
  serve-Balances :
      (clients : ℕ) (sfd : ℤ) (h : Trace Call)
      → Level false fd h
      → Balances false fd o (serve clients sfd) h
  unfolding serve opens closes
  serve-Balances zero sfd h level = done-Balances level
  serve-Balances (suc clients) sfd h level = call-Balances λ cfd.
      if-Balances
        (λ e.
          exit-Balances
            (snoc-Level false fd h (accept sfd, cfd) level (failed-opens fd sfd cfd ne e)))
        λ e. call-Balances λ n. call-Balances λ r. serve-Balances clients sfd _ (
          session-Level false fd h (accept sfd, cfd) (write cfd 5, n) (close cfd, r) level refl refl
            refl refl)

  listen-Balances :
      (clients : ℕ) (sfd : ℤ) (h : Trace Call)
      → Level false fd h
      → Balances false fd o
          (ask (listen sfd 5) >>= λ listening. unless_failed listening (serve clients sfd))
          h
  unfolding opens closes
  listen-Balances clients sfd h level = call-Balances λ answer.
      let still = snoc-Level false fd h (listen sfd 5, answer) level refl in
      unless-Balances answer (λ e. still) (serve-Balances clients sfd _ still)

  bind-Balances :
      (clients : ℕ) (sfd : ℤ) (h : Trace Call)
      → Level false fd h
      → Balances false fd o
          (ask (bind sfd) >>= λ bound.
            unless_failed bound
              (ask (listen sfd 5) >>= λ listening. unless_failed listening (serve clients sfd)))
          h
  unfolding opens closes
  bind-Balances clients sfd h level = call-Balances λ answer.
      let still = snoc-Level false fd h (bind sfd, answer) level refl in
      unless-Balances answer (λ e. still) (listen-Balances clients sfd _ still)

  server-Balances : (clients : ℕ) → Balances false fd o (server clients) []
  unfolding server opens closes tally
  server-Balances clients = call-Balances λ sfd.
      let still = snoc-Level false fd [] (socket, sfd) refl refl in
      unless-Balances sfd (λ e. still) (bind-Balances clients sfd _ still)

client-Balances : (fd : ℤ) (o : System Call) → Balances true fd o client []
unfolding client opens closes tally
client-Balances fd o = call-Balances λ s. call-Balances λ c. call-Balances λ n.
    if-Balances {b = ltb_ℤ n (pos 1)} {p = drop_answer (close s) >> exit 1}
      (λ e. call-Balances {c = close s} λ r. exit-Balances (closed_again s c n r))
      λ e. call-Balances {c = close s} λ r. done-Balances (closed_again s c n r)
  where
    closed_again :
        (s c n r : ℤ)
        → Level true fd ((socket, s) ∷ (connect s, c) ∷ (read s 1024, n) ∷ (close s, r) ∷ [])
    closed_again s c n r = omega arith

-- Whatever the system answers: when the program is over (it has served all the clients that are
-- counted, or has exited), the server has closed each descriptor as often as `accept` answered it,
-- and the client as often as `socket` did, also where `read` fails.
pub main-closes :
    (is_client : Bool) (clients : ℕ) (o : System Call) (fd : ℤ)
    → fd ≢ minus_one
    → IsOver (run o (main is_client clients) []).0
    → tally (opens is_client fd) (run o (main is_client clients) []).1
      ≡ tally (closes fd) (run o (main is_client clients) []).1
unfolding main
main-closes true clients o fd ne =
    (then-Balances client (exit 0) [] (client-Balances fd o)
      (λ t level. exit-Balances level)).balanced
main-closes false clients o fd ne =
    (then-Balances (server clients) (done 0) [] (server-Balances fd ne o clients)
      (λ t level. done-Balances level)).balanced
