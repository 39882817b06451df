-- ===== src/InetSockets/Main.antt =====
-- day3/16_sock_inet/main.cpp: the client and the server over `sock_connect` and `sock_listen`. The
-- output is left out. The server's endless loop is cut at a number of clients, and the tasks that
-- the thread pool runs for them run one after another.
use cpp_rt.Prelude.{
  ℕ, zero, suc, ◌≡◌, refl, ap, ◌∙◌, Bool, true, false, Option, none, some, List, [], ◌∷◌, inl, inr,
  Option-cases,
}
use cpp_rt.Process.{Ending, returned, exited, blocked}
use cpp_rt.InetSockets.Kernel.{Kernel}
use cpp_rt.InetSockets.Connect.{with_result, sock_connect, sock_connect-Opens}
use cpp_rt.InetSockets.Passive.{sock_listen}
use cpp_rt.InetSockets.PassiveLaws.{sock_listen-Opens}

-- The calls that the program makes itself. `accept` answers `none` for -1.
pub record StreamKernel (k : Kernel) : Type 0 where
  pub send : ℕ → List ℕ → k.State → k.State
  pub recv : ℕ → ℕ → k.State → k.State
  pub accept : ℕ → k.State → Option ℕ × k.State
  pub send-keeps :
      (fd : ℕ) (buf : List ℕ) (s : k.State)
      → (k.open_fds (send fd buf s) ≡ k.open_fds s)
        × (k.address_lists (send fd buf s) ≡ k.address_lists s)
  pub recv-keeps :
      (fd n : ℕ) (s : k.State)
      → (k.open_fds (recv fd n s) ≡ k.open_fds s)
        × (k.address_lists (recv fd n s) ≡ k.address_lists s)
  pub accept-some :
      (fd client : ℕ) (s : k.State)
      → (accept fd s).0 ≡ some client
      → k.open_fds (accept fd s).1 ≡ client ∷ k.open_fds s
  pub accept-none :
      (fd : ℕ) (s : k.State) → (accept fd s).0 ≡ none → k.open_fds (accept fd s).1 ≡ k.open_fds s
  pub accept-lists : (fd : ℕ) (s : k.State) → k.address_lists (accept fd s).1 ≡ k.address_lists s

-- "foo bar" and "abcdef", each with the zero behind it
abbrev pub foo_bar : List ℕ
foo_bar = 102 ∷ 111 ∷ 111 ∷ 32 ∷ 98 ∷ 97 ∷ 114 ∷ 0 ∷ []

abbrev pub abcdef : List ℕ
abcdef = 97 ∷ 98 ∷ 99 ∷ 100 ∷ 101 ∷ 102 ∷ 0 ∷ []

abbrev pub buf_size : ℕ
buf_size = 128

-- `host` is "localhost" and `service` "12345".
module _ (k : Kernel) (n : StreamKernel k) (host service : ℕ) where
  open k use {State, open_fds, address_lists, close, listen}

  unfoldable pub client : State → Ending (Option ℕ) × State
  client s =
      let (client_fd, s1) = sock_connect k host service 1 s in
      elim client_fd [
        | none ↦ (exited 1, s1)
        | some fd ↦ (returned none, close fd (n.recv fd buf_size (n.send fd foo_bar s1)))
      ]

  -- The task of a client. What `accept` answers is not tested: on the descriptor -1 every call of
  -- the task fails and does nothing.
  unfoldable pub handle : Option ℕ → State → State
  handle none s = s
  handle (some fd) s = close fd (n.send fd abcdef (n.recv fd buf_size s))

  unfoldable pub accept_loop : ℕ → ℕ → State → State
  unfolding handle
  accept_loop zero fd s = s
  accept_loop (suc clients) fd s =
      let (client_fd, s1) = n.accept fd s in accept_loop clients fd (handle client_fd s1)

  -- Behind the clients that are counted, with the listening descriptor.
  unfoldable pub server : ℕ → State → Ending (Option ℕ) × State
  unfolding accept_loop
  server clients s =
      let (p, s1) = sock_listen k service 10 false s in
      elim p.sfd [
        | none ↦ (exited 1, s1)
        | some fd ↦ (returned (some fd), accept_loop clients fd s1)
      ]

  -- With an argument the program is the client, without one the server.
  unfoldable pub main : Bool → ℕ → State → Ending (Option ℕ) × State
  unfolding client server
  main true clients s = client s
  main false clients s = server clients s

  -- The descriptor that is still in use.
  abbrev pub in_use : Ending (Option ℕ) → Option ℕ
  in_use (returned fd) = fd
  in_use (exited status) = none
  in_use blocked = none

  abbrev Kept : State → State → Type 0
  Kept s t = (open_fds t ≡ open_fds s) × (address_lists t ≡ address_lists s)

  Kept-then : {s t u : State} → Kept s t → Kept t u → Kept s u
  Kept-then a b = (b.0 ∙ a.0, b.1 ∙ a.1)

  -- A descriptor that is opened, used and closed.
  handle-Kept :
      (fd : ℕ) (s t : State)
      → open_fds t ≡ fd ∷ open_fds s
      → address_lists t ≡ address_lists s
      → Kept s (handle (some fd) t)
  unfolding handle
  handle-Kept fd s t o l =
      let r = n.recv fd buf_size t in
      let a = n.recv-keeps fd buf_size t in
      let b = n.send-keeps fd abcdef r in
      (k.close-newest fd (open_fds s) _ (b.0 ∙ a.0 ∙ o), k.close-lists fd _ ∙ b.1 ∙ a.1 ∙ l)

  accept_loop-Kept : (clients fd : ℕ) (s : State) → Kept s (accept_loop clients fd s)
  unfolding accept_loop handle
  accept_loop-Kept zero fd s = (refl, refl)
  accept_loop-Kept (suc clients) fd s = elim (Option-cases (n.accept fd s).0) [
    | inl e ↦
        rw (e, accept_loop)
          (Kept-then (n.accept-none fd s e, n.accept-lists fd s)
            (accept_loop-Kept clients fd (n.accept fd s).1))
    | inr (c, e) ↦
        rw (e, accept_loop)
          (Kept-then
            (handle-Kept c s (n.accept fd s).1 (n.accept-some fd c s e) (n.accept-lists fd s))
            (accept_loop-Kept clients fd (handle (some c) (n.accept fd s).1)))
  ]

  client-Opens :
      (s : State)
      → let r = client s in
        (open_fds r.1 ≡ with_result (in_use r.0) (open_fds s))
        × (address_lists r.1 ≡ address_lists s)
  unfolding client
  client-Opens s =
      let c = sock_connect k host service 1 s in
      let (o, l) = sock_connect-Opens k host service 1 s in
      elim (Option-cases c.0) [
        | inl e ↦ rw (e, client) (o ∙ ap (λ r. with_result r (open_fds s)) e, l)
        | inr (fd, e) ↦
            let sent = n.send fd foo_bar c.1 in
            let a = n.send-keeps fd foo_bar c.1 in
            let b = n.recv-keeps fd buf_size sent in
            rw (e, client)
              (
                k.close-newest fd (open_fds s) _
                    (b.0 ∙ a.0 ∙ o ∙ ap (λ r. with_result r (open_fds s)) e),
                k.close-lists fd _ ∙ b.1 ∙ a.1 ∙ l,
              )
      ]

  server-Opens :
      (clients : ℕ) (s : State)
      → ((fd : ℕ) (u : State) → (listen fd 10 u).0 ≡ true)
      → let r = server clients s in
        (open_fds r.1 ≡ with_result (in_use r.0) (open_fds s))
        × (address_lists r.1 ≡ address_lists s)
  unfolding server
  server-Opens clients s ok =
      let p = sock_listen k service 10 false s in
      let (o, l) = sock_listen-Opens k service 10 false s ok in
      elim (Option-cases p.0.sfd) [
        | inl e ↦ rw (e, server) (o ∙ ap (λ r. with_result r (open_fds s)) e, l)
        | inr (fd, e) ↦
            let (a, b) = accept_loop-Kept clients fd p.1 in
            rw (e, server) (a ∙ o ∙ ap (λ r. with_result r (open_fds s)) e, b ∙ l)
      ]

  -- Whichever part the program plays and whatever the system answers, provided that `listen` does
  -- not fail: the client ends with the descriptors and address lists that it started with, also
  -- where it exits, and the server has besides those, behind any number of clients whose tasks have
  -- run one after another, only its listening socket, or nothing where it exits.
  pub main-Opens :
      (is_client : Bool) (clients : ℕ) (s : State)
      → ((fd : ℕ) (u : State) → (listen fd 10 u).0 ≡ true)
      → let r = main is_client clients s in
        (open_fds r.1 ≡ with_result (in_use r.0) (open_fds s))
        × (address_lists r.1 ≡ address_lists s)
  unfolding main
  main-Opens true clients s ok = client-Opens s
  main-Opens false clients s ok = server-Opens clients s ok
