-- ===== src/InetSockets/Calls.antt =====
-- The three functions of day3/16_sock_inet/inet_sockets.cpp together.
use cpp_rt.Prelude.{ℕ, ◌≡◌, Bool, true}
use cpp_rt.InetSockets.Kernel.{Kernel}
use cpp_rt.InetSockets.Connect.{with_result, sock_connect, sock_connect-Opens}
use cpp_rt.InetSockets.Passive.{sock_bind, sock_listen}
use cpp_rt.InetSockets.PassiveLaws.{sock_bind-Opens, sock_listen-Opens}

module _ (k : Kernel) where
  open k use {State, open_fds, address_lists, listen}

  -- `sock_connect`, `sock_bind` and, if `listen` does not fail, `sock_listen` leak nothing, on
  -- every path and for every answer of the system: afterwards the descriptor that is returned is
  -- open besides those before, or none if -1 is returned, and what `getaddrinfo` allocated is
  -- freed.
  pub sockets-Open :
      (host service type backlog : ℕ) (wants_addrlen : Bool) (s : State)
      → ((fd : ℕ) (u : State) → (listen fd backlog u).0 ≡ true)
      → let c = sock_connect k host service type s in
        let b = sock_bind k service type wants_addrlen s in
        let l = sock_listen k service backlog wants_addrlen s in
        ((open_fds c.1 ≡ with_result c.0 (open_fds s)) × (address_lists c.1 ≡ address_lists s))
        × ((open_fds b.1 ≡ with_result b.0.sfd (open_fds s))
            × (address_lists b.1 ≡ address_lists s))
        × ((open_fds l.1 ≡ with_result l.0.sfd (open_fds s))
            × (address_lists l.1 ≡ address_lists s))
  sockets-Open host service type backlog w s ok = (
    sock_connect-Opens k host service type s,
    sock_bind-Opens k service type w s,
    sock_listen-Opens k service backlog w s ok,
  )
