-- ===== src/Socknet/Programs.antt =====
-- day3/socknet: `main` of tcp_server.cpp and tcp_client.cpp, and `handle_client` and the loop of
-- tcp_server_threaded.cpp. What they print is left out, but for the message of an exception.
use cpp_rt.Prelude.{
  ℕ, zero, suc, ◌∷◌, Bool, true, false, Option, none, some, List, [], if◌then◌else◌, ℤ, pos, eqb_ℤ,
  replicate,
}
use cpp_rt.Socknet.Kernel.{Kernel}
use cpp_rt.Socknet.Base.{
  Outcome, returned, thrown, BaseSocket, Process, Call, create, adopt, destroy, send, disconnect,
}
use cpp_rt.Socknet.Tcp.{listen, accept}
use cpp_rt.Socknet.Internet.{InetKernel, SockaddrIn}
use cpp_rt.Socknet.Datagram.{DatagramKernel, receive}
use cpp_rt.Socknet.Internet

module _ (k : Kernel) where
  open k use {State}

  -- A block whose last statement has run: its outcome, the socket and the process.
  abbrev pub Ran : Type 0 → Type 0
  Ran A = Option (Outcome A × BaseSocket × Process State)

  infixl 5 ◌>>=◌
  abbrev pub ◌>>=◌ : {A B : Type 0} → Ran A → (A → BaseSocket → Process State → Ran B) → Ran B
  none >>= f = none
  some (thrown e, x, p) >>= f = some (thrown e, x, p)
  some (returned a, x, p) >>= f = f a x p

  -- The end of the block that a socket is declared in: its destructor runs, also behind an
  -- exception.
  abbrev pub closed_behind : {A : Type 0} → ℕ → Ran A → Option (Outcome A × Process State)
  closed_behind fuel none = none
  closed_behind fuel (some (r, x, p)) = elim (destroy k fuel x p) [
    | none ↦ none
    | some q ↦ some (r, q)
  ]

  -- `tcp_socket s(…); body`
  unfoldable pub with_socket :
      {A : Type 0}
      → ℕ
      → Outcome BaseSocket × Process State
      → (BaseSocket → Process State → Ran A)
      → Option (Outcome A × Process State)
  unfolding destroy
  with_socket fuel (thrown e, p) body = some (thrown e, p)
  with_socket fuel (returned x, p) body = closed_behind fuel (body x p)

  -- A call that does not change the socket.
  abbrev pub keeping : {A : Type 0} → BaseSocket → Outcome A × Process State → Ran A
  keeping x (r, p) = some (r, x, p)

  -- A nested block, in which the outer socket is not changed.
  abbrev pub nested : {A : Type 0} → BaseSocket → Option (Outcome A × Process State) → Ran A
  nested x none = none
  nested x (some (r, p)) = some (r, x, p)

  -- The status of `main`: 1 behind `catch`.
  abbrev pub status : Option (Outcome ℕ × Process State) → Option (ℕ × Process State)
  status none = none
  status (some (returned s, p)) = some (s, p)
  status (some (thrown e, p)) = some (1, p)

  -- The session with a client: 1 if the peer has gone, 0 behind `disconnect`.
  unfoldable pub session : ℕ → List ℕ → ℤ → Process State → Option (Outcome ℕ × Process State)
  unfolding adopt with_socket send disconnect
  session fuel msg handle p = with_socket fuel (adopt k handle p) λ s p1.
      send k fuel msg s p1 >>= λ sent s2 p2.
      if s2.peer_disconnected
      then some (returned 1, s2, p2)
      else (disconnect k s2 p2 >>= λ t s3 p3. some (returned 0, s3, p3))

  -- `handle_client` of the threaded server: false if an exception leaves the thread, which ends the
  -- program.
  abbrev pub survives : Option (Outcome ℕ × Process State) → Option (Bool × Process State)
  survives none = none
  survives (some (returned s, p)) = some (true, p)
  survives (some (thrown e, p)) = some (false, p)

  unfoldable pub handle_client : ℕ → List ℕ → ℤ → Process State → Option (Bool × Process State)
  unfolding session
  handle_client fuel msg handle p = survives (session fuel msg handle p)

  module _ (u : InetKernel k) where
    -- "127.0.0.1"
    abbrev pub localhost : List ℕ
    localhost = 49 ∷ 50 ∷ 55 ∷ 46 ∷ 48 ∷ 46 ∷ 48 ∷ 46 ∷ 49 ∷ []

    -- PF_INET, SOCK_STREAM and IPPROTO_TCP are 2, 1 and 6.
    abbrev pub tcp_socket : Process State → Outcome BaseSocket × Process State
    tcp_socket p = create k 2 1 6 p

    unfoldable pub server_main : ℕ → List ℕ → Process State → Option (ℕ × Process State)
    unfolding create with_socket Internet.bind listen accept session
    server_main fuel msg p = status (
        with_socket fuel (tcp_socket p) λ s p1.
          keeping s (Internet.bind k u localhost 12345 s p1) >>= λ t1 s1 p2.
          listen k 5 s1 p2 >>= λ t2 s2 p3. accept k s2 p3 >>= λ handle s3 p4.
          if eqb_ℤ handle (pos 0)
          then some (returned 1, s3, p4)
          else nested s3 (session fuel msg handle p4))

    -- The loop of the threaded server, with the number of clients to go: the handles for which it
    -- launches `handle_client`, the newest first, until `accept` answers 0.
    unfoldable pub accept_loop : ℕ → List ℤ → Call k (List ℤ × Bool)
    unfolding accept
    accept_loop zero handles s p = some (returned (handles, true), s, p)
    accept_loop (suc clients) handles s p =
        let go_on =
          λ (h : ℤ) (t : BaseSocket) (q : Process State). accept_loop clients (h ∷ handles) t q in
        accept k s p >>= λ handle s1 p1.
        if eqb_ℤ handle (pos 0)
        then some (returned (handles, false), s1, p1)
        else go_on handle s1 p1

    unfoldable pub client_main :
        DatagramKernel k SockaddrIn → ℕ → Process State → Option (ℕ × Process State)
    unfolding create with_socket Internet.connect send receive disconnect
    client_main d fuel p = status (
        with_socket fuel (tcp_socket p) λ s p1.
          some (Internet.connect k u localhost 12345 s p1) >>= λ t1 s1 p2.
          send k fuel (replicate 50 0) s1 p2 >>= λ bytes_sent s2 p3.
          nested s2 (receive k d fuel 50 s2 p3) >>= λ got s3 p4.
          disconnect k s3 p4 >>= λ t2 s4 p5. some (returned 0, s4, p5))
