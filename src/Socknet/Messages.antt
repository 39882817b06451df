-- ===== src/Socknet/Messages.antt =====
-- day3/socknet/net over a system that takes every datagram, after a number of interruptions, and on
-- which no stream is connected. The message that it delivers comes from a socket without a name.
use cpp_rt.Prelude.{
  ℕ, zero, suc, ◌<◌, ◌≤◌, ◌≡◌, refl, true, false, none, some, List, [], ◌∷◌, ◌++◌, length, take,
  take-length, replicate, pos, arith,
}
use cpp_rt.Socknet.Kernel.{Answer, returns, fails, eintr, Kernel}
use cpp_rt.Socknet.Base.{Outcome, returned, BaseSocket, Process, temp_failure_retry, create}
use cpp_rt.Socknet.Internet.{SockaddrIn, InetKernel, with_addr}
use cpp_rt.Socknet.Datagram.{DatagramKernel, send_to, create_unix_datagram}
use cpp_rt.Socknet.Whole.{Told, send_to-Told}
use cpp_rt.Socknet.Unix.{SockaddrUn, UnixKernel, value, c_str}
use cpp_rt.Socknet.UnixPrograms.{terminates, server_path, unix_server_main}
use cpp_rt.Socknet.Unnamed.{unix_server_main-unnamed}
use cpp_rt.Socknet.Internet
use cpp_rt.Socknet.Unix

record Network (A : Type 0) : Type 0 where
  interruptions : ℕ
  messages : List (List ℕ × A)

-- EBADF is 9.
abbrev system : (A : Type 0) → Kernel
system A = record {
  State = Network A;
  patience = λ s. s.interruptions;
  accepted = λ fd s. [];
  socket = λ d t p s. (returns 3, s);
  close = λ fd s. (returns 0, s);
  send = λ fd b s. (fails 9, s);
  dissolve = λ fd s. (returns 0, s);
  shutdown = λ fd s. (returns 0, s);
  listen = λ fd n s. (returns 0, s);
  accept = λ fd s. (returns 4, s);
  send-most = λ fd b s n e. absurd cc;
  send-some = λ fd b s n e. absurd cc;
  send-accepted = λ fd b s n e. absurd cc;
  send-patience = λ fd b s n e. absurd cc;
  send-failed = λ fd b s e h. refl;
  send-interrupted = λ fd b s e. absurd cc;
  close-interrupted = λ fd s e. absurd cc;
}

abbrev takes : {A : Type 0} → ℕ → List (List ℕ × A) → List ℕ → A → Answer × Network A
takes zero l b a = (returns (length b), record { interruptions = 0; messages = l ++ (b, a) ∷ [] })
takes (suc i) l b a = (fails 4, record { interruptions = i; messages = l })

module _ {A : Type 0} where
  length_is :
      (i : ℕ) (l : List (List ℕ × A)) (b : List ℕ) (a : A) (n : ℕ)
      → (takes i l b a).0 ≡ returns n
      → n ≡ length b
  length_is zero l b a n e = cc
  length_is (suc i) l b a n e = absurd cc

  takes-sent :
      (i : ℕ) (l : List (List ℕ × A)) (b : List ℕ) (a : A) (n : ℕ)
      → (takes i l b a).0 ≡ returns n
      → (n ≤ length b) × ((takes i l b a).1.messages ≡ l ++ (take n b, a) ∷ [])
  takes-sent zero l b a n e =
      let same = length_is zero l b a n e in (omega (arith, same), rw (same, take-length b) refl)
  takes-sent (suc i) l b a n e = absurd cc

  takes-failed :
      (i : ℕ) (l : List (List ℕ × A)) (b : List ℕ) (a : A) (n : ℕ)
      → (takes i l b a).0 ≡ fails n
      → (takes i l b a).1.messages ≡ l
  takes-failed zero l b a n e = absurd cc
  takes-failed (suc i) l b a n e = refl

  takes-interrupted :
      (i : ℕ) (l : List (List ℕ × A)) (b : List ℕ) (a : A)
      → (takes i l b a).0 ≡ fails eintr
      → (takes i l b a).1.interruptions < i
  takes-interrupted zero l b a e = absurd cc
  takes-interrupted (suc i) l b a e = omega arith

-- Every message comes from `from`, with the length `len` of its address.
abbrev datagrams : {A : Type 0} → A → ℕ → DatagramKernel (system A) A
datagrams from len = record {
  sendto = λ fd b a s. takes s.interruptions s.messages b a;
  recvfrom = λ fd n s. (returns 1, s);
  recv = λ fd n s. (returns 1, s);
  setsockopt = λ fd l o v s. (returns 0, s);
  buffer = λ s. 0 ∷ [];
  source = λ s. (from, len);
  sent = λ s. s.messages;
  sendto-sent = λ fd b a s n e. takes-sent s.interruptions s.messages b a n e;
  sendto-failed = λ fd b a s e h. takes-failed s.interruptions s.messages b a e h;
  sendto-interrupted = λ fd b a s e. takes-interrupted s.interruptions s.messages b a e;
}

-- Addresses in numbers are known, names are not.
abbrev inet : InetKernel (system SockaddrIn)
inet = record {
  inet_aton = λ text. some 1;
  inet_ntoa = λ a. [];
  gethostbyname = λ name p. (none, p);
  getservbyname = λ name protocol. none;
  connect = λ fd a p. (true, p);
  bind = λ fd a p. (true, p);
  getsockname = λ fd p. (none, p);
  getpeername = λ fd p. (none, p);
}

abbrev to : SockaddrIn
to = with_addr (system SockaddrIn) inet 7 1

abbrev sock : BaseSocket
sock = record { socket = 3; peer_disconnected = false }

abbrev process : (A : Type 0) → Process (Network A)
process A = record { state = record { interruptions = 1; messages = [] }; errno = 0 }

resolves :
    Internet.fill_address (system SockaddrIn) inet (49 ∷ []) 7 (process SockaddrIn)
    ≡ (returned to, process SockaddrIn)
unfolding Internet.fill_address
resolves = refl

send_to-Told_example :
    (r : Outcome (Unit {0})) × (t : Process (Network SockaddrIn)) × (send_to
        (system SockaddrIn)
        inet
        (datagrams to 16)
        2
        (5 ∷ 6 ∷ [])
        (49 ∷ [])
        7
        sock
        (process SockaddrIn)
      ≡ some (r, t))
    × Told
        (system SockaddrIn)
        (datagrams to 16)
        (5 ∷ 6 ∷ [])
        to
        r
        (process SockaddrIn).state
        t.state
send_to-Told_example =
    send_to-Told (system SockaddrIn) inet (datagrams to 16) 2 (5 ∷ 6 ∷ []) (49 ∷ []) 7 sock
      (process SockaddrIn) (process SockaddrIn) to (omega arith) resolves (omega arith)

abbrev blank : SockaddrUn
blank = record { sun_family = 0; sun_path = replicate 108 0 }

abbrev paths : UnixKernel (system SockaddrUn)
paths = record {
  unlink = λ path s. s;
  bind = λ fd path p. (true, p);
  connect = λ fd path p. (true, p);
  getsockname = λ fd p. (none, p);
  getpeername = λ fd p. (none, p);
}

makes :
    create_unix_datagram (system SockaddrUn) (datagrams blank 2) (process SockaddrUn)
    ≡ (returned sock, process SockaddrUn)
unfolding create_unix_datagram create
makes = refl

binds :
    Unix.bind
      (system SockaddrUn)
      paths
      (server_path (system SockaddrUn) paths (datagrams blank 2) 1 blank)
      blank
      sock
      (process SockaddrUn)
    ≡ (value tt, process SockaddrUn)
unfolding Unix.bind Unix.fill_address c_str
binds = refl

receives :
    temp_failure_retry
      (system SockaddrUn)
      1
      ((datagrams blank 2).recvfrom 3 50)
      (process SockaddrUn)
    ≡ some (pos 1, process SockaddrUn)
unfolding temp_failure_retry
receives = refl

unix_server_main-unnamed_example :
    unix_server_main
      (system SockaddrUn)
      paths
      (datagrams blank 2)
      1
      blank
      1
      (1 ∷ [])
      (process SockaddrUn)
    ≡ terminates
unix_server_main-unnamed_example =
    unix_server_main-unnamed (system SockaddrUn) paths (datagrams blank 2) 1 blank 0 (1 ∷ []) sock
      (process SockaddrUn) (process SockaddrUn) (process SockaddrUn) (process SockaddrUn) 1 makes
      binds (omega arith) receives (omega arith)
