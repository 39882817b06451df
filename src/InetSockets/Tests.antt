-- ===== src/InetSockets/Tests.antt =====
-- day3/16_sock_inet/inet_sockets.cpp over a small system: every lookup finds two addresses, sockets
-- are numbered upwards, only address 9 accepts connections, and every bind succeeds.
use cpp_rt.Prelude.{
  ℕ, suc, ◌+◌, ◌-◌, ◌≡◌, refl, ap, arith, Bool, true, false, none, some, List, [], ◌∷◌, ◌==◌,
}
use mathlib.Core.List.{tail}
use cpp_rt.InetSockets.Kernel.{AddrInfo, Kernel}
use cpp_rt.InetSockets.Connect.{with_result, sock_connect, connect_loop}
use cpp_rt.InetSockets.Passive.{bind_loop, prepare, sock_bind, sock_listen}
use cpp_rt.InetSockets.PassiveLaws.{sock_listen-leaks}
use cpp_rt.InetSockets.Calls.{sockets-Open}

pub record Process : Type 0 where
  pub fds : List ℕ
  pub lists : ℕ
  pub next : ℕ

abbrev pub address : ℕ → AddrInfo
address a = record { family = 2; socktype = 1; protocol = 6; addr = a; addrlen = 16 }

-- `listens` says whether `listen` succeeds.
abbrev pub system : Bool → Kernel
system listens = record {
  State = Process;
  open_fds = λ s. s.fds;
  address_lists = λ s. s.lists;
  set_errno = λ e s. s;
  getaddrinfo = λ h v i s. (some (address 8 ∷ address 9 ∷ []), record s { lists = suc s.lists });
  freeaddrinfo = λ s. record s { lists = s.lists - 1 };
  socket = λ f t p s. (some s.next, record s { fds = s.next ∷ s.fds; next = s.next + 1 });
  connect = λ fd a s. (a == 9, s);
  reuse_address = λ fd s. (true, s);
  bind = λ fd a s. (true, s);
  listen = λ fd n s. (listens, s);
  close = λ fd s. record s { fds = tail s.fds };
  set_errno-keeps = λ e s. (refl, refl);
  getaddrinfo-fds = λ h v i s. refl;
  getaddrinfo-some = λ h v i s l e. refl;
  getaddrinfo-none = λ h v i s e. cc;
  freeaddrinfo-fds = λ s. refl;
  freeaddrinfo-lists = λ s n e. omega arith;
  socket-some = λ f t p s fd e. ap (λ x. x ∷ s.fds) (same_fd e);
  socket-none = λ f t p s e. cc;
  socket-lists = λ f t p s. refl;
  connect-keeps = λ fd a s. (refl, refl);
  reuse_address-keeps = λ fd s. (refl, refl);
  bind-keeps = λ fd a s. (refl, refl);
  listen-keeps = λ fd n s. (refl, refl);
  close-newest = λ fd fds s e. ap tail e;
  close-lists = λ fd s. refl;
}
  where
    same_fd : {a b : ℕ} → some a ≡ some b → a ≡ b
    same_fd e = cc

abbrev pub before : Process
before = record { fds = 2 ∷ 1 ∷ 0 ∷ []; lists = 0; next = 3 }

-- The first address refuses: its socket is closed, and the second one is returned.
second_address : (sock_connect (system true) 100 200 1 before).0 ≡ some 4
unfolding sock_connect connect_loop
second_address = refl

sockets-Open_example :
    let c = sock_connect (system true) 100 200 1 before in
    let b = sock_bind (system true) 200 1 true before in
    let l = sock_listen (system true) 200 10 true before in
    ((c.1.fds ≡ with_result c.0 before.fds) × (c.1.lists ≡ before.lists))
    × ((b.1.fds ≡ with_result b.0.sfd before.fds) × (b.1.lists ≡ before.lists))
    × ((l.1.fds ≡ with_result l.0.sfd before.fds) × (l.1.lists ≡ before.lists))
sockets-Open_example = sockets-Open (system true) 100 200 1 10 true before (λ fd u. refl)

sock_listen-leaks_example :
    let r = sock_listen (system false) 200 10 false before in
    (r.0.sfd ≡ none) × (r.1.fds ≡ 3 ∷ before.fds) × (r.1.lists ≡ before.lists)
unfolding bind_loop prepare
sock_listen-leaks_example =
    sock_listen-leaks (system false) 200 10 false before (address 8 ∷ address 9 ∷ []) 3 16 refl refl
      refl
