-- ===== src/Socknet/Internet.antt =====
-- day3/socknet/net/internet_socket.cpp and socket_utils.cpp: the addresses of internet sockets. A
-- string is the list of its bytes.
use cpp_rt.Prelude.{ℕ, ◌+◌, ◌*◌, ◌/◌, ◌%◌, Bool, true, false, Option, none, some, List, [], ◌∷◌}
use cpp_rt.Socknet.Kernel.{Kernel}
use cpp_rt.Socknet.Base.{
  Outcome, returned, thrown, Message, connect_failed, bind_failed, local_address_failed,
  local_port_failed, foreign_address_failed, foreign_port_failed, resolve_failed, BaseSocket,
  Process, throw,
}

-- `sockaddr_in`; the port stands in network byte order.
pub record SockaddrIn : Type 0 where
  pub sin_family : ℕ
  pub sin_port : ℕ
  pub s_addr : ℕ

-- `htons` and `ntohs` exchange the two bytes of an `unsigned short`.
abbrev pub htons : ℕ → ℕ
htons n = n % 256 * 256 + n / 256 % 256

abbrev pub ntohs : ℕ → ℕ
ntohs n = n % 256 * 256 + n / 256 % 256

-- The further system calls, each with the `errno` that it leaves. `inet_aton` reads an address in
-- numbers, `gethostbyname` looks one up, and both may fail.
pub record InetKernel (k : Kernel) : Type 1 where
  pub inet_aton : List ℕ → Option ℕ
  pub inet_ntoa : ℕ → List ℕ
  pub gethostbyname : List ℕ → Process k.State → Option ℕ × Process k.State
  pub getservbyname : List ℕ → Option (List ℕ) → Option ℕ
  pub connect : ℕ → SockaddrIn → Process k.State → Bool × Process k.State
  pub bind : ℕ → SockaddrIn → Process k.State → Bool × Process k.State
  pub getsockname : ℕ → Process k.State → Option SockaddrIn × Process k.State
  pub getpeername : ℕ → Process k.State → Option SockaddrIn × Process k.State

abbrev pub af_inet : ℕ
af_inet = 2

abbrev pub inaddr_any : ℕ
inaddr_any = 0

-- The value of a call, or its exception.
abbrev pub value_or :
    {S A B : Type 0} → Message → (A → B) → Option A → Process S → Outcome B × Process S
value_or m f none q = (throw m q.errno, q)
value_or m f (some a) q = (returned (f a), q)

module _ (k : Kernel) (u : InetKernel k) where
  abbrev pub State : Type 0
  State = Process k.State

  abbrev pub with_addr : ℕ → ℕ → SockaddrIn
  with_addr port a = record { sin_family = af_inet; sin_port = htons port; s_addr = a }

  unfoldable pub fill_address : List ℕ → ℕ → State → Outcome SockaddrIn × State
  fill_address address port p = elim (u.inet_aton address) [
    | some a ↦ (returned (with_addr port a), p)
    | none ↦
        let (host, q) = u.gethostbyname address p in value_or resolve_failed (with_addr port) host q
  ]

  abbrev pub bound : Bool → State → Outcome (Unit {0}) × State
  bound true q = (returned tt, q)
  bound false q = (throw bind_failed q.errno, q)

  -- `connect`: the connection resets the flag of the socket.
  abbrev pub connected : Bool → BaseSocket → State → Outcome (Unit {0}) × BaseSocket × State
  connected true x q = (returned tt, record x { peer_disconnected = false }, q)
  connected false x q = (throw connect_failed q.errno, x, q)

  unfoldable pub connect : List ℕ → ℕ → BaseSocket → State → Outcome (Unit {0}) × BaseSocket × State
  unfolding fill_address
  connect address port x p =
      let (filled, q) = fill_address address port p in
      elim filled [
        | thrown e ↦ (thrown e, x, q)
        | returned addr ↦ let (ok, r) = u.connect x.socket addr q in connected ok x r
      ]

  -- `bind(localPort)`
  unfoldable pub bind_any : ℕ → BaseSocket → State → Outcome (Unit {0}) × State
  bind_any port x p = let (ok, q) = u.bind x.socket (with_addr port inaddr_any) p in bound ok q

  -- `bind(localAddress, localPort)`
  unfoldable pub bind : List ℕ → ℕ → BaseSocket → State → Outcome (Unit {0}) × State
  unfolding fill_address
  bind address port x p =
      let (filled, q) = fill_address address port p in
      elim filled [
        | thrown e ↦ (thrown e, q)
        | returned addr ↦ let (ok, r) = u.bind x.socket addr q in bound ok r
      ]

  unfoldable pub get_local_address : BaseSocket → State → Outcome (List ℕ) × State
  get_local_address x p =
      let (addr, q) = u.getsockname x.socket p in
      value_or local_address_failed (λ (a : SockaddrIn). u.inet_ntoa a.s_addr) addr q

  unfoldable pub get_local_port : BaseSocket → State → Outcome ℕ × State
  get_local_port x p =
      let (addr, q) = u.getsockname x.socket p in
      value_or local_port_failed (λ (a : SockaddrIn). ntohs a.sin_port) addr q

  unfoldable pub get_foreign_address : BaseSocket → State → Outcome (List ℕ) × State
  get_foreign_address x p =
      let (addr, q) = u.getpeername x.socket p in
      value_or foreign_address_failed (λ (a : SockaddrIn). u.inet_ntoa a.s_addr) addr q

  unfoldable pub get_foreign_port : BaseSocket → State → Outcome ℕ × State
  get_foreign_port x p =
      let (addr, q) = u.getpeername x.socket p in
      value_or foreign_port_failed (λ (a : SockaddrIn). ntohs a.sin_port) addr q

  -- `resolveService`: 0 for a service that is not known
  abbrev pub port_of : Option ℕ → ℕ
  port_of none = 0
  port_of (some s_port) = ntohs s_port

  abbrev pub given : List ℕ → Option (List ℕ)
  given [] = none
  given (c ∷ protocol) = some (c ∷ protocol)

  unfoldable pub resolve_service : List ℕ → List ℕ → ℕ
  resolve_service service protocol = port_of (u.getservbyname service (given protocol))
