-- ===== src/Socknet/Datagram.antt =====
-- day3/socknet/net: `udp_socket` and `unix_datagram_socket`, and `base_socket::receive`.
use cpp_rt.Prelude.{
  ℕ, ◌<◌, ◌≤◌, ◌≡◌, Option, none, some, List, [], ◌∷◌, ◌++◌, length, take, ℤ, pos, eqb_ℤ,
  if◌then◌else◌,
}
use cpp_rt.Socknet.Kernel.{Answer, returns, fails, eintr, Kernel}
use cpp_rt.Socknet.Base.{
  Outcome, returned, thrown, Message, sendto_failed, recvfrom_failed, receive_failed,
  multicast_ttl_failed, join_failed, leave_failed, BaseSocket, Process, throw, once,
  temp_failure_retry, to_int, is_negative, create,
}
use cpp_rt.Socknet.Internet.{SockaddrIn, InetKernel, ntohs}
use cpp_rt.Socknet.Unix.{SockaddrUn, Ending, value, throws, length_error, undefined, extract_path}
use cpp_rt.Socknet.Internet
use cpp_rt.Socknet.Unix

-- The calls on datagrams between addresses of type `A`. `buffer` and `source` are what the last
-- `recv` or `recvfrom` has written, `sent` the datagrams that the system has accepted.
pub record DatagramKernel (k : Kernel) (A : Type 0) : Type 1 where
  pub sendto : ℕ → List ℕ → A → k.State → Answer × k.State
  pub recvfrom : ℕ → ℕ → k.State → Answer × k.State
  pub recv : ℕ → ℕ → k.State → Answer × k.State
  pub setsockopt : ℕ → ℕ → ℕ → ℕ → k.State → Answer × k.State
  pub buffer : k.State → List ℕ
  pub source : k.State → A × ℕ
  pub sent : k.State → List (List ℕ × A)
  pub sendto-sent :
      (fd : ℕ) (b : List ℕ) (a : A) (s : k.State) (n : ℕ)
      → (sendto fd b a s).0 ≡ returns n
      → (n ≤ length b) × (sent (sendto fd b a s).1 ≡ sent s ++ (take n b, a) ∷ [])
  pub sendto-failed :
      (fd : ℕ) (b : List ℕ) (a : A) (s : k.State) (e : ℕ)
      → (sendto fd b a s).0 ≡ fails e
      → sent (sendto fd b a s).1 ≡ sent s
  pub sendto-interrupted :
      (fd : ℕ) (b : List ℕ) (a : A) (s : k.State)
      → (sendto fd b a s).0 ≡ fails eintr
      → k.patience (sendto fd b a s).1 < k.patience s

abbrev pub sol_socket : ℕ
sol_socket = 1

abbrev pub so_broadcast : ℕ
so_broadcast = 6

abbrev pub ipproto_ip : ℕ
ipproto_ip = 0

abbrev pub ip_multicast_ttl : ℕ
ip_multicast_ttl = 33

abbrev pub ip_add_membership : ℕ
ip_add_membership = 35

abbrev pub ip_drop_membership : ℕ
ip_drop_membership = 36

module _ (k : Kernel) {A : Type 0} (d : DatagramKernel k A) where
  abbrev pub State : Type 0
  State = Process k.State

  -- `base_socket::receive`: the count and the bytes, the bytes being in the caller's buffer.
  unfoldable pub receive : ℕ → ℕ → BaseSocket → State → Option (Outcome (ℤ × List ℕ) × State)
  receive fuel len x p = elim (temp_failure_retry k fuel (d.recv x.socket len) p) [
    | none ↦ none
    | some (ret, q) ↦
        if is_negative (to_int ret)
        then some (throw receive_failed q.errno, q)
        else some (returned (to_int ret, d.buffer q.state), q)
  ]

  -- The end of both `sendTo`s, which want the whole buffer to be sent as one message.
  unfoldable pub send_message :
      ℕ → List ℕ → A → BaseSocket → State → Option (Outcome (Unit {0}) × State)
  send_message fuel buffer addr x p =
      elim (temp_failure_retry k fuel (d.sendto x.socket buffer addr) p) [
        | none ↦ none
        | some (ret, q) ↦
            if eqb_ℤ (to_int ret) (to_int (pos (length buffer)))
            then some (returned tt, q)
            else some (throw sendto_failed q.errno, q)
      ]

module _ (k : Kernel) (u : InetKernel k) (d : DatagramKernel k SockaddrIn) where
  abbrev pub UdpState : Type 0
  UdpState = Process k.State

  unfoldable pub set_broadcast : ℕ → UdpState → ℤ × UdpState
  set_broadcast socket p = once k (d.setsockopt socket sol_socket so_broadcast 1) p

  -- `groupAction`; the group is given as its address.
  unfoldable pub group_action : ℕ → ℕ → ℕ → UdpState → ℤ × UdpState
  group_action socket group action p = once k (d.setsockopt socket ipproto_ip action group) p

  -- The constructor; PF_INET, SOCK_DGRAM and IPPROTO_UDP are 2, 2 and 17.
  unfoldable pub create_udp : UdpState → Outcome BaseSocket × UdpState
  unfolding create set_broadcast
  create_udp p =
      let (made, q) = create k 2 2 17 p in
      elim made [
        | thrown e ↦ (thrown e, q)
        | returned x ↦ let (ret, r) = set_broadcast x.socket q in (returned x, r)
      ]

  unfoldable pub send_to :
      ℕ → List ℕ → List ℕ → ℕ → BaseSocket → UdpState → Option (Outcome (Unit {0}) × UdpState)
  unfolding send_message
  send_to fuel buffer address port x p =
      let (filled, q) = Internet.fill_address k u address port p in
      elim filled [
        | thrown e ↦ some (thrown e, q)
        | returned addr ↦ send_message k d fuel buffer addr x q
      ]

  -- The count, the bytes, and the source's address and port.
  unfoldable pub receive_from :
      ℕ → ℕ → BaseSocket → UdpState → Option (Outcome (ℤ × List ℕ × List ℕ × ℕ) × UdpState)
  receive_from fuel len x p = elim (temp_failure_retry k fuel (d.recvfrom x.socket len) p) [
    | none ↦ none
    | some (ret, q) ↦
        let (addr, addr_len) = d.source q.state in
        if is_negative (to_int ret)
        then some (throw recvfrom_failed q.errno, q)
        else some (
          returned (to_int ret, d.buffer q.state, u.inet_ntoa addr.s_addr, ntohs addr.sin_port),
          q,
        )
  ]

  abbrev pub checked : Message → ℤ × UdpState → Outcome (Unit {0}) × UdpState
  checked m (ret, q) = if is_negative ret then (throw m q.errno, q) else (returned tt, q)

  unfoldable pub set_multicast_ttl : ℕ → BaseSocket → UdpState → Outcome (Unit {0}) × UdpState
  set_multicast_ttl ttl x p =
      checked multicast_ttl_failed
        (once k (d.setsockopt x.socket ipproto_ip ip_multicast_ttl ttl) p)

  unfoldable pub join_group : ℕ → BaseSocket → UdpState → Outcome (Unit {0}) × UdpState
  unfolding group_action
  join_group group x p = checked join_failed (group_action x.socket group ip_add_membership p)

  unfoldable pub leave_group : ℕ → BaseSocket → UdpState → Outcome (Unit {0}) × UdpState
  unfolding group_action
  leave_group group x p = checked leave_failed (group_action x.socket group ip_drop_membership p)

module _ (k : Kernel) (d : DatagramKernel k SockaddrUn) where
  abbrev pub UnixState : Type 0
  UnixState = Process k.State

  -- PF_UNIX and SOCK_DGRAM are 1 and 2.
  unfoldable pub create_unix_datagram : UnixState → Outcome BaseSocket × UnixState
  unfolding create
  create_unix_datagram p = create k 1 2 0 p

  abbrev pub ending_of :
      Option (Outcome (Unit {0}) × UnixState) → Option (Ending (Unit {0}) × UnixState)
  ending_of none = none
  ending_of (some (returned t, q)) = some (value tt, q)
  ending_of (some (thrown e, q)) = some (throws e, q)

  -- `addr` is what the uninitialised structure holds.
  unfoldable pub send_to_path :
      ℕ
      → List ℕ
      → List ℕ
      → SockaddrUn
      → BaseSocket
      → UnixState
      → Option (Ending (Unit {0}) × UnixState)
  unfolding send_message
  send_to_path fuel buffer path addr x p = elim (Unix.fill_address path addr p.errno) [
    | value a ↦ ending_of (send_message k d fuel buffer a x p)
    | throws e ↦ some (throws e, p)
    | length_error ↦ some (length_error, p)
    | undefined ↦ some (undefined, p)
  ]

  abbrev pub with_count : ℤ → List ℕ → Ending (List ℕ) → Ending (ℤ × List ℕ × List ℕ)
  with_count n b (value path) = value (n, b, path)
  with_count n b (throws e) = throws e
  with_count n b length_error = length_error
  with_count n b undefined = undefined

  unfoldable pub receive_from_path :
      ℕ → ℕ → BaseSocket → UnixState → Option (Ending (ℤ × List ℕ × List ℕ) × UnixState)
  unfolding extract_path
  receive_from_path fuel len x p = elim (temp_failure_retry k fuel (d.recvfrom x.socket len) p) [
    | none ↦ none
    | some (ret, q) ↦
        let (addr, addr_len) = d.source q.state in
        if is_negative (to_int ret)
        then some (throws (record { message = recvfrom_failed; error_code = q.errno }), q)
        else some (with_count (to_int ret) (d.buffer q.state) (extract_path addr addr_len), q)
  ]
