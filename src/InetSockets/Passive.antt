-- ===== src/InetSockets/Passive.antt =====
-- `sock_create_passive`, `sock_listen` and `sock_bind` of day3/16_sock_inet/inet_sockets.cpp.
use cpp_rt.Prelude.{ℕ, Bool, true, false, Option, none, some, List, [], ◌∷◌}
use cpp_rt.InetSockets.Kernel.{AddrInfo, Kernel}

-- How the loop over the addresses ends: with a bound socket, with no address left, or by the
-- early return where `setsockopt` fails.
pub data Found : Type 0 where
  bound : (sfd : ℕ) → (addrlen : ℕ) → Found
  exhausted : Found
  aborted : Found

-- The value of a call: the returned descriptor, or `none` for -1, and what it stores in
-- `*addrlen`, if anything.
pub record Passive : Type 0 where
  pub sfd : Option ℕ
  pub addrlen : Option ℕ

abbrev pub failed : Passive
failed = record { sfd = none; addrlen = none }

abbrev pub store_if : Bool → ℕ → Option ℕ
store_if true n = some n
store_if false n = none

abbrev pub found_fd : Found → Option ℕ
found_fd (bound fd n) = some fd
found_fd exhausted = none
found_fd aborted = none

module _ (k : Kernel) where
  open k use {
    State, open_fds, address_lists, getaddrinfo, freeaddrinfo, socket, reuse_address, bind, listen,
    close,
  }

  -- `setsockopt(SO_REUSEADDR)`, made only for a listening socket
  unfoldable pub prepare : Bool → ℕ → State → Bool × State
  prepare true fd s = reuse_address fd s
  prepare false fd s = (true, s)

  unfoldable pub bind_loop : Bool → List AddrInfo → State → Found × State
  bind_loop do_listen [] s = (exhausted, s)
  bind_loop do_listen (rp ∷ rest) s =
      let go_on = λ (t : State). bind_loop do_listen rest t in
      let (sfd, s1) = socket rp.family rp.socktype rp.protocol s in
      elim sfd [
        | none ↦ go_on s1
        | some fd ↦
            let (prepared, s2) = prepare do_listen fd s1 in
            elim prepared [
              | false ↦ (aborted, close fd s2)
              | true ↦
                  let (is_bound, s3) = bind fd rp.addr s2 in
                  elim is_bound [ true ↦ (bound fd rp.addrlen, s3) | false ↦ go_on (close fd s3) ]
            ]
      ]

  -- `listen`, made only for a listening socket
  unfoldable pub start_listening : Bool → ℕ → ℕ → State → Bool × State
  start_listening true fd backlog s = listen fd backlog s
  start_listening false fd backlog s = (true, s)

  -- What follows the loop.
  unfoldable pub finish : Bool → Bool → ℕ → Found → State → Passive × State
  finish do_listen wants_addrlen backlog aborted s = (failed, freeaddrinfo s)
  finish do_listen wants_addrlen backlog exhausted s = (failed, freeaddrinfo s)
  finish do_listen wants_addrlen backlog (bound fd n) s =
      let (listening, s1) = start_listening do_listen fd backlog s in
      elim listening [
        | false ↦ (failed, freeaddrinfo s1)
        | true ↦ (record { sfd = some fd; addrlen = store_if wants_addrlen n }, freeaddrinfo s1)
      ]

  unfoldable pub sock_create_passive : ℕ → ℕ → Bool → Bool → ℕ → State → Passive × State
  sock_create_passive service type wants_addrlen do_listen backlog s =
      let (result, s1) =
        getaddrinfo none service (record { family = 2; socktype = type; passive = true }) s in
      elim result [
        | none ↦ (failed, s1)
        | some addresses ↦
            let (found, s2) = bind_loop do_listen addresses s1 in
            finish do_listen wants_addrlen backlog found s2
      ]

  unfoldable pub sock_listen : ℕ → ℕ → Bool → State → Passive × State
  unfolding sock_create_passive
  sock_listen service backlog wants_addrlen s =
      sock_create_passive service 1 wants_addrlen true backlog s

  unfoldable pub sock_bind : ℕ → ℕ → Bool → State → Passive × State
  unfolding sock_create_passive
  sock_bind service type wants_addrlen s = sock_create_passive service type wants_addrlen false 0 s
