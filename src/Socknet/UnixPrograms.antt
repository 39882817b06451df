-- ===== src/Socknet/UnixPrograms.antt =====
-- day3/socknet: `main` of unix_server.cpp and unix_client.cpp. What they print is left out.
use cpp_rt.Prelude.{ℕ, zero, suc, Option, none, some, List, [], ◌∷◌}
use cpp_rt.Socknet.Kernel.{Kernel}
use cpp_rt.Socknet.Base.{Outcome, returned, thrown, BaseSocket, Process, disconnect}
use cpp_rt.Socknet.Datagram.{
  DatagramKernel, create_unix_datagram, send_to_path, receive_from_path, receive,
}
use cpp_rt.Socknet.Unix.{
  SockaddrUn, UnixKernel, Ending, value, throws, length_error, undefined, Destruction, terminated,
  faulty, endless, destroyed, destroy_unix,
}
use cpp_rt.Socknet.Unix

-- How a program ends: with a status, by `std::terminate`, with undefined behaviour, or not at all.
pub data Final (S : Type 0) : Type 0 where
  status : ℕ → Process S → Final S
  terminates : Final S
  is_undefined : Final S
  never : Final S

module _ (k : Kernel) where
  open k use {State}

  abbrev pub Ran : Type 0 → Type 0
  Ran A = Option (Ending A × Process State)

  infixl 5 ◌>>=◌
  abbrev pub ◌>>=◌ : {A B : Type 0} → Ran A → (A → Process State → Ran B) → Ran B
  none >>= f = none
  some (value a, p) >>= f = f a p
  some (throws e, p) >>= f = some (throws e, p)
  some (length_error, p) >>= f = some (length_error, p)
  some (undefined, p) >>= f = some (undefined, p)

  abbrev pub after_destruction : ℕ → Destruction State → Final State
  after_destruction s terminated = terminates
  after_destruction s faulty = is_undefined
  after_destruction s endless = never
  after_destruction s (destroyed p) = status s p

  -- The end of the block that the socket is declared in, and of `main`: its status is 1 behind a
  -- `socket_exception`, and no handler catches a `std::length_error`.
  abbrev pub finish : UnixKernel k → ℕ → SockaddrUn → BaseSocket → Ran (Unit {0}) → Final State
  finish u fuel addr x none = never
  finish u fuel addr x (some (value t, p)) = after_destruction 0 (destroy_unix k u fuel addr x p)
  finish u fuel addr x (some (throws e, p)) = after_destruction 1 (destroy_unix k u fuel addr x p)
  finish u fuel addr x (some (length_error, p)) = terminates
  finish u fuel addr x (some (undefined, p)) = is_undefined

  abbrev pub ran_of : {A : Type 0} → Option (Outcome A × Process State) → Ran A
  ran_of none = none
  ran_of (some (returned a, p)) = some (value a, p)
  ran_of (some (thrown e, p)) = some (throws e, p)

  abbrev pub without_socket :
      Option (Outcome (Unit {0}) × BaseSocket × Process State) → Ran (Unit {0})
  without_socket none = none
  without_socket (some (returned t, x, q)) = some (value t, q)
  without_socket (some (thrown e, x, q)) = some (throws e, q)

  module _ (u : UnixKernel k) (d : DatagramKernel k SockaddrUn) (fuel : ℕ) (addr : SockaddrUn) where
    -- The loop of the server, with the number of messages to go.
    unfoldable pub server_loop : ℕ → List ℕ → BaseSocket → Process State → Ran (Unit {0})
    unfolding receive_from_path send_to_path
    server_loop zero msg x p = some (value tt, p)
    server_loop (suc messages) msg x p =
        let go_on = λ (q : Process State). server_loop messages msg x q in
        receive_from_path k d fuel 50 x p >>= λ got q.
        send_to_path k d fuel msg got.2 addr x q >>= λ t r. go_on r

    -- "/tmp/ux_sock"
    abbrev pub server_path : List ℕ
    server_path = 47 ∷ 116 ∷ 109 ∷ 112 ∷ 47 ∷ 117 ∷ 120 ∷ 95 ∷ 115 ∷ 111 ∷ 99 ∷ 107 ∷ []

    unfoldable pub unix_server_main : ℕ → List ℕ → Process State → Final State
    unfolding create_unix_datagram Unix.bind server_loop destroy_unix
    unix_server_main messages msg p =
        let (made, p1) = create_unix_datagram k d p in
        elim made [
          | thrown e ↦ status 1 p1
          | returned x ↦
              finish u fuel addr x (
                some (Unix.bind k u server_path addr x p1) >>= λ t p2.
                server_loop messages msg x p2)
        ]

    -- `own_path` is the path of the client, with the number of its process.
    unfoldable pub unix_client_main : List ℕ → Process State → Final State
    unfolding create_unix_datagram Unix.bind send_to_path receive disconnect destroy_unix
    unix_client_main own_path p =
        let (made, p1) = create_unix_datagram k d p in
        elim made [
          | thrown e ↦ status 1 p1
          | returned x ↦ finish u fuel addr x (
              some (Unix.bind k u own_path addr x p1) >>= λ t p2.
              send_to_path k d fuel (0 ∷ []) server_path addr x p2 >>= λ t2 p3.
              ran_of (receive k d fuel 50 x p3) >>= λ got p4. without_socket (disconnect k x p4))
        ]
