-- ===== src/InetSockets/Connect.antt =====
-- `sock_connect` of day3/16_sock_inet/inet_sockets.cpp.
use cpp_rt.Prelude.{
  ℕ, ◌≡◌, refl, ap, ◌∙◌, true, false, Option, none, some, List, [], ◌∷◌, inl, inr, Bool-cases,
  Option-cases,
}
use cpp_rt.InetSockets.Kernel.{AddrInfo, Hints, Kernel}

abbrev pub af_inet : ℕ
af_inet = 2

abbrev pub enosys : ℕ
enosys = 38

-- The descriptors after a call that returns a new one, or fails and leaves them as they were.
abbrev pub with_result : Option ℕ → List ℕ → List ℕ
with_result none fds = fds
with_result (some fd) fds = fd ∷ fds

module _ (k : Kernel) where
  open k use {
    State, open_fds, address_lists, set_errno, getaddrinfo, freeaddrinfo, socket, connect, close,
  }

  -- The loop over the addresses: the first one that a socket connects to.
  unfoldable pub connect_loop : List AddrInfo → State → Option ℕ × State
  connect_loop [] s = (none, s)
  connect_loop (rp ∷ rest) s =
      let go_on = λ (t : State). connect_loop rest t in
      let (sfd, s1) = socket rp.family rp.socktype rp.protocol s in
      elim sfd [
        | none ↦ go_on s1
        | some fd ↦
            let (connected, s2) = connect fd rp.addr s1 in
            elim connected [ true ↦ (some fd, s2) | false ↦ go_on (close fd s2) ]
      ]

  unfoldable pub sock_connect : ℕ → ℕ → ℕ → State → Option ℕ × State
  sock_connect host service type s =
      let (result, s1) =
        getaddrinfo (some host) service
          (record { family = af_inet; socktype = type; passive = false }) s in
      elim result [
        | none ↦ (none, set_errno enosys s1)
        | some addresses ↦ let (sfd, s2) = connect_loop addresses s1 in (sfd, freeaddrinfo s2)
      ]

  -- What a loop over the addresses has done: it has opened what it returns, and nothing else.
  abbrev Opens : State → Option ℕ × State → Type 0
  Opens s r = (open_fds r.1 ≡ with_result r.0 (open_fds s)) × (address_lists r.1 ≡ address_lists s)

  -- A later state with the same descriptors and lists serves as well.
  Opens-from :
      {s t : State} (r : Option ℕ × State)
      → open_fds t ≡ open_fds s
      → address_lists t ≡ address_lists s
      → Opens t r
      → Opens s r
  Opens-from r f l o = (o.0 ∙ ap (with_result r.0) f, o.1 ∙ l)

  module _ (rp : AddrInfo) (rest : List AddrInfo) (s : State) where
    abbrev opened : Option ℕ × State
    opened = socket rp.family rp.socktype rp.protocol s

    no_socket : opened.0 ≡ none → connect_loop (rp ∷ rest) s ≡ connect_loop rest opened.1
    unfolding connect_loop
    no_socket e = rw (e, connect_loop)

    connects :
        (fd : ℕ)
        → opened.0 ≡ some fd
        → (connect fd rp.addr opened.1).0 ≡ true
        → connect_loop (rp ∷ rest) s ≡ (some fd, (connect fd rp.addr opened.1).1)
    unfolding connect_loop
    connects fd e c = rw (e, connect_loop) (rw c)

    refused :
        (fd : ℕ)
        → opened.0 ≡ some fd
        → (connect fd rp.addr opened.1).0 ≡ false
        → connect_loop (rp ∷ rest) s ≡ connect_loop rest (close fd (connect fd rp.addr opened.1).1)
    unfolding connect_loop
    refused fd e c = rw (e, connect_loop) (rw c)

    -- The descriptor is open until the connection is refused and it is closed.
    while_open :
        (fd : ℕ)
        → opened.0 ≡ some fd
        → (open_fds (connect fd rp.addr opened.1).1 ≡ fd ∷ open_fds s)
          × (address_lists (connect fd rp.addr opened.1).1 ≡ address_lists s)
    while_open fd e = (
      (k.connect-keeps fd rp.addr opened.1).0
          ∙ k.socket-some rp.family rp.socktype rp.protocol s fd e,
      (k.connect-keeps fd rp.addr opened.1).1 ∙ k.socket-lists rp.family rp.socktype rp.protocol s,
    )

  connect_loop-Opens : (addresses : List AddrInfo) (s : State) → Opens s (connect_loop addresses s)
  connect_loop-Opens [] s = unfold connect_loop in (refl, refl)
  connect_loop-Opens (rp ∷ rest) s = elim (Option-cases (opened rp rest s).0) [
    | inl e ↦ rw (no_socket rp rest s e) (
        Opens-from (connect_loop rest (opened rp rest s).1) (k.socket-none _ _ _ s e)
          (k.socket-lists _ _ _ s) (connect_loop-Opens rest (opened rp rest s).1))
    | inr (fd, e) ↦ elim (Bool-cases (connect fd rp.addr (opened rp rest s).1).0) [
      | inl c ↦ rw (connects rp rest s fd e c) (while_open rp rest s fd e)
      | inr c ↦
          let (o, l) = while_open rp rest s fd e in
          rw (refused rp rest s fd e c) (
            Opens-from (connect_loop rest (close fd (connect fd rp.addr (opened rp rest s).1).1))
              (k.close-newest fd (open_fds s) _ o) (k.close-lists fd _ ∙ l)
              (connect_loop-Opens rest (close fd (connect fd rp.addr (opened rp rest s).1).1)))
    ]
  ]

  -- `sock_connect` leaks nothing, on every path and for every answer of the system: afterwards the
  -- descriptor that it returns is open besides those before, or none if it returns -1, and what
  -- `getaddrinfo` allocated is freed.
  pub sock_connect-Opens :
      (host service type : ℕ) (s : State)
      → let r = sock_connect host service type s in
        (open_fds r.1 ≡ with_result r.0 (open_fds s)) × (address_lists r.1 ≡ address_lists s)
  unfolding sock_connect
  sock_connect-Opens host service type s =
      let hints : Hints = record { family = af_inet; socktype = type; passive = false } in
      let found = getaddrinfo (some host) service hints s in
      elim (Option-cases found.0) [
        | inl e ↦
            rw (e, sock_connect)
              (
                (k.set_errno-keeps enosys found.1).0
                    ∙ k.getaddrinfo-fds (some host) service hints s,
                (k.set_errno-keeps enosys found.1).1
                    ∙ k.getaddrinfo-none (some host) service hints s e,
              )
        | inr (l, e) ↦
            let r = connect_loop l found.1 in
            let o = connect_loop-Opens l found.1 in
            rw (e, sock_connect)
              (
                k.freeaddrinfo-fds r.1
                    ∙ (o.0 ∙ ap (with_result r.0) (k.getaddrinfo-fds (some host) service hints s)),
                k.freeaddrinfo-lists r.1 (address_lists s)
                    (o.1 ∙ k.getaddrinfo-some (some host) service hints s l e),
              )
      ]
