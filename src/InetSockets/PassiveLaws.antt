-- ===== src/InetSockets/PassiveLaws.antt =====
-- What `sock_create_passive` of day3/16_sock_inet/inet_sockets.cpp leaves open.
use cpp_rt.Prelude.{
  ℕ, ◌≡◌, refl, ap, ◌∙◌, Bool, true, false, Option, none, some, List, [], ◌∷◌, inl, inr, Bool-cases,
  Option-cases,
}
use cpp_rt.InetSockets.Kernel.{AddrInfo, Kernel}
use cpp_rt.InetSockets.Connect.{with_result}
use cpp_rt.InetSockets.Passive.{
  Found, bound, exhausted, aborted, found_fd, prepare, bind_loop, start_listening, finish,
  sock_create_passive, sock_listen, sock_bind,
}

module _ (k : Kernel) where
  open k use {
    State, open_fds, address_lists, getaddrinfo, freeaddrinfo, socket, bind, listen, close,
  }

  abbrev Same : State → State → Type 0
  Same s t = (open_fds t ≡ open_fds s) × (address_lists t ≡ address_lists s)

  abbrev Opens : Option ℕ → State → State → Type 0
  Opens fd s t = (open_fds t ≡ with_result fd (open_fds s)) × (address_lists t ≡ address_lists s)

  Opens-from : {s t u : State} (fd : Option ℕ) → Same s t → Opens fd t u → Opens fd s u
  Opens-from fd f o = (o.0 ∙ ap (with_result fd) f.0, o.1 ∙ f.1)

  prepare-Same : (do_listen : Bool) (fd : ℕ) (s : State) → Same s (prepare k do_listen fd s).1
  unfolding prepare
  prepare-Same true fd s = k.reuse_address-keeps fd s
  prepare-Same false fd s = (refl, refl)

  start_listening-Same :
      (do_listen : Bool) (fd backlog : ℕ) (s : State)
      → Same s (start_listening k do_listen fd backlog s).1
  unfolding start_listening
  start_listening-Same true fd backlog s = k.listen-keeps fd backlog s
  start_listening-Same false fd backlog s = (refl, refl)

  module _ (d : Bool) (rp : AddrInfo) (rest : List AddrInfo) (s : State) where
    abbrev opened : Option ℕ × State
    opened = socket rp.family rp.socktype rp.protocol s

    abbrev prepared : ℕ → Bool × State
    prepared fd = prepare k d fd opened.1

    abbrev tried : ℕ → Bool × State
    tried fd = bind fd rp.addr (prepared fd).1

    no_socket : opened.0 ≡ none → bind_loop k d (rp ∷ rest) s ≡ bind_loop k d rest opened.1
    unfolding bind_loop
    no_socket e = rw (e, bind_loop)

    unprepared :
        (fd : ℕ)
        → opened.0 ≡ some fd
        → (prepared fd).0 ≡ false
        → bind_loop k d (rp ∷ rest) s ≡ (aborted, close fd (prepared fd).1)
    unfolding bind_loop
    unprepared fd e p = rw (e, bind_loop) (rw p)

    binds :
        (fd : ℕ)
        → opened.0 ≡ some fd
        → (prepared fd).0 ≡ true
        → (tried fd).0 ≡ true
        → bind_loop k d (rp ∷ rest) s ≡ (bound fd rp.addrlen, (tried fd).1)
    unfolding bind_loop
    binds fd e p b = rw (e, bind_loop) (rw p (rw b))

    refused :
        (fd : ℕ)
        → opened.0 ≡ some fd
        → (prepared fd).0 ≡ true
        → (tried fd).0 ≡ false
        → bind_loop k d (rp ∷ rest) s ≡ bind_loop k d rest (close fd (tried fd).1)
    unfolding bind_loop
    refused fd e p b = rw (e, bind_loop) (rw p (rw b))

    at_prepare : (fd : ℕ) → opened.0 ≡ some fd → Opens (some fd) s (prepared fd).1
    at_prepare fd e = (
      (prepare-Same d fd opened.1).0 ∙ k.socket-some rp.family rp.socktype rp.protocol s fd e,
      (prepare-Same d fd opened.1).1 ∙ k.socket-lists rp.family rp.socktype rp.protocol s,
    )

    at_bind : (fd : ℕ) → opened.0 ≡ some fd → Opens (some fd) s (tried fd).1
    at_bind fd e = (
      (k.bind-keeps fd rp.addr (prepared fd).1).0 ∙ (at_prepare fd e).0,
      (k.bind-keeps fd rp.addr (prepared fd).1).1 ∙ (at_prepare fd e).1,
    )

    after_close : (fd : ℕ) {t : State} → Opens (some fd) s t → Same s (close fd t)
    after_close fd {t} o = (k.close-newest fd (open_fds s) t o.0, k.close-lists fd t ∙ o.1)

  -- The loop leaves one descriptor more if it has bound it, and none otherwise.
  bind_loop-Opens :
      (d : Bool) (addresses : List AddrInfo) (s : State)
      → Opens (found_fd (bind_loop k d addresses s).0) s (bind_loop k d addresses s).1
  bind_loop-Opens d [] s = unfold bind_loop in (refl, refl)
  bind_loop-Opens d (rp ∷ rest) s = elim (Option-cases (opened d rp rest s).0) [
    | inl e ↦
        let r = bind_loop k d rest (opened d rp rest s).1 in
        rw (no_socket d rp rest s e) (
          Opens-from (found_fd r.0) (k.socket-none _ _ _ s e, k.socket-lists _ _ _ s)
            (bind_loop-Opens d rest (opened d rp rest s).1))
    | inr (fd, e) ↦ elim (Bool-cases (prepared d rp rest s fd).0) [
      | inr p ↦
          rw (unprepared d rp rest s fd e p)
            (after_close d rp rest s fd (at_prepare d rp rest s fd e))
      | inl p ↦ elim (Bool-cases (tried d rp rest s fd).0) [
        | inl b ↦ rw (binds d rp rest s fd e p b) (at_bind d rp rest s fd e)
        | inr b ↦
            let t = close fd (tried d rp rest s fd).1 in
            rw (refused d rp rest s fd e p b) (
              Opens-from (found_fd (bind_loop k d rest t).0)
                (after_close d rp rest s fd (at_bind d rp rest s fd e)) (bind_loop-Opens d rest t))
      ]
    ]
  ]

  -- The state before and after the loop of a call, when the lookup succeeds.
  abbrev looked_up : ℕ → ℕ → State → Option (List AddrInfo) × State
  looked_up service type s =
      getaddrinfo none service (record { family = 2; socktype = type; passive = true }) s

  freed :
      (s t : State) (fd : Option ℕ) {l : List AddrInfo} (service type : ℕ)
      → (looked_up service type s).0 ≡ some l
      → Opens fd (looked_up service type s).1 t
      → (open_fds (freeaddrinfo t) ≡ with_result fd (open_fds s))
        × (address_lists (freeaddrinfo t) ≡ address_lists s)
  freed s t fd {l} service type e o = (
    k.freeaddrinfo-fds t ∙ (o.0 ∙ ap (with_result fd) (k.getaddrinfo-fds none service _ s)),
    k.freeaddrinfo-lists t (address_lists s) (o.1 ∙ k.getaddrinfo-some none service _ s l e),
  )

  -- The end of a call that does not fail at `listen`.
  finish-Opens :
      (d w : Bool) (backlog : ℕ) (f : Found) (s t : State) {l : List AddrInfo} (service type : ℕ)
      → ((fd : ℕ) (u : State) → (start_listening k d fd backlog u).0 ≡ true)
      → (looked_up service type s).0 ≡ some l
      → Opens (found_fd f) (looked_up service type s).1 t
      → Opens (finish k d w backlog f t).0.sfd s (finish k d w backlog f t).1
  unfolding finish
  finish-Opens d w backlog (bound fd n) s t service type ok e o =
      let same = start_listening-Same d fd backlog t in
      rw (finish, ok fd t)
        (freed s (start_listening k d fd backlog t).1 (some fd) service type e
          (same.0 ∙ o.0, same.1 ∙ o.1))
  finish-Opens d w backlog exhausted s t service type ok e o = freed s t none service type e o
  finish-Opens d w backlog aborted s t service type ok e o = freed s t none service type e o

  passive-Opens :
      (service type : ℕ) (w d : Bool) (backlog : ℕ) (s : State)
      → ((fd : ℕ) (u : State) → (start_listening k d fd backlog u).0 ≡ true)
      → let r = sock_create_passive k service type w d backlog s in Opens r.0.sfd s r.1
  unfolding sock_create_passive
  passive-Opens service type w d backlog s ok = elim (Option-cases (looked_up service type s).0) [
    | inl e ↦
        rw (e, sock_create_passive)
          (k.getaddrinfo-fds none service _ s, k.getaddrinfo-none none service _ s e)
    | inr (l, e) ↦
        let r = bind_loop k d l (looked_up service type s).1 in
        rw (e, sock_create_passive)
          (finish-Opens d w backlog r.0 s r.1 service type ok e
            (bind_loop-Opens d l (looked_up service type s).1))
  ]

  -- `sock_bind` leaks nothing, on every path: afterwards the descriptor that it returns is open
  -- besides those before, or none if it returns -1, and the address list is freed.
  pub sock_bind-Opens :
      (service type : ℕ) (w : Bool) (s : State)
      → let r = sock_bind k service type w s in
        (open_fds r.1 ≡ with_result r.0.sfd (open_fds s)) × (address_lists r.1 ≡ address_lists s)
  unfolding sock_bind start_listening
  sock_bind-Opens service type w s = passive-Opens service type w false 0 s (λ fd u. refl)

  -- `sock_listen` leaks nothing either if `listen` never fails.
  pub sock_listen-Opens :
      (service backlog : ℕ) (w : Bool) (s : State)
      → ((fd : ℕ) (u : State) → (listen fd backlog u).0 ≡ true)
      → let r = sock_listen k service backlog w s in
        (open_fds r.1 ≡ with_result r.0.sfd (open_fds s)) × (address_lists r.1 ≡ address_lists s)
  unfolding sock_listen start_listening
  sock_listen-Opens service backlog w s ok = passive-Opens service 1 w true backlog s ok

  -- Whenever the loop of `sock_listen` has bound a socket and `listen` then fails, the call returns
  -- -1 and leaves that socket open: the caller cannot close it.
  pub sock_listen-leaks :
      (service backlog : ℕ) (w : Bool) (s : State) (l : List AddrInfo) (fd n : ℕ)
      → (getaddrinfo none service (record { family = 2; socktype = 1; passive = true }) s).0
        ≡ some l
      → (bind_loop k true l
          (getaddrinfo none service (record { family = 2; socktype = 1; passive = true }) s).1).0
        ≡ bound fd n
      → (listen fd backlog
          (bind_loop k true l
            (getaddrinfo none service
              (record { family = 2; socktype = 1; passive = true })
              s).1).1).0
        ≡ false
      → let r = sock_listen k service backlog w s in
        (r.0.sfd ≡ none) × (open_fds r.1 ≡ fd ∷ open_fds s) × (address_lists r.1 ≡ address_lists s)
  unfolding sock_listen finish start_listening
  sock_listen-leaks service backlog w s l fd n e b f =
      let t = (bind_loop k true l (looked_up service 1 s).1).1 in
      let o = bind_loop-Opens true l (looked_up service 1 s).1 in
      let same = k.listen-keeps fd backlog t in
      let (fds, lists) =
        freed s (listen fd backlog t).1 (some fd) service 1 e
          (same.0 ∙ (rw b at o.0), same.1 ∙ o.1) in
      rw (e, sock_create_passive) (rw (b, finish) (rw f (refl, fds, lists)))
