-- ===== src/InetSockets/Kernel.antt =====
-- The system calls of day3/16_sock_inet/inet_sockets.cpp, as a parameter. What a call answers is
-- open; the laws state what the calls do to the process's descriptors and to the lists that
-- `getaddrinfo` allocates. A failure is `none`, or `false`.
use cpp_rt.Prelude.{ℕ, suc, ◌≡◌, Bool, Option, none, some, List, ◌∷◌}

-- `struct addrinfo`, one entry of a list
pub record AddrInfo : Type 0 where
  pub family : ℕ
  pub socktype : ℕ
  pub protocol : ℕ
  pub addr : ℕ
  pub addrlen : ℕ

-- The fields of `hints` that the program sets; the others are 0.
pub record Hints : Type 0 where
  pub family : ℕ
  pub socktype : ℕ
  pub passive : Bool

pub record Kernel : Type 1 where
  pub State : Type 0
  -- The descriptors that the process has open, the newest first.
  pub open_fds : State → List ℕ
  -- How many results of `getaddrinfo` have not been freed.
  pub address_lists : State → ℕ
  pub set_errno : ℕ → State → State
  pub getaddrinfo : Option ℕ → ℕ → Hints → State → Option (List AddrInfo) × State
  pub freeaddrinfo : State → State
  pub socket : ℕ → ℕ → ℕ → State → Option ℕ × State
  pub connect : ℕ → ℕ → State → Bool × State
  pub reuse_address : ℕ → State → Bool × State
  pub bind : ℕ → ℕ → State → Bool × State
  pub listen : ℕ → ℕ → State → Bool × State
  pub close : ℕ → State → State
  pub set_errno-keeps :
      (e : ℕ) (s : State)
      → (open_fds (set_errno e s) ≡ open_fds s) × (address_lists (set_errno e s) ≡ address_lists s)
  pub getaddrinfo-fds :
      (h : Option ℕ) (v : ℕ) (i : Hints) (s : State) → open_fds (getaddrinfo h v i s).1 ≡ open_fds s
  pub getaddrinfo-some :
      (h : Option ℕ) (v : ℕ) (i : Hints) (s : State) (l : List AddrInfo)
      → (getaddrinfo h v i s).0 ≡ some l
      → address_lists (getaddrinfo h v i s).1 ≡ suc (address_lists s)
  pub getaddrinfo-none :
      (h : Option ℕ) (v : ℕ) (i : Hints) (s : State)
      → (getaddrinfo h v i s).0 ≡ none
      → address_lists (getaddrinfo h v i s).1 ≡ address_lists s
  pub freeaddrinfo-fds : (s : State) → open_fds (freeaddrinfo s) ≡ open_fds s
  pub freeaddrinfo-lists :
      (s : State) (n : ℕ) → address_lists s ≡ suc n → address_lists (freeaddrinfo s) ≡ n
  pub socket-some :
      (f t p : ℕ) (s : State) (fd : ℕ)
      → (socket f t p s).0 ≡ some fd
      → open_fds (socket f t p s).1 ≡ fd ∷ open_fds s
  pub socket-none :
      (f t p : ℕ) (s : State) → (socket f t p s).0 ≡ none → open_fds (socket f t p s).1 ≡ open_fds s
  pub socket-lists : (f t p : ℕ) (s : State) → address_lists (socket f t p s).1 ≡ address_lists s
  pub connect-keeps :
      (fd a : ℕ) (s : State)
      → (open_fds (connect fd a s).1 ≡ open_fds s)
        × (address_lists (connect fd a s).1 ≡ address_lists s)
  pub reuse_address-keeps :
      (fd : ℕ) (s : State)
      → (open_fds (reuse_address fd s).1 ≡ open_fds s)
        × (address_lists (reuse_address fd s).1 ≡ address_lists s)
  pub bind-keeps :
      (fd a : ℕ) (s : State)
      → (open_fds (bind fd a s).1 ≡ open_fds s) × (address_lists (bind fd a s).1 ≡ address_lists s)
  pub listen-keeps :
      (fd n : ℕ) (s : State)
      → (open_fds (listen fd n s).1 ≡ open_fds s)
        × (address_lists (listen fd n s).1 ≡ address_lists s)
  pub close-newest :
      (fd : ℕ) (fds : List ℕ) (s : State) → open_fds s ≡ fd ∷ fds → open_fds (close fd s) ≡ fds
  pub close-lists : (fd : ℕ) (s : State) → address_lists (close fd s) ≡ address_lists s
