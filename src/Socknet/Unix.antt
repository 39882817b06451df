-- ===== src/Socknet/Unix.antt =====
-- day3/socknet/net/unix_socket.cpp: the class `unix_socket`. A string is the list of its bytes.
use cpp_rt.Prelude.{
  ℕ, zero, suc, ◌+◌, ◌-◌, ◌%◌, ◌^◌, Bool, true, false, Option, none, some, List, [], ◌∷◌, ◌++◌,
  length, take, drop, ltb, leb, if◌then◌else◌,
}
use cpp_rt.Socknet.Kernel.{Kernel}
use cpp_rt.Socknet.Base.{
  SocketException, Message, path_too_long, connect_failed, bind_failed, local_path_failed,
  foreign_path_failed, BaseSocket, Process, destroy,
}

-- `sockaddr_un`; `sun_path` is an array of 108 bytes.
pub record SockaddrUn : Type 0 where
  pub sun_family : ℕ
  pub sun_path : List ℕ

-- How a function ends. `length_error` is the exception of a `std::string` that is too long.
pub data Ending (A : Type 0) : Type 0 where
  value : A → Ending A
  throws : SocketException → Ending A
  length_error : Ending A
  undefined : Ending A

-- What a C function reads of the bytes: up to the first null.
unfoldable pub c_str : List ℕ → List ℕ
c_str [] = []
c_str (zero ∷ xs) = []
c_str (suc c ∷ xs) = suc c ∷ c_str xs

abbrev pub af_unix : ℕ
af_unix = 1

-- `fillAddress`, over what the uninitialised structure holds
unfoldable pub fill_address : List ℕ → SockaddrUn → ℕ → Ending SockaddrUn
fill_address path addr errno =
    if leb 108 (length path)
    then throws (record { message = path_too_long; error_code = errno })
    else value (record {
      sun_family = af_unix;
      sun_path = c_str path ++ 0 ∷ drop (suc (length (c_str path))) addr.sun_path;
    })

-- `extractPath`: the length is a `size_t`, which wraps below 0. A string of more than 2 ^ 63 - 1
-- bytes throws, and one longer than the array reads beyond it.
unfoldable pub extract_path : SockaddrUn → ℕ → Ending (List ℕ)
extract_path addr len =
    let count = (2 ^ 64 + len - 3) % 2 ^ 64 in
    if leb (2 ^ 63) count
    then length_error
    else (if ltb 108 count then undefined else value (take count addr.sun_path))

-- The further system calls, each with the `errno` that it leaves: `bind` and `connect` say whether
-- they succeed, `getsockname` and `getpeername` answer an address with its length, or fail.
pub record UnixKernel (k : Kernel) : Type 1 where
  pub unlink : List ℕ → k.State → k.State
  pub bind : ℕ → List ℕ → Process k.State → Bool × Process k.State
  pub connect : ℕ → List ℕ → Process k.State → Bool × Process k.State
  pub getsockname : ℕ → Process k.State → Option (SockaddrUn × ℕ) × Process k.State
  pub getpeername : ℕ → Process k.State → Option (SockaddrUn × ℕ) × Process k.State

-- How a destructor ends: an exception that leaves it ends the program.
pub data Destruction (S : Type 0) : Type 0 where
  terminated : Destruction S
  faulty : Destruction S
  endless : Destruction S
  destroyed : Process S → Destruction S

abbrev pub failure : {S A : Type 0} → Message → Process S → Ending A
failure m p = throws (record { message = m; error_code = p.errno })

-- The value of a call that ends in `q`, or its exception.
abbrev pub answer_of : {S : Type 0} → Message → Bool → Process S → Ending (Unit {0}) × Process S
answer_of m true q = (value tt, q)
answer_of m false q = (failure m q, q)

abbrev pub path_of :
    {S : Type 0} → Message → Option (SockaddrUn × ℕ) → Process S → Ending (List ℕ) × Process S
path_of m none q = (failure m q, q)
path_of m (some (addr, len)) q = (extract_path addr len, q)

module _ (k : Kernel) (u : UnixKernel k) where
  -- `addr` is what the uninitialised structure holds, in each of the members.
  unfoldable pub connect :
      List ℕ → SockaddrUn → BaseSocket → Process k.State → Ending (Unit {0}) × Process k.State
  unfolding fill_address
  connect path addr x p = elim (fill_address path addr p.errno) [
    | value a ↦ let (ok, q) = u.connect x.socket a.sun_path p in answer_of connect_failed ok q
    | throws e ↦ (throws e, p)
    | length_error ↦ (length_error, p)
    | undefined ↦ (undefined, p)
  ]

  unfoldable pub bind :
      List ℕ → SockaddrUn → BaseSocket → Process k.State → Ending (Unit {0}) × Process k.State
  unfolding fill_address c_str
  bind path addr x p = elim (fill_address path addr p.errno) [
    | value a ↦
        let (ok, q) =
          u.bind x.socket a.sun_path (record p { state = u.unlink (c_str a.sun_path) p.state }) in
        answer_of bind_failed ok q
    | throws e ↦ (throws e, p)
    | length_error ↦ (length_error, p)
    | undefined ↦ (undefined, p)
  ]

  unfoldable pub get_local_path : BaseSocket → Process k.State → Ending (List ℕ) × Process k.State
  unfolding extract_path
  get_local_path x p = let (name, q) = u.getsockname x.socket p in path_of local_path_failed name q

  unfoldable pub get_foreign_path : BaseSocket → Process k.State → Ending (List ℕ) × Process k.State
  unfolding extract_path
  get_foreign_path x p =
      let (name, q) = u.getpeername x.socket p in path_of foreign_path_failed name q

  -- `~base_socket`, which runs last
  abbrev pub close_last : Option (Process k.State) → Destruction k.State
  close_last none = endless
  close_last (some q) = destroyed q

  -- `~unix_socket`
  unfoldable pub destroy_unix : ℕ → SockaddrUn → BaseSocket → Process k.State → Destruction k.State
  unfolding get_local_path fill_address c_str destroy
  destroy_unix fuel addr x p =
      let (path, q) = get_local_path x p in
      elim path [
        | value s ↦ elim (fill_address s addr q.errno) [
          | value a ↦
              close_last
                (destroy k fuel x (record q { state = u.unlink (c_str a.sun_path) q.state }))
          | throws e ↦ terminated
          | length_error ↦ terminated
          | undefined ↦ faulty
        ]
        | throws e ↦ terminated
        | length_error ↦ terminated
        | undefined ↦ faulty
      ]
