-- ===== src/Socknet/Paths.antt =====
-- day3/socknet/net/unix_socket.cpp: the paths of local sockets.
use cpp_rt.Prelude.{
  ℕ, zero, suc, ◌+◌, ◌<◌, ◌≡◌, refl, ap, some, List, [], ◌∷◌, ◌++◌, length, take, drop, length-drop,
  length-append, arith,
}
use cpp_rt.Socknet.Kernel.{Kernel}
use cpp_rt.Socknet.Base.{BaseSocket, Process, destroy}
use cpp_rt.Socknet.Unix.{
  SockaddrUn, value, c_str, af_unix, fill_address, extract_path, UnixKernel, terminated,
  get_local_path, close_last, destroy_unix,
}

c_str-append : (xs ys : List ℕ) → c_str (xs ++ 0 ∷ ys) ≡ c_str xs
unfolding c_str
c_str-append [] ys = refl
c_str-append (zero ∷ xs) ys = refl
c_str-append (suc x ∷ xs) ys = ap (λ t. suc x ∷ t) (c_str-append xs ys)

take-append : (xs ys : List ℕ) → take (length xs) (xs ++ ys) ≡ xs
take-append [] ys = refl
take-append (x ∷ xs) ys = ap (λ t. x ∷ t) (take-append xs ys)

-- A name as the system answers it: the path, its null, and the rest of the array.
abbrev pub Names : SockaddrUn → List ℕ → Type 0
Names a path = (length a.sun_path ≡ 108) × ((rest : List ℕ) × (a.sun_path ≡ path ++ 0 ∷ rest))

filled : List ℕ → SockaddrUn → SockaddrUn
filled path addr = record {
  sun_family = af_unix;
  sun_path = path ++ 0 ∷ drop (suc (length path)) addr.sun_path;
}

fill_address-filled :
    (path : List ℕ) (addr : SockaddrUn) (e : ℕ)
    → length path < 108
    → c_str path ≡ path
    → fill_address path addr e ≡ value (filled path addr)
unfolding fill_address filled
fill_address-filled path addr e lt text = rw text (ground arith)

extract_path-Names :
    (a : SockaddrUn) (path : List ℕ)
    → length path < 108
    → Names a path
    → extract_path a (length path + 3) ≡ value path
unfolding extract_path
extract_path-Names a path lt (size, (rest, e)) = ground (arith, e, take-append path (0 ∷ rest))

-- Round trip: a path without a null byte and of less than 108 bytes, written by `fillAddress` over
-- any array of 108 bytes, gives an address that names it within the array; and `extractPath` reads
-- it back at the length that the system answers for it.
pub fill_address-extract_path :
    (path : List ℕ) (addr : SockaddrUn) (errno : ℕ)
    → c_str path ≡ path
    → length path < 108
    → length addr.sun_path ≡ 108
    → (a : SockaddrUn) × (fill_address path addr errno ≡ value a)
      × Names a path
      × (extract_path a (length path + 3) ≡ value path)
unfolding filled
fill_address-extract_path path addr errno text lt size =
    let n : Names (filled path addr) path = (
      omega (
        arith,
        size,
        length-drop (suc (length path)) addr.sun_path,
        length-append path (0 ∷ drop (suc (length path)) addr.sun_path),
      ),
      (drop (suc (length path)) addr.sun_path, refl),
    ) in
    (
      filled path addr,
      fill_address-filled path addr errno lt text,
      n,
      extract_path-Names (filled path addr) path lt n,
    )

module _ (k : Kernel) (u : UnixKernel k) where
  get_local_path-Names :
      (a : SockaddrUn) (x : BaseSocket) (p q : Process k.State) (path : List ℕ)
      → length path < 108
      → Names a path
      → u.getsockname x.socket p ≡ (some (a, length path + 3), q)
      → get_local_path k u x p ≡ (value path, q)
  unfolding get_local_path
  get_local_path-Names a x p q path lt n e =
      rw (e, get_local_path) (rw (extract_path-Names a path lt n) refl)

  destroy_unix-named :
      (fuel : ℕ) (addr a : SockaddrUn) (x : BaseSocket) (p q : Process k.State) (path : List ℕ)
      → c_str path ≡ path
      → length path < 108
      → Names a path
      → u.getsockname x.socket p ≡ (some (a, length path + 3), q)
      → destroy_unix k u fuel addr x p
        ≡ close_last k u (destroy k fuel x (record q { state = u.unlink path q.state }))
  unfolding destroy_unix filled
  destroy_unix-named fuel addr a x p q path text lt n e =
      let local = get_local_path-Names a x p q path lt n e in
      rw (ap (λ r. r.0) local, destroy_unix)
        (rw (ap (λ r. r.1.errno) local) (
          rw (fill_address-filled path addr q.errno lt text) (
            rw (c_str-append path (drop (suc (length path)) addr.sun_path), text)
              (ap
                (λ r.
                  close_last k u
                    (destroy k fuel x (record r.1 { state = u.unlink path r.1.state })))
                local))))

  destroy_unix-unnamed :
      (fuel : ℕ) (addr a : SockaddrUn) (x : BaseSocket) (p q : Process k.State)
      → u.getsockname x.socket p ≡ (some (a, 2), q)
      → destroy_unix k u fuel addr x p ≡ terminated
  unfolding destroy_unix get_local_path extract_path
  destroy_unix-unnamed fuel addr a x p q e = rw (e, destroy_unix, get_local_path) refl

  -- The destructor of a socket `x` for which the system answers a path (of less than 108 bytes and
  -- without a null byte) unlinks exactly that path and then closes the descriptor. That of a socket
  -- `y` without a name, for which the system answers the length of `sun_family` alone, ends the
  -- program: the length of the path wraps, and the exception of the string leaves the destructor.
  pub destroy_unix-unlinks :
      (fuel : ℕ) (addr a b : SockaddrUn) (x y : BaseSocket) (p q r s : Process k.State)
      (path : List ℕ)
      → c_str path ≡ path
      → length path < 108
      → Names a path
      → u.getsockname x.socket p ≡ (some (a, length path + 3), q)
      → u.getsockname y.socket r ≡ (some (b, 2), s)
      → (destroy_unix k u fuel addr x p
          ≡ close_last k u (destroy k fuel x (record q { state = u.unlink path q.state })))
        × (destroy_unix k u fuel addr y r ≡ terminated)
  destroy_unix-unlinks fuel addr a b x y p q r s path text lt n e f = (
    destroy_unix-named fuel addr a x p q path text lt n e,
    destroy_unix-unnamed fuel addr b y r s f,
  )
