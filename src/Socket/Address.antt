-- ===== src/Socket/Address.antt =====
-- src/socket.cpp: the texts of the addresses of a socket. What `getpeername` or `getsockname`
-- answers is an argument, and so are `inet_ntop`, which gives the text of an address without a
-- colon, and `ntohs`, which reads a 16-bit number in network order.
use echoserver.Prelude.{
  ℕ, ◌<◌, ◌^◌, ◌≡◌, ◌≢◌, refl, ap, ◌∙◌, false, none, some, List, [], ◌∷◌, ◌++◌, ◌==◌, if◌then◌else◌,
  arith,
}
use echoserver.Prelude.Digits.{to_string, read_decimal, read_decimal-to_string}
use echoserver.Prelude.Syscall.{Syscall, done, failed}
use echoserver.Socket.{Socket}

-- `sockaddr_in`: the address and the port, as the kernel writes them.
pub record SockAddr : Type 0 where
  pub sin_addr : ℕ
  pub sin_port : ℕ

pub record Net : Type 0 where
  pub inet_ntop : ℕ → List ℕ
  pub ntohs : ℕ → ℕ

abbrev pub colon : ℕ
colon = 58

-- "invalid"
abbrev pub invalid : List ℕ
invalid = 105 ∷ 110 ∷ 118 ∷ 97 ∷ 108 ∷ 105 ∷ 100 ∷ []

-- "unknown"
abbrev pub unknown : List ℕ
unknown = 117 ∷ 110 ∷ 107 ∷ 110 ∷ 111 ∷ 119 ∷ 110 ∷ []

module _ (net : Net) where
  -- A port has at most five digits.
  unfoldable pub format_address : SockAddr → List ℕ
  format_address addr =
      net.inet_ntop addr.sin_addr ++ (colon ∷ to_string 4 (net.ntohs addr.sin_port))

  unfoldable pub get_peer_address : Syscall SockAddr → Socket → List ℕ
  unfolding format_address
  get_peer_address answer none = invalid ++ (colon ∷ 48 ∷ [])
  get_peer_address (failed e) (some fd) = unknown ++ (colon ∷ 48 ∷ [])
  get_peer_address (done addr) (some fd) = format_address addr

  unfoldable pub get_local_address : Syscall SockAddr → Socket → List ℕ
  unfolding format_address
  get_local_address answer none = invalid ++ (colon ∷ 48 ∷ [])
  get_local_address (failed e) (some fd) = unknown ++ (colon ∷ 48 ∷ [])
  get_local_address (done addr) (some fd) = format_address addr

-- A reader of such texts: what stands before the first colon, and the number behind it.
unfoldable pub read_address : List ℕ → List ℕ × ℕ
read_address [] = ([], 0)
read_address (c ∷ text) =
    let (host, port) = read_address text in
    if c == colon then ([], read_decimal 0 text) else (c ∷ host, port)

unfoldable pub NoColon : List ℕ → Type 0
NoColon [] = Unit {0}
NoColon (c ∷ text) = (c ≢ colon) × NoColon text

-- What is documented of the two functions.
pub record IsNet (net : Net) : Type 0 where
  pub no_colon : (a : ℕ) → NoColon (net.inet_ntop a)
  pub small : (p : ℕ) → net.ntohs p < 2 ^ 16

read_address-append :
    (host text : List ℕ)
    → NoColon host
    → read_address (host ++ (colon ∷ text)) ≡ (host, read_decimal 0 text)
unfolding read_address NoColon
read_address-append [] text h = refl
read_address-append (c ∷ host) text (h, hs) =
    let other : c == colon ≡ false = ground (arith, h) in
    rw (other, read_address-append host text hs) refl

read_address-format_address :
    (net : Net) (addr : SockAddr)
    → IsNet net
    → read_address (format_address net addr)
      ≡ (net.inet_ntop addr.sin_addr, net.ntohs addr.sin_port)
unfolding format_address
read_address-format_address net addr h =
    let port : ℕ = net.ntohs addr.sin_port in
    read_address-append (net.inet_ntop addr.sin_addr) (to_string 4 port) (h.no_colon addr.sin_addr)
    ∙ ap (λ p. (net.inet_ntop addr.sin_addr, p))
        (read_decimal-to_string 4 port (omega (arith, h.small addr.sin_port)))

-- What the reader is to find.
abbrev pub host_and_port : Net → Syscall SockAddr → Socket → List ℕ × ℕ
host_and_port net answer none = (invalid, 0)
host_and_port net (failed e) (some fd) = (unknown, 0)
host_and_port net (done addr) (some fd) = (net.inet_ntop addr.sin_addr, net.ntohs addr.sin_port)

-- Reading the text of either address of a socket back gives the text of the address and the port in
-- full, and for a socket that is not open, or whose address the kernel does not give, the words
-- "invalid" or "unknown" with port 0.
pub read_address-get_address :
    (net : Net) (answer : Syscall SockAddr) (s : Socket)
    → IsNet net
    → (read_address (get_peer_address net answer s) ≡ host_and_port net answer s)
      × (read_address (get_local_address net answer s) ≡ host_and_port net answer s)
unfolding get_peer_address get_local_address
read_address-get_address net answer none h = unfold read_address in (refl, refl)
read_address-get_address net (failed e) (some fd) h = unfold read_address in (refl, refl)
read_address-get_address net (done addr) (some fd) h =
    (read_address-format_address net addr h, read_address-format_address net addr h)
