-- ===== src/Reactor/InetAddress.antt =====
-- wd_reactor_server/Reactor_v4/InetAddress.cc: an address and a port as the kernel takes them, and
-- the text of a connection's two addresses (TcpConnection.cc). Texts are lists of characters. The C
-- library's functions are arguments.
use echoserver.Prelude.Syscall.{Syscall, done, failed}
use echoserver.Prelude.{ℕ, Bool, true, false, List, [], ◌∷◌, ◌++◌}
use echoserver.Prelude.Digits.{to_string}

pub record Network : Type 0 where
  pub htons : ℕ → ℕ
  pub ntohs : ℕ → ℕ
  pub inet_addr : List ℕ → ℕ
  pub inet_ntoa : ℕ → List ℕ

pub record InetAddress : Type 0 where
  pub sin_port : ℕ
  pub sin_addr : ℕ

abbrev pub inaddr_any : ℕ
inaddr_any = 0

-- `getsockname` and `getpeername`: where one fails, the failure is reported and the address is
-- whatever was in the variable.
unfoldable pub get_local_addr : Syscall InetAddress → InetAddress → InetAddress × Bool
get_local_addr (done a) unset = (a, false)
get_local_addr (failed e) unset = (unset, true)

unfoldable pub get_peer_addr : Syscall InetAddress → InetAddress → InetAddress × Bool
get_peer_addr (done a) unset = (a, false)
get_peer_addr (failed e) unset = (unset, true)

module _ (net : Network) where
  unfoldable pub of_port : ℕ → InetAddress
  of_port port = record { sin_port = net.htons port; sin_addr = inaddr_any }

  unfoldable pub of_ip : List ℕ → ℕ → InetAddress
  of_ip ip port = record { sin_port = net.htons port; sin_addr = net.inet_addr ip }

  unfoldable pub ip_of : InetAddress → List ℕ
  ip_of a = net.inet_ntoa a.sin_addr

  unfoldable pub port_of : InetAddress → ℕ
  port_of a = net.ntohs a.sin_port

  -- `ip:port`, where a port has at most five digits.
  abbrev pub end_point : InetAddress → List ℕ
  unfolding ip_of port_of
  end_point a = ip_of a ++ (58 ∷ to_string 4 (port_of a))

  -- "tcp ", the local address, " --> ", and the peer's.
  unfoldable pub describe : InetAddress → InetAddress → List ℕ
  unfolding ip_of port_of
  describe local peer =
      (116 ∷ 99 ∷ 112 ∷ 32 ∷ [])
      ++ (end_point local ++ ((32 ∷ 45 ∷ 45 ∷ 62 ∷ 32 ∷ []) ++ end_point peer))
