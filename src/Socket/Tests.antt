-- ===== src/Socket/Tests.antt =====
-- Concrete sockets, and the conditions of the theorems at them.
use Prim.Native.String.{String}
use echoserver.Socket.Address.{
  Net, NoColon, IsNet, get_peer_address, get_local_address, read_address, read_address-get_address,
}
use echoserver.Prelude.{
  ◌+◌, ◌*◌, ◌/◌, ◌%◌, ℕ, ◌≡◌, refl, true, Option, none, some, List, [], ◌∷◌, arith,
}
use echoserver.Prelude.Syscall.{done}
use echoserver.Socket.{binds, bind, bind_address, create, move_construct, close, accept}
use echoserver.Socket.Ownership.{
  Sockets, Use, declares, creates, accepts_from, moves_into_new, destroys, use_socket, use_all,
  Accounted, use_all-Accounted,
}

abbrev no_addresses : String → Option ℕ
no_addresses text = none

abbrev nothing : Sockets
nothing = record { objects = []; opened = []; closed = [] }

-- A listening socket takes a connection, whose socket is moved, and all are destroyed.
abbrev life : List Use
life =
    declares
    ∷ creates 0 (done 3)
    ∷ accepts_from 0 (done 4)
    ∷ moves_into_new 1
    ∷ destroys 1
    ∷ destroys 2
    ∷ destroys 0
    ∷ []

life_closes : (use_all life nothing).closed ≡ 4 ∷ 3 ∷ []
unfolding use_all use_socket create move_construct close accept
life_closes = refl

use_all-Accounted_example : Accounted (use_all life nothing)
unfolding use_socket create move_construct close accept
use_all-Accounted_example =
    use_all-Accounted life nothing
      (
        tt,
        (
          (omega arith, refl),
          (omega arith, (omega arith, (omega arith, (omega arith, (omega arith, tt))))),
        ),
      )
      (λ d. refl)

port_wraps : bind no_addresses "" 65616 (done tt) (some 3) ≡ (true, binds 3 0 80 ∷ [])
unfolding bind bind_address
port_wraps = refl

-- A stand-in for the two functions: an address is one letter, and a port has its bytes swapped.
abbrev little : Net
little = record { inet_ntop = λ a. 97 ∷ []; ntohs = λ p. p % 256 * 256 + p / 256 % 256 }

little-IsNet : IsNet little
unfolding NoColon
little-IsNet = record { no_colon = λ a. (omega arith, tt); small = λ p. omega arith }

read_address-get_address_example :
    (read_address
        (get_peer_address little (done (record { sin_addr = 1; sin_port = 0x401F })) (some 7))
      ≡ (97 ∷ [], 8000))
    × (read_address
          (get_local_address little (done (record { sin_addr = 1; sin_port = 0x401F })) (some 7))
        ≡ (97 ∷ [], 8000))
read_address-get_address_example =
    read_address-get_address little (done (record { sin_addr = 1; sin_port = 0x401F })) (some 7)
      little-IsNet
