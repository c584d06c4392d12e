-- ===== src/Reactor/TcpServer.antt =====
-- wd_reactor_server/Reactor_v4: Socket.cc, Acceptor.cc and TcpServer.cc, and the end of a connection
-- in TcpConnection.cc. An operation takes the kernel's answers and gives the system calls that it
-- makes, in order, and whether it reports a failure with `perror`.
-- A descriptor is a number, -1 as 2 ^ 32 - 1.
mod Starting
mod Ending
use echoserver.Prelude.{
  ℕ, zero, suc, ◌-◌, ◌^◌, Bool, true, false, not, List, [], ◌∷◌, ◌++◌, if◌then◌else◌,
}
use echoserver.Prelude.Syscall.{Syscall, done, failed}
use echoserver.Reactor.InetAddress.{Network, InetAddress, of_ip}
use echoserver.Reactor.TcpConnection.{TcpConnection, shutdown}
use echoserver.Reactor.EventLoop as Event
use echoserver.Reactor.EventLoop.{Loop, unloop}
use echoserver.Reactor.EventLoop.Dispatch.{Polled, Done, loop}

pub data Call : Type 0 where
  opens : Call
  sets_reuse_addr : ℕ → Bool → Call
  sets_reuse_port : ℕ → Bool → Call
  binds : ℕ → InetAddress → Call
  listens : ℕ → ℕ → Call
  accepts : ℕ → Call
  shuts_down : ℕ → Call
  closes : ℕ → Call

abbrev pub no_fd : ℕ
no_fd = 2 ^ 32 - 1

-- What a call of the kernel gives as a descriptor.
abbrev pub fd_of : Syscall ℕ → ℕ
fd_of (done fd) = fd
fd_of (failed e) = no_fd

abbrev pub fails {ℓ} : {A : Type ℓ} → Syscall A → Bool
fails (done a) = false
fails (failed e) = true

-- The constructor of `Socket`.
unfoldable pub open_socket : Syscall ℕ → ℕ × Bool × List Call
open_socket answer = (fd_of answer, fails answer, opens ∷ [])

pub record Acceptor : Type 0 where
  pub addr : InetAddress
  pub listensock : ℕ

unfoldable pub set_reuse_addr : Bool → Syscall (Unit {0}) → Acceptor → Bool × List Call
set_reuse_addr on answer a = (fails answer, sets_reuse_addr a.listensock on ∷ [])

unfoldable pub set_reuse_port : Bool → Syscall (Unit {0}) → Acceptor → Bool × List Call
set_reuse_port on answer a = (fails answer, sets_reuse_port a.listensock on ∷ [])

unfoldable pub bind : Syscall (Unit {0}) → Acceptor → Bool × List Call
bind answer a = (fails answer, binds a.listensock a.addr ∷ [])

unfoldable pub listen : Syscall (Unit {0}) → Acceptor → Bool × List Call
listen answer a = (fails answer, listens a.listensock 128 ∷ [])

unfoldable pub accept : Syscall ℕ → Acceptor → ℕ × Bool × List Call
accept answer a = (fd_of answer, fails answer, accepts a.listensock ∷ [])

-- The kernel's answers to the four calls of `ready`.
pub record Answers : Type 0 where
  pub to_reuse_addr : Syscall (Unit {0})
  pub to_reuse_port : Syscall (Unit {0})
  pub to_bind : Syscall (Unit {0})
  pub to_listen : Syscall (Unit {0})

unfoldable pub ready : Answers → Acceptor → List Bool × List Call
unfolding set_reuse_addr set_reuse_port bind listen
ready answers a =
    let (first, calls) = set_reuse_addr true answers.to_reuse_addr a in
    let (second, calls') = set_reuse_port true answers.to_reuse_port a in
    let (third, calls'') = bind answers.to_bind a in
    let (fourth, calls''') = listen answers.to_listen a in
    (first ∷ second ∷ third ∷ fourth ∷ [], calls ++ (calls' ++ (calls'' ++ calls''')))

pub record TcpServer : Type 0 where
  pub acceptor : Acceptor
  pub server_loop : Loop

-- The descriptors of the listening socket and of the eventfd, and whether epoll watches them.
unfoldable pub create_server :
    Network → ℕ → List ℕ → Syscall ℕ → Syscall ℕ → Bool → Bool → TcpServer
unfolding open_socket of_ip Event.create
create_server net port ip socket event added added' =
    let (fd, failure, calls) = open_socket socket in
    record {
      acceptor = record { addr = of_ip net ip port; listensock = fd };
      server_loop = Event.create fd (fd_of event) added added';
    }

-- The reports and the calls of `ready`, and what the loop does.
unfoldable pub start :
    Answers → List (Polled × (Loop → Loop)) → TcpServer → List Bool × List Call × Done
unfolding ready loop
start answers rounds s =
    let (reports, calls) = ready answers s.acceptor in (reports, calls, loop rounds s.server_loop)

unfoldable pub stop : TcpServer → TcpServer
unfolding unloop
stop s = record s { server_loop = unloop s.server_loop }

-- `shutdown` of a connection on a descriptor.
unfoldable pub shutdown_on : ℕ → TcpConnection → List Call × TcpConnection
unfolding shutdown
shutdown_on fd c = let (now, c') = shutdown c in ((if now then shuts_down fd ∷ [] else []), c')

-- The destructor of `TcpConnection`, then that of its `Socket`.
unfoldable pub destroy : ℕ → TcpConnection → List Call
unfolding shutdown_on
destroy fd c =
    let (calls, c') = shutdown_on fd c in
    (if not c.is_shutdown_write then calls else []) ++ (closes fd ∷ [])
