-- ===== src/Reactor/TcpServer/Starting.antt =====
-- What `TcpServer::start` asks of the kernel.
use echoserver.Prelude.{ℕ, ◌≡◌, ◌≢◌, refl, true, List, [], ◌∷◌, arith}
use echoserver.Prelude.Syscall.{Syscall}
use echoserver.Reactor.InetAddress.{Network, of_ip}
use echoserver.Reactor.EventLoop as Event
use echoserver.Reactor.EventLoop.{Loop, unloop}
use echoserver.Reactor.EventLoop.Watched.{Watches}
use echoserver.Reactor.EventLoop.Dispatch.{Polled}
use echoserver.Reactor.TcpServer.{
  sets_reuse_addr, sets_reuse_port, binds, listens, fd_of, open_socket, Answers, set_reuse_addr,
  set_reuse_port, bind, listen, ready, create_server, start,
}

-- A server starts on the address and the port that it was given: for any answers of the kernel it
-- sets both options of the listening socket, binds it to the address with the port in network order
-- and listens with a backlog of 128, in this order and all on the one descriptor that `accept` and
-- epoll use.
pub start-calls :
    (net : Network) (port : ℕ) (ip : List ℕ) (socket event : Syscall ℕ) (answers : Answers)
    (rounds : List (Polled × (Loop → Loop)))
    → let server = create_server net port ip socket event true true in
      ((start answers rounds server).1
        ≡ sets_reuse_addr (fd_of socket) true
          ∷ sets_reuse_port (fd_of socket) true
          ∷ binds (fd_of socket) (of_ip net ip port)
          ∷ listens (fd_of socket) 128
          ∷ [])
      × (server.server_loop.acceptor_fd ≡ fd_of socket)
      × (fd_of socket ≢ fd_of event → Watches server.server_loop)
unfolding create_server open_socket of_ip Event.create Event.add_epoll_read_event start ready
    set_reuse_addr set_reuse_port bind listen
start-calls net port ip socket event answers rounds = (refl, refl, λ apart fd. ground arith)
