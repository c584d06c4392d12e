-- ===== src/Reactor/EventLoop/Tests.antt =====
-- Concrete connections, and the conditions of the theorems at them.
use echoserver.Prelude.{◌≡◌, refl, inl, true, false, [], ◌∷◌, ◌++◌, arith}
use echoserver.Reactor.SocketIo.{handles, first_line, recv_peek, returns}
use echoserver.Prelude.Bytes.{c_string}
use echoserver.Reactor.TcpConnection.{TcpConnection, receive, send, is_closed}
use echoserver.Reactor.TcpConnection.Echo.{Healthy, next_line, echo_line}
use echoserver.Reactor.EventLoop.{
  Loop, create, add_epoll_read_event, handle_message, process, do_pending_functors,
}
use echoserver.Reactor.EventLoop.Watched.{
  Watches, connects, happen, happen-Watches, message_outlives_connection,
}

-- A line of two bytes, and the start of the next.
abbrev talking : TcpConnection
talking = record {
  incoming = 5 ∷ 6 ∷ 10 ∷ 7 ∷ [];
  recv_script =
      handles 0 ∷ handles 0 ∷ handles 4 ∷ handles 4 ∷ handles 4 ∷ handles 4 ∷ handles 4 ∷ [];
  sent = [];
  send_script = handles 0 ∷ handles 0 ∷ handles 0 ∷ [];
  is_shutdown_write = false;
}

line_is_there : next_line talking ≡ 5 ∷ 6 ∷ 10 ∷ []
unfolding first_line
line_is_there = refl

talking-Healthy : Healthy talking
unfolding first_line
talking-Healthy = record {
  receives = refl;
  enough = omega arith;
  ready = inl refl;
  sends = refl;
  room = omega arith;
}

echo_line_example :
    let (outcome, message, received) = receive talking in
    (outcome ≡ returns)
    × ((send message received).sent ≡ c_string (next_line talking))
    × (next_line talking ++ (send message received).incoming ≡ 5 ∷ 6 ∷ 10 ∷ 7 ∷ [])
echo_line_example = echo_line talking talking-Healthy

abbrev closing : TcpConnection
closing = record talking { incoming = [] }

abbrev started : Loop
started = create 3 4 true true

started-Watches : Watches started
unfolding create add_epoll_read_event
started-Watches fd = ground arith

happen-Watches_example : Watches (happen (connects 7 talking) started)
unfolding create add_epoll_read_event
happen-Watches_example = happen-Watches (connects 7 talking) started refl started-Watches

abbrev connected : Loop
connected = record {
  acceptor_fd = 3;
  event_fd = 4;
  is_looping = true;
  conns = (7, closing) ∷ [];
  watched = 7 ∷ 4 ∷ 3 ∷ [];
  pending_functors = [];
  signals = 0;
}

peer_has_closed : (is_closed closing).0 ≡ true
unfolding is_closed recv_peek
peer_has_closed = refl

message_outlives_connection_example :
    (do_pending_functors
      (handle_message true 7 (process (record { conn = 7; message = 5 ∷ 6 ∷ [] }) connected)).1).0
    ≡ false
message_outlives_connection_example =
    message_outlives_connection 7 (5 ∷ 6 ∷ []) closing connected refl peer_has_closed refl
