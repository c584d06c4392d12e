-- ===== src/Reactor/Direct/Tests.antt =====
-- A connection that comes in and sends a line, and the condition of the theorem at it.
use echoserver.Prelude.{◌≡◌, refl, true, false, [], ◌∷◌, arith}
use echoserver.Reactor.SocketIo.{handles}
use echoserver.Reactor.TcpConnection.{TcpConnection}
use echoserver.Reactor.EventLoop.{Loop}
use echoserver.Reactor.EventLoop.Dispatch.{Ready}
use echoserver.Reactor.Direct.{dispatch_all}
use echoserver.Reactor.Direct.Same.{direct, answer_all, AllApart, answer_all_is_direct}

abbrev talking : TcpConnection
talking = record {
  incoming = 5 ∷ 6 ∷ 10 ∷ 7 ∷ [];
  recv_script =
      handles 0 ∷ handles 0 ∷ handles 4 ∷ handles 4 ∷ handles 4 ∷ handles 4 ∷ handles 4 ∷ [];
  sent = [];
  send_script = handles 0 ∷ handles 0 ∷ handles 0 ∷ [];
  is_shutdown_write = false;
}

abbrev idle : Loop
idle = record {
  acceptor_fd = 3;
  event_fd = 4;
  is_looping = true;
  conns = [];
  watched = 4 ∷ 3 ∷ [];
  pending_functors = [];
  signals = 0;
}

abbrev comes : Ready
comes = record { fd = 3; accepted = 7; conn = talking; controlled = true }

abbrev says : Ready
says = record { fd = 7; accepted = 0; conn = talking; controlled = true }

events-AllApart : AllApart (comes ∷ says ∷ []) 4
events-AllApart = ground arith

answer_all_is_direct_example :
    ((answer_all (comes ∷ says ∷ []) idle).0 ≡ (dispatch_all (comes ∷ says ∷ []) (direct idle)).0)
    × (direct (answer_all (comes ∷ says ∷ []) idle).1
        ≡ (dispatch_all (comes ∷ says ∷ []) (direct idle)).1)
answer_all_is_direct_example = answer_all_is_direct (comes ∷ says ∷ []) idle events-AllApart refl
