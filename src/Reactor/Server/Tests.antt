-- ===== src/Reactor/Server/Tests.antt =====
-- Concrete orders of the threads of a server, and the conditions of the theorems at them.
use echoserver.Prelude.Bytes.{c_string}
use echoserver.Prelude.{◌<◌, ◌≡◌, ◌≢◌, refl, true, false, [], ◌∷◌, arith}
use echoserver.Reactor.SocketIo.{handles as answers_with, recv_peek, readn, first_line, readline}
use echoserver.Reactor.TcpConnection.{TcpConnection, receive, is_closed}
use echoserver.Reactor.EventLoop.{Loop, handle_message, receive_task, wakeup}
use echoserver.Reactor.EventLoop.Dispatch.{
  Ready, dispatch, run_callbacks, after_receive, nothing_done,
}
use echoserver.Reactor.Server.{
  polling, Server, serve, tests, polls, handles, processes, signals, ends_round, Reach, here, next,
}
use echoserver.Reactor.Server.Wakeup.{functor_is_signalled}

abbrev talking : TcpConnection
talking = record {
  incoming = 5 ∷ 6 ∷ 10 ∷ 7 ∷ [];
  recv_script =
      answers_with 0
      ∷ answers_with 0
      ∷ answers_with 4
      ∷ answers_with 4
      ∷ answers_with 4
      ∷ answers_with 4
      ∷ answers_with 4
      ∷ [];
  sent = [];
  send_script = answers_with 0 ∷ answers_with 0 ∷ answers_with 0 ∷ [];
  is_shutdown_write = false;
}

abbrev idle : Loop
idle = record {
  acceptor_fd = 3;
  event_fd = 4;
  is_looping = false;
  conns = (7, talking) ∷ [];
  watched = 7 ∷ 4 ∷ 3 ∷ [];
  pending_functors = [];
  signals = 0;
}

abbrev says : Ready
says = record { fd = 7; accepted = 0; conn = talking; controlled = true }

abbrev Run : Type 0
Run = (s : Server) × Reach (serve idle) s

-- A message is received, its task is processed, and the loop waits again.
abbrev waits : Run
unfolding dispatch handle_message is_closed recv_peek run_callbacks after_receive nothing_done
    receive_task receive readn first_line readline c_string wakeup
waits = (
  _,
  next
      (next
        (next
          (next
            (next (next (next here (tests refl)) (polls (says ∷ []) refl))
              (handles says [] refl refl))
            (processes [] [] _ refl))
          (signals 0 refl))
        (ends_round refl))
      (tests refl),
)

received_one : waits.0.loop.pending_functors ≡ (record { conn = 7; message = 5 ∷ 6 ∷ 10 ∷ [] }) ∷ []
unfolding dispatch handle_message is_closed recv_peek run_callbacks after_receive nothing_done
    receive_task receive readn first_line readline c_string wakeup
received_one = refl

waits_now : waits.0.phase ≡ polling
unfolding dispatch handle_message is_closed recv_peek run_callbacks after_receive nothing_done
    receive_task receive readn first_line readline c_string wakeup
waits_now = refl

none_posts : waits.0.posting ≡ 0
unfolding dispatch handle_message is_closed recv_peek run_callbacks after_receive nothing_done
    receive_task receive readn first_line readline c_string wakeup
none_posts = refl

one_pending : waits.0.loop.pending_functors ≢ []
one_pending = ground (arith, received_one)

functor_is_signalled_example : 0 < waits.0.loop.signals
functor_is_signalled_example =
    functor_is_signalled idle waits.0 refl waits.1 waits_now none_posts one_pending
