-- ===== src/Reactor/Server/Keeping.antt =====
-- What handling an event and running a functor leave of a loop.
use echoserver.Prelude.{ℕ, ◌≡◌, refl, Bool, false, List, [], ◌∷◌, arith}
use echoserver.Reactor.TcpConnection.{TcpConnection}
use echoserver.Reactor.EventLoop.{
  Functor, Callback, on_connection, on_message, on_close, Loop, run_functor, receive_task,
  handle_new_connection, handle_message, add_epoll_read_event, del_epoll_read_event,
}
use echoserver.Reactor.EventLoop.Dispatch.{
  Ready, dispatch, run_callbacks, after_receive, nothing_done,
}
use echoserver.Reactor.Server.{is_wakeup}

-- No functor is taken or added, and the eventfd is as it was.
abbrev pub Keeps : Loop → Loop → Type 0
Keeps l l' = (l'.pending_functors ≡ l.pending_functors) × (l'.signals ≡ l.signals)

receive_task-Keeps : (fd : ℕ) (l : Loop) → Keeps l (receive_task fd l).1
unfolding receive_task
receive_task-Keeps fd l = (ground arith, ground arith)

handle_message-Keeps :
    (removed : Bool) (fd : ℕ) (l : Loop) → Keeps l (handle_message removed fd l).1
unfolding handle_message del_epoll_read_event
handle_message-Keeps removed fd l = (ground arith, ground arith)

handle_new_connection-Keeps :
    (added : Bool) (fd : ℕ) (c : TcpConnection) (l : Loop)
    → Keeps l (handle_new_connection added fd c l).1
unfolding handle_new_connection add_epoll_read_event
handle_new_connection-Keeps added fd c l = (ground arith, ground arith)

run_callbacks-Keeps :
    (callbacks : List Callback) (l : Loop) → Keeps l (run_callbacks callbacks l).loop
unfolding run_callbacks nothing_done after_receive
run_callbacks-Keeps [] l = (refl, refl)
run_callbacks-Keeps (on_connection fd ∷ rest) l = (refl, refl)
run_callbacks-Keeps (on_close fd ∷ rest) l = (refl, refl)
run_callbacks-Keeps (on_message fd ∷ rest) l = ground (arith, receive_task-Keeps fd l)

pub dispatch-Keeps : (r : Ready) (l : Loop) → is_wakeup r l ≡ false → Keeps l (dispatch r l).loop
unfolding dispatch
dispatch-Keeps r l h =
    let met = handle_new_connection-Keeps r.controlled r.accepted r.conn l in
    let heard = handle_message-Keeps r.controlled r.fd l in
    ground (
      arith,
      met,
      heard,
      run_callbacks-Keeps _ (handle_new_connection r.controlled r.accepted r.conn l).1,
      run_callbacks-Keeps (handle_message r.controlled r.fd l).0
          (handle_message r.controlled r.fd l).1,
    )

pub run_functor-Keeps : (f : Functor) (l : Loop) → Keeps l (run_functor f l).1
unfolding run_functor
run_functor-Keeps f l = (ground arith, ground arith)
