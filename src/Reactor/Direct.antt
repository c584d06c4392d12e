-- ===== src/Reactor/Direct.antt =====
-- wd_reactor_server/Reactor_v3/EventLoop.cc, with the callbacks of its TestTcpServer.cc: the stage
-- before Reactor_v4, whose loop answers a message at once, without a pool, an eventfd or functors.
-- (Reactor_v2/EventLoop.cc is the same file.) Connections, maps and the answers of the kernel are as
-- in Reactor/EventLoop.
mod Same
mod Tests
use echoserver.Prelude.{
  ℕ, Bool, true, false, Option, none, some, List, [], ◌∷◌, ◌==◌, if◌then◌else◌,
}
use echoserver.EventLoop.{lookup, erase}
use echoserver.Reactor.SocketIo.{Outcome, returns}
use echoserver.Reactor.TcpConnection.{TcpConnection, send, receive, is_closed}
use echoserver.Reactor.EventLoop.{
  Callback, on_connection, on_message, on_close, remove, insert, update,
}
use echoserver.Reactor.EventLoop.Dispatch.{
  Ready, Polled, interrupted, poll_fails, times_out, shows_ready,
}

pub record DirectLoop : Type 0 where
  pub acceptor_fd : ℕ
  pub is_looping : Bool
  pub conns : List (ℕ × TcpConnection)
  pub watched : List ℕ

unfoldable pub add_epoll_read_event : Bool → ℕ → DirectLoop → DirectLoop
add_epoll_read_event added fd l = if added then record l { watched = fd ∷ l.watched } else l

unfoldable pub del_epoll_read_event : Bool → ℕ → DirectLoop → DirectLoop
del_epoll_read_event removed fd l =
    if removed then record l { watched = remove fd l.watched } else l

unfoldable pub create : ℕ → Bool → DirectLoop
unfolding add_epoll_read_event
create acceptor added =
    add_epoll_read_event added acceptor
      (record { acceptor_fd = acceptor; is_looping = false; conns = []; watched = [] })

unfoldable pub unloop : DirectLoop → DirectLoop
unloop l = record l { is_looping = false }

unfoldable pub handle_new_connection :
    Bool → ℕ → TcpConnection → DirectLoop → List Callback × DirectLoop
unfolding add_epoll_read_event insert
handle_new_connection added fd c l = (
  on_connection fd ∷ [],
  add_epoll_read_event added fd (record l { conns = insert fd c l.conns }),
)

unfoldable pub handle_message : Bool → ℕ → DirectLoop → List Callback × DirectLoop
unfolding del_epoll_read_event
handle_message removed fd l = elim (lookup fd l.conns) [
  | none ↦ ([], l)
  | some conn ↦
      let (closed, c) = is_closed conn in
      let l' = record l { conns = update fd c l.conns } in
      if closed
      then (
        on_close fd ∷ [],
        let l'' = del_epoll_read_event removed fd l' in record l'' { conns = erase fd l''.conns },
      )
      else (on_message fd ∷ [], l')
]

-- `onMessage`: whether `receive` returns, after which the message is sent back.
unfoldable pub echo : ℕ → DirectLoop → Bool × DirectLoop
echo fd l = elim (lookup fd l.conns) [
  | none ↦ (false, l)
  | some conn ↦
      let (outcome, message, c) = receive conn in
      elim outcome [
        | returns ↦ (true, record l { conns = update fd (send message c) l.conns })
        | _ ↦ (false, record l { conns = update fd c l.conns })
      ]
]

unfoldable pub run_callbacks : List Callback → DirectLoop → Bool × DirectLoop
unfolding echo
run_callbacks [] l = (true, l)
run_callbacks (on_message fd ∷ rest) l = echo fd l
run_callbacks (on_connection fd ∷ rest) l = (true, l)
run_callbacks (on_close fd ∷ rest) l = (true, l)

-- Whether the thread goes on, and the loop.
unfoldable pub dispatch : Ready → DirectLoop → Bool × DirectLoop
unfolding handle_new_connection handle_message run_callbacks
dispatch r l =
    if r.fd == l.acceptor_fd
    then (let (callbacks, l') = handle_new_connection r.controlled r.accepted r.conn l in
        run_callbacks callbacks l')
    else (let (callbacks, l') = handle_message r.controlled r.fd l in run_callbacks callbacks l')

unfoldable pub dispatch_all : List Ready → DirectLoop → Bool × DirectLoop
unfolding dispatch
dispatch_all [] l = (true, l)
dispatch_all (r ∷ rs) l =
    let (goes_on, l') = dispatch r l in
    let later = dispatch_all rs l' in if goes_on then later else (false, l')

unfoldable pub wait_epoll_fd : Polled → DirectLoop → Bool × DirectLoop
unfolding dispatch_all
wait_epoll_fd (shows_ready rs) l = dispatch_all rs l
wait_epoll_fd interrupted l = (true, l)
wait_epoll_fd poll_fails l = (true, l)
wait_epoll_fd times_out l = (true, l)

-- The rounds of `loop`, as in Reactor/EventLoop/Dispatch.
unfoldable pub rounds : List (Polled × (DirectLoop → DirectLoop)) → DirectLoop → Bool × DirectLoop
unfolding wait_epoll_fd
rounds [] l = (true, l)
rounds ((answer, others) ∷ later) l =
    let (goes_on, l') = wait_epoll_fd answer l in
    let rest = rounds later (others l') in
    if l.is_looping then (if goes_on then rest else (false, l')) else (true, l)

unfoldable pub loop : List (Polled × (DirectLoop → DirectLoop)) → DirectLoop → Bool × DirectLoop
unfolding rounds
loop answers l = rounds answers (record l { is_looping = true })
