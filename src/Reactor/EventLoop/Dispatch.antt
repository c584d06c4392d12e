-- ===== src/Reactor/EventLoop/Dispatch.antt =====
-- wd_reactor_server/Reactor_v4/EventLoop.cc: one round of the loop around `epoll_wait`, with the
-- callbacks of TestTcpServer.cc, of which `onMessage` is the one that changes something.
-- What `accept` and `epoll_ctl` answer comes with the descriptor that is ready.
use echoserver.Prelude.{
  ℕ, Bool, true, false, Option, none, some, List, [], ◌∷◌, ◌++◌, ◌==◌, if◌then◌else◌,
}
use echoserver.Reactor.TcpConnection.{TcpConnection}
use echoserver.Reactor.EventLoop.{
  Functor, Callback, on_connection, on_message, on_close, Loop, handle_new_connection,
  handle_message, handle_read, do_pending_functors, receive_task,
}

pub record Ready : Type 0 where
  pub fd : ℕ
  pub accepted : ℕ
  pub conn : TcpConnection
  pub controlled : Bool

pub data Polled : Type 0 where
  interrupted : Polled
  poll_fails : Polled
  times_out : Polled
  shows_ready : List Ready → Polled

-- The tasks for the pool, and whether the thread goes on. It does not where a functor finds no
-- connection, or where `receive` does not return.
pub record Done : Type 0 where
  pub tasks : List Functor
  pub goes_on : Bool
  pub loop : Loop

unfoldable pub nothing_done : Loop → Done
nothing_done l = record { tasks = []; goes_on = true; loop = l }

unfoldable pub after_receive : Option Functor → Loop → Done
after_receive none l = record { tasks = []; goes_on = false; loop = l }
after_receive (some task) l = record { tasks = task ∷ []; goes_on = true; loop = l }

-- A handler calls at most one callback, the last thing that it does.
unfoldable pub run_callbacks : List Callback → Loop → Done
unfolding receive_task after_receive nothing_done
run_callbacks [] l = nothing_done l
run_callbacks (on_message fd ∷ rest) l = let (task, l') = receive_task fd l in after_receive task l'
run_callbacks (on_connection fd ∷ rest) l = nothing_done l
run_callbacks (on_close fd ∷ rest) l = nothing_done l

-- The body of the loop over the descriptors that are ready, in its three cases.
unfoldable pub dispatch : Ready → Loop → Done
unfolding handle_new_connection handle_read do_pending_functors handle_message run_callbacks
dispatch r l =
    if r.fd == l.acceptor_fd
    then (let (callbacks, l') = handle_new_connection r.controlled r.accepted r.conn l in
        run_callbacks callbacks l')
    else (if r.fd == l.event_fd
        then (let (alive, l') = do_pending_functors (handle_read l) in
            record { tasks = []; goes_on = alive; loop = l' })
        else (let (callbacks, l') = handle_message r.controlled r.fd l in
            run_callbacks callbacks l'))

unfoldable pub dispatch_all : List Ready → Loop → Done
unfolding dispatch nothing_done
dispatch_all [] l = nothing_done l
dispatch_all (r ∷ rs) l =
    let first = dispatch r l in
    let later = dispatch_all rs first.loop in
    if first.goes_on then record later { tasks = first.tasks ++ later.tasks } else first

unfoldable pub wait_epoll_fd : Polled → Loop → Done
unfolding dispatch_all nothing_done
wait_epoll_fd (shows_ready rs) l = dispatch_all rs l
wait_epoll_fd interrupted l = nothing_done l
wait_epoll_fd poll_fails l = nothing_done l
wait_epoll_fd times_out l = nothing_done l

-- The rounds of `loop`, with one answer of `epoll_wait` for each. Between two rounds other threads
-- act on the loop.
unfoldable pub rounds : List (Polled × (Loop → Loop)) → Loop → Done
unfolding wait_epoll_fd nothing_done
rounds [] l = nothing_done l
rounds ((answer, others) ∷ later) l =
    let first = wait_epoll_fd answer l in
    let rest = rounds later (others first.loop) in
    if l.is_looping
    then (if first.goes_on then record rest { tasks = first.tasks ++ rest.tasks } else first)
    else nothing_done l

unfoldable pub loop : List (Polled × (Loop → Loop)) → Loop → Done
unfolding rounds
loop answers l = rounds answers (record l { is_looping = true })
