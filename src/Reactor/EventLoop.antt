-- ===== src/Reactor/EventLoop.antt =====
-- wd_reactor_server/Reactor_v4/EventLoop.cc, with the callbacks of TestTcpServer.cc: the connections
-- by descriptor, the descriptors that epoll watches, and the messages that wait to be sent.
-- A descriptor is an `int` as a number, -1 as 2 ^ 32 - 1. A functor is `send` on a connection.
-- The answers of `epoll_ctl` are arguments. What goes to the thread pool is returned.
pub mod Watched
pub mod Dispatch
pub mod Conns
mod Tests
use echoserver.Prelude.{
  ℕ, zero, suc, ◌+◌, Bool, true, false, Option, none, some, List, [], ◌∷◌, ◌++◌, ◌==◌,
  if◌then◌else◌,
}
use echoserver.EventLoop.{lookup, erase}
use echoserver.Reactor.SocketIo.{Outcome, returns}
use echoserver.Reactor.TcpConnection.{TcpConnection, send, receive, is_closed}

-- `sendInLoop` of a connection, from a task.
pub record Functor : Type 0 where
  pub conn : ℕ
  pub message : List ℕ

pub data Callback : Type 0 where
  on_connection : ℕ → Callback
  on_message : ℕ → Callback
  on_close : ℕ → Callback

pub record Loop : Type 0 where
  pub acceptor_fd : ℕ
  pub event_fd : ℕ
  pub is_looping : Bool
  pub conns : List (ℕ × TcpConnection)
  pub watched : List ℕ
  pub pending_functors : List Functor
  pub signals : ℕ

abbrev pub contains : ℕ → List ℕ → Bool
contains fd [] = false
contains fd (x ∷ xs) = if x == fd then true else contains fd xs

abbrev pub remove : ℕ → List ℕ → List ℕ
remove fd [] = []
remove fd (x ∷ xs) = if x == fd then remove fd xs else x ∷ remove fd xs

unfoldable pub add_epoll_read_event : Bool → ℕ → Loop → Loop
add_epoll_read_event added fd l = if added then record l { watched = fd ∷ l.watched } else l

unfoldable pub del_epoll_read_event : Bool → ℕ → Loop → Loop
del_epoll_read_event removed fd l =
    if removed then record l { watched = remove fd l.watched } else l

unfoldable pub create : ℕ → ℕ → Bool → Bool → Loop
unfolding add_epoll_read_event
create acceptor event added_acceptor added_event = add_epoll_read_event added_event event (
    add_epoll_read_event added_acceptor acceptor (record {
      acceptor_fd = acceptor;
      event_fd = event;
      is_looping = false;
      conns = [];
      watched = [];
      pending_functors = [];
      signals = 0;
    }))

-- The destructor closes the descriptor of epoll and the eventfd.
unfoldable pub close_fds : ℕ → Loop → List ℕ
close_fds epfd l = epfd ∷ l.event_fd ∷ []

unfoldable pub unloop : Loop → Loop
unloop l = record l { is_looping = false }

unfoldable pub wakeup : Loop → Loop
wakeup l = record l { signals = l.signals + 1 }

unfoldable pub handle_read : Loop → Loop
handle_read l = record l { signals = 0 }

unfoldable pub run_in_loop : Functor → Loop → Loop
unfolding wakeup
run_in_loop functor l =
    wakeup (record l { pending_functors = l.pending_functors ++ (functor ∷ []) })

-- `insert` leaves an entry that is there.
unfoldable pub insert : ℕ → TcpConnection → List (ℕ × TcpConnection) → List (ℕ × TcpConnection)
insert fd c conns = elim (lookup fd conns) [ none ↦ (fd, c) ∷ conns | some old ↦ conns ]

abbrev pub update : ℕ → TcpConnection → List (ℕ × TcpConnection) → List (ℕ × TcpConnection)
update fd c [] = []
update fd c ((key, old) ∷ rest) =
    if key == fd then (key, c) ∷ rest else (key, old) ∷ update fd c rest

-- `accept`'s result is used as it is.
unfoldable pub handle_new_connection : Bool → ℕ → TcpConnection → Loop → List Callback × Loop
unfolding add_epoll_read_event insert
handle_new_connection added fd c l = (
  on_connection fd ∷ [],
  add_epoll_read_event added fd (record l { conns = insert fd c l.conns }),
)

unfoldable pub handle_message : Bool → ℕ → Loop → List Callback × Loop
unfolding del_epoll_read_event
handle_message removed fd l = elim (lookup fd l.conns) [
  | none ↦ ([], l)
  | some conn ↦
      let (closed, c) = is_closed conn in
      let l' = record l { conns = update fd c l.conns } in
      if closed
      then (
        on_close fd ∷ [],
        let l'' = del_epoll_read_event removed fd l' in record l'' { conns = erase fd l''.conns },
      )
      else (on_message fd ∷ [], l')
]

-- A functor that sends, with whether it found its connection. It holds a bare pointer, which is kept
-- as the descriptor: where no connection has it, one that is gone is used after its end. What `send`
-- moves is up to the kernel, and `sendInLoop` does not look at it. A descriptor that was closed and
-- given to a new connection finds that one here, where the code is undefined.
unfoldable pub run_functor : Functor → Loop → Bool × Loop
run_functor f l = elim (lookup f.conn l.conns) [
  | none ↦ (false, l)
  | some c ↦ (true, record l { conns = update f.conn (send f.message c) l.conns })
]

unfoldable pub run_functors : List Functor → Loop → Bool × Loop
unfolding run_functor
run_functors [] l = (true, l)
run_functors (f ∷ fs) l =
    let (alive, l') = run_functor f l in
    let (later, l'') = run_functors fs l' in (if alive then later else false, l'')

unfoldable pub do_pending_functors : Loop → Bool × Loop
unfolding run_functors
do_pending_functors l = run_functors l.pending_functors (record l { pending_functors = [] })

-- `onMessage` of TestTcpServer.cc: the task for the thread pool, where `receive` returns.
unfoldable pub receive_task : ℕ → Loop → Option Functor × Loop
receive_task fd l = elim (lookup fd l.conns) [
  | none ↦ (none, l)
  | some conn ↦
      let (outcome, message, c) = receive conn in
      let l' = record l { conns = update fd c l.conns } in
      (elim outcome [ returns ↦ some (record { conn = fd; message = message }) | _ ↦ none ], l')
]

-- `Task::process`, in a thread of the pool.
unfoldable pub process : Functor → Loop → Loop
unfolding run_in_loop
process task l = run_in_loop task l
