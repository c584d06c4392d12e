-- ===== src/System.antt =====
-- The echo server with its worker threads (src/echo_server.cpp), put together from the other parts:
-- the main loop accepts and removes connections, each worker's `EventLoop` handles the events and
-- tasks of its own connections, and `Connection` moves the bytes.
-- The server has at least one worker. A handler is known by the name of its connection, and that of
-- the eventfd by 0, which is no name. Of the main loop only the tasks that `removeConnection` posts
-- to it are kept. A `Connection` object stays in `peers` after its last owner has gone.
pub mod Steps
pub mod Clients
pub mod OwnBytes
pub mod Posts
pub mod Births
pub mod Phases
pub mod Living
pub mod Rounds
pub mod Removing
pub mod Accepting
pub mod Echoing
pub mod Dangling
pub mod Draining
pub mod Delivering
pub mod Stopping
mod Tests
use echoserver.Prelude.{
  ℕ, ◌+◌, min, Bool, true, false, ◌||◌, Option, none, some, List, [], ◌∷◌, ◌++◌, ◌==◌,
  if◌then◌else◌, length, get_or, set,
}
use echoserver.Prelude.Syscall.{Syscall, done, failed, ewouldblock}
use echoserver.Buffer.{readable_bytes}
use echoserver.Handler.{
  EventHandler, Callback, on_close, on_error, on_read, on_write, epollin, handle_events,
}
use echoserver.Connection.{
  Connection, Effect, sends, shuts_down_write, adds_handler, updates_handler, removes_handler,
  calls_close, calls_error, posts, M, set_message_callback, set_close_callback, set_error_callback,
  set_write_complete_callback,
}
use echoserver.Connection.Operations
use echoserver.Connection.Operations.{
  is_fault, handle_read, handle_write, handle_close, handle_error, default_message_callback,
  establish_in_loop, destroy_in_loop,
}
use echoserver.Connection.Lifecycle.{idle}
use echoserver.Connection.Transfers.{sent}
use echoserver.Peer.{
  Script, Peer, new_connection, handler_of, takes, bytes_read, member_function, act_on, next,
  next_answers, faults_in, handle_callback,
}
use echoserver.EventLoop.{
  EventLoop, Host, lookup, assign, run_in_loop, add_handler, update_handler, remove_handler,
  handle_wakeup, max_events,
}
use echoserver.EchoServer.{
  EchoServer, Action, creates_connection, posts_removal, handle_new_connection, remove_connection,
  remove_connection_in_loop,
}

-- The tasks that the server posts to a worker: the lambdas of `establishConnection` and
-- `destroyConnection` of the connection with this name.
pub data Job : Type 0 where
  establishes : ℕ → Job
  destroys : ℕ → Job

pub record System : Type 0 where
  pub server : EchoServer
  pub loops : List (EventLoop Job)
  pub peers : List (ℕ × Peer)
  pub removals : List ℕ

abbrev pub main_thread : ℕ
main_thread = 0

-- A loop that is not there.
abbrev pub no_loop : EventLoop Job
no_loop = record {
  running = false;
  quit = true;
  handlers = [];
  active_events = max_events;
  pending_tasks = [];
  loop_thread_id = 1;
  signals = 0;
}

abbrev pub loop_at : ℕ → System → EventLoop Job
loop_at i s = get_or s.loops i no_loop

abbrev pub put_loop : ℕ → EventLoop Job → System → System
put_loop i l s = record s { loops = set s.loops i l }

-- What the server does on the close and error callbacks, in a worker's thread.
unfoldable pub report_removal : ℕ → System → System
unfolding remove_connection
report_removal name s = elim (remove_connection false name s.server).0 [
  | posts_removal removed ∷ rest ↦ record s { removals = s.removals ++ (removed ∷ []) }
  | _ ↦ s
]

-- What a connection asks of its loop and of the server, in the loop's thread, where `epoll_ctl`
-- succeeds.
unfoldable pub carry_out : ℕ → ℕ → ℕ → List Effect → System → System
unfolding add_handler update_handler remove_handler report_removal
carry_out i name fd [] s = s
carry_out i name fd (adds_handler mask ∷ es) s =
    let l = loop_at i s in
    carry_out i name fd es
      (put_loop i (add_handler l.loop_thread_id (establishes name) fd name (done tt) l) s)
carry_out i name fd (removes_handler ∷ es) s =
    let l = loop_at i s in
    carry_out i name fd es
      (put_loop i (remove_handler l.loop_thread_id (destroys name) fd (done tt) l) s)
carry_out i name fd (calls_close ∷ es) s = carry_out i name fd es (report_removal name s)
carry_out i name fd (calls_error ∷ es) s = carry_out i name fd es (report_removal name s)
carry_out i name fd (_ ∷ es) s = carry_out i name fd es s

-- An action on the connection of this name, in the thread of loop `i`.
unfoldable pub perform : ℕ → ℕ → (Peer → Peer × List Effect) → System → System
unfolding carry_out
perform i name f s = elim (lookup name s.peers) [
  | none ↦ s
  | some p ↦ carry_out i name p.conn.fd (f p).1 (record s { peers = assign name (f p).0 s.peers })
]

-- A callback of the handler of the eventfd, or of a connection's.
unfoldable pub on_callback : ℕ → ℕ → Callback → System → System
unfolding perform handle_callback handle_wakeup
on_callback i name callback s =
    if name == 0
    then put_loop i (handle_wakeup (loop_at i s)) s
    else perform i name (handle_callback callback) s

unfoldable pub deliver : ℕ → ℕ → List Callback → System → System
unfolding on_callback
deliver i name [] s = s
deliver i name (callback ∷ callbacks) s = deliver i name callbacks (on_callback i name callback s)

-- The handler that the constructor of `EventLoop` makes for the eventfd.
unfoldable pub wakeup_handler : EventHandler
wakeup_handler = record {
  fd = 0;
  events = epollin;
  read_callback = true;
  write_callback = false;
  error_callback = false;
  close_callback = false;
}

-- The callbacks that an event makes a handler call.
abbrev pub callbacks_of : ℕ → ℕ → System → List Callback
callbacks_of name events s =
    if name == 0 then handle_events wakeup_handler events else elim (lookup name s.peers) [
      | none ↦ []
      | some p ↦ handle_events (handler_of p.conn) events
    ]

unfoldable pub run_job : ℕ → Job → System → System
unfolding perform act_on establish_in_loop destroy_in_loop
run_job i (establishes name) s = perform i name (act_on establish_in_loop []) s
run_job i (destroys name) s = perform i name (act_on destroy_in_loop []) s

-- The loop of worker `i` in the system.
unfoldable pub host : ℕ → Host System Job
unfolding deliver run_job handle_events handler_of wakeup_handler
host i = record {
  loop = loop_at i;
  put = put_loop i;
  call = λ name events s. deliver i name (callbacks_of name events s) s;
  execute = run_job i;
}

-- `runInLoop` of the main thread for a worker's loop.
unfoldable pub post : ℕ → Job → System → System
unfolding run_in_loop run_job
post i job s =
    let (now, l) = run_in_loop main_thread job (loop_at i s) in
    elim now [ none ↦ put_loop i l s | some ran ↦ run_job i ran (put_loop i l s) ]

-- To the loop of the connection of this name.
unfoldable pub post_to_owner : ℕ → Job → System → System
unfolding post
post_to_owner name job s = elim (lookup name s.peers) [ none ↦ s | some p ↦ post p.io_loop job s ]

-- What the main loop's handlers ask for; a new connection has this descriptor and script.
unfoldable pub carry_action : ℕ → Script → Action → System → System
unfolding new_connection post_to_owner
carry_action fd script (creates_connection name (some i)) s = record s {
  peers =
      assign name
        (record {
          conn = new_connection name fd;
          io_loop = i;
          script = script;
          received = [];
          sent_back = [];
          faults = 0;
        })
        s.peers;
}
carry_action fd script (Action.establishes name) s = post_to_owner name (establishes name) s
carry_action fd script (Action.destroys name) s = post_to_owner name (destroys name) s
carry_action fd script _ s = s

unfoldable pub carry_actions : ℕ → Script → List Action → System → System
unfolding carry_action
carry_actions fd script [] s = s
carry_actions fd script (action ∷ actions) s =
    carry_actions fd script actions (carry_action fd script action s)

-- The acceptor's handler, where `accept` gives a socket.
unfoldable pub accept : ℕ → Script → System → System
unfolding carry_actions handle_new_connection
accept fd script s =
    let (actions, server) = handle_new_connection true s.server in
    carry_actions fd script actions (record s { server = server })

abbrev pub no_script : Script
no_script = record { reads = []; replies = [] }

-- A task of the main loop.
unfoldable pub remove : ℕ → System → System
unfolding carry_actions remove_connection_in_loop
remove name s =
    let (actions, server) = remove_connection_in_loop name s.server in
    carry_actions 0 no_script actions (record s { server = server })

unfoldable pub remove_all : List ℕ → System → System
unfolding remove
remove_all [] s = s
remove_all (name ∷ names) s = remove_all names (remove name s)

-- The main loop runs its tasks and lets go of them, and no worker goes on meanwhile.
unfoldable pub run_removals : System → System
unfolding remove_all
run_removals s = remove_all s.removals (record s { removals = [] })
