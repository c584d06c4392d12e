-- ===== src/Peer.antt =====
-- A connection of the server as its worker meets it: src/connection.cpp under the callbacks that
-- src/echo_server.cpp sets, with the kernel's answers to `readv` and `send` and the bytes that came in
-- and went out.
-- A script has the answers in order; a callback that may send takes one, used or not. Where they end
-- they fail with EWOULDBLOCK.
pub mod Honest
pub mod Exact
pub mod Progress
use echoserver.Prelude.{
  ℕ, ◌+◌, min, Bool, true, false, ◌||◌, Option, none, some, List, [], ◌∷◌, ◌++◌, ◌==◌,
  if◌then◌else◌, length, get_or, set,
}
use echoserver.Prelude.Syscall.{Syscall, done, failed, ewouldblock}
use echoserver.Buffer.{readable_bytes}
use echoserver.Handler.{
  EventHandler, Callback, on_close, on_error, on_read, on_write, epollin, handle_events,
}
use echoserver.Connection.{
  Connection, Effect, sends, shuts_down_write, adds_handler, updates_handler, removes_handler,
  calls_close, calls_error, posts, M, set_message_callback, set_close_callback, set_error_callback,
  set_write_complete_callback,
}
use echoserver.Connection.Operations
use echoserver.Connection.Operations.{
  is_fault, handle_read, handle_write, handle_close, handle_error, default_message_callback,
  establish_in_loop, destroy_in_loop,
}
use echoserver.Connection.Lifecycle.{idle}
use echoserver.Connection.Transfers.{sent}
use echoserver.EventLoop.{
  EventLoop, Host, lookup, assign, run_in_loop, add_handler, update_handler, remove_handler,
  handle_wakeup, max_events,
}
use echoserver.EchoServer.{
  EchoServer, Action, creates_connection, posts_removal, handle_new_connection, remove_connection,
  remove_connection_in_loop,
}

-- The answers to `readv` and to `send`, in order.
pub record Script : Type 0 where
  pub reads : List (Syscall (List ℕ))
  pub replies : List (Syscall ℕ)

-- A connection with its loop, what the kernel answers it, and the bytes that came in and went out.
pub record Peer : Type 0 where
  pub conn : Connection
  pub io_loop : ℕ
  pub script : Script
  pub received : List ℕ
  pub sent_back : List ℕ
  -- How many of the answers to `send` were EPIPE or ECONNRESET.
  pub faults : ℕ

-- The constructor of `Connection`, and the callbacks that `handleNewConnection` sets.
unfoldable pub new_connection : ℕ → ℕ → Connection
unfolding set_message_callback set_close_callback set_error_callback set_write_complete_callback
    Operations.create
new_connection name fd = set_error_callback true (
    set_close_callback true
      (set_write_complete_callback false (set_message_callback true (Operations.create name fd))))

-- The handler that the constructor wires to the connection.
unfoldable pub handler_of : Connection → EventHandler
handler_of c = record {
  fd = c.fd;
  events = c.events;
  read_callback = true;
  write_callback = true;
  error_callback = true;
  close_callback = true;
}

-- The kernel takes no more than it is offered.
abbrev pub takes : ℕ → Syscall ℕ → Syscall ℕ
takes len (done n) = done (min n len)
takes len (failed e) = failed e

abbrev pub bytes_read : Callback → Syscall (List ℕ) → List ℕ
bytes_read on_read (done bytes) = bytes
bytes_read _ _ = []

-- The member function that a callback of the handler calls.
unfoldable pub member_function : Callback → Syscall (List ℕ) → Syscall ℕ → M (Unit {0})
unfolding handle_read handle_write handle_close handle_error default_message_callback
member_function on_read answer reply c =
    let offered = readable_bytes c.input_buffer + length (bytes_read on_read answer) in
    handle_read (default_message_callback idle (takes offered reply)) answer c
member_function on_write answer reply c =
    handle_write idle (takes (readable_bytes c.output_buffer) reply) c
member_function on_close answer reply c = handle_close c
member_function on_error answer reply c = handle_error c

-- An action of the connection, which reads these bytes, with the effects that it leaves.
unfoldable pub act_on : M (Unit {0}) → List ℕ → Peer → Peer × List Effect
act_on m bytes p =
    let (u, c, es) = m p.conn in
    (record p { conn = c; received = p.received ++ bytes; sent_back = p.sent_back ++ sent es }, es)

abbrev pub next : {A : Type 0} → List (Syscall A) → Syscall A × List (Syscall A)
next [] = (failed ewouldblock, [])
next (answer ∷ rest) = (answer, rest)

-- The answers that a callback gets, and the script behind them.
abbrev pub next_answers : Callback → Script → (Syscall (List ℕ) × Syscall ℕ) × Script
next_answers on_read s =
    let (answer, reads) = next s.reads in
    let (reply, replies) = next s.replies in
    ((answer, reply), record { reads = reads; replies = replies })
next_answers on_write s =
    let (reply, replies) = next s.replies in
    ((failed ewouldblock, reply), record s { replies = replies })
next_answers _ s = ((failed ewouldblock, failed ewouldblock), s)

abbrev pub faults_in : Syscall ℕ → ℕ
faults_in (done n) = 0
faults_in (failed e) = if is_fault e then 1 else 0

unfoldable pub handle_callback : Callback → Peer → Peer × List Effect
unfolding act_on member_function
handle_callback callback p =
    let (answers, rest) = next_answers callback p.script in
    act_on (member_function callback answers.0 answers.1) (bytes_read callback answers.0)
      (record p { script = rest; faults = p.faults + faults_in answers.1 })
