-- ===== src/Connection/Operations.antt =====
-- src/connection.cpp: the member functions of `Connection`, and the echo callback of
-- src/echo_server.cpp. `write_complete` is the user's callback; the echo server sets none.
use echoserver.Prelude.{
  ℕ, Bool, true, false, not, ◌&&◌, ◌||◌, List, ltb, ◌==◌, if◌then◌else◌, length, take, drop,
  sub_size,
}
use echoserver.Prelude.Bytes.{slice}
use echoserver.Prelude.Syscall.{Errno, epipe, econnreset, Syscall, done, failed}
use echoserver.Buffer.{
  Buffer, initial_size, readable_bytes, retrieve, retrieve_all_as_string, append, read_fd,
}
use echoserver.Buffer
use echoserver.Handler.{epollout, has, enable_reading, enable_writing, disable_writing, disable_all}
use echoserver.Connection.{
  connecting, connected, disconnecting, disconnected, Connection, establishes, destroys,
  sends_in_loop, shuts_down_in_loop, force_closes_in_loop, sends, shuts_down_write, adds_handler,
  updates_handler, removes_handler, calls_close, calls_error, M, ◌>>=◌, ◌>>◌, pure, this, emit,
  set_state, set_events, set_input, set_output, when, is_connected, is_disconnecting, run_in_loop,
}

unfoldable pub create : ℕ → ℕ → Connection
create name fd = record {
  name = name;
  fd = fd;
  events = 0;
  state = connecting;
  input_buffer = Buffer.create initial_size;
  output_buffer = Buffer.create initial_size;
  message_callback = false;
  close_callback = false;
  error_callback = false;
  write_complete_callback = false;
}

unfoldable pub handle_close : M (Unit {0})
handle_close = do
  set_state disconnected
  set_events disable_all
  c ← this
  when c.close_callback (emit calls_close)

-- The error that `getsockopt` reads goes into a log line only.
unfoldable pub handle_error : M (Unit {0})
handle_error = do c ← this; when c.error_callback (emit calls_error)

-- The answer is that of `readv`; `message` is the message callback.
unfoldable pub handle_read : M (Unit {0}) → Syscall (List ℕ) → M (Unit {0})
unfolding handle_close handle_error
handle_read message answer = do
  c ← this
  let got = read_fd c.input_buffer answer
  set_input got.0
  elim got.1 [
    | done n ↦ if n == 0 then handle_close else when c.message_callback message
    | failed e ↦ handle_error
  ]

unfoldable pub shutdown_in_loop : M (Unit {0})
shutdown_in_loop = do c ← this; when (not (has c.events epollout)) (emit shuts_down_write)

-- What `sendInLoop` knows after its direct attempt.
pub record Attempt : Type 0 where
  pub nwrote : ℕ
  pub remaining : ℕ
  pub fault_error : Bool

abbrev pub is_fault : Errno → Bool
is_fault epipe = true
is_fault econnreset = true
is_fault _ = false

module _ (write_complete : M (Unit {0})) where
  -- `socket_->send(data.data(), data.size())`, with its answer.
  unfoldable pub send_directly : List ℕ → Syscall ℕ → M Attempt
  send_directly bytes (done n) = do
    emit (sends (take n bytes))
    c ← this
    when (sub_size (length bytes) n == 0 && c.write_complete_callback) write_complete
    pure (record { nwrote = n; remaining = sub_size (length bytes) n; fault_error = false })
  send_directly bytes (failed e) =
      pure (record { nwrote = 0; remaining = length bytes; fault_error = is_fault e })

  -- The code sends at once only where nothing is waiting in the output buffer.
  unfoldable pub try_send : List ℕ → Syscall ℕ → M Attempt
  unfolding send_directly
  try_send bytes answer c =
      if readable_bytes c.output_buffer == 0
      then send_directly bytes answer c
      else pure (record { nwrote = 0; remaining = length bytes; fault_error = false }) c

  unfoldable pub queue_rest : List ℕ → Attempt → M (Unit {0})
  queue_rest bytes attempt = when (not attempt.fault_error && ltb 0 attempt.remaining) (do
    c ← this
    set_output (append c.output_buffer (take attempt.remaining (drop attempt.nwrote bytes)))
    when (not (has c.events epollout))
        (do set_events (enable_writing c.events); emit (updates_handler (enable_writing c.events))))

  unfoldable pub send_in_loop : List ℕ → Syscall ℕ → M (Unit {0})
  unfolding try_send queue_rest
  send_in_loop bytes answer = do
    c ← this
    when (is_connected c.state) (do attempt ← try_send bytes answer; queue_rest bytes attempt)

  unfoldable pub send : Bool → List ℕ → Syscall ℕ → M (Unit {0})
  unfolding send_in_loop
  send in_loop bytes answer = do
    c ← this
    when (is_connected c.state)
        (run_in_loop in_loop (sends_in_loop bytes) (send_in_loop bytes answer))

  -- The buffer is drained: writing is disabled, and a shutdown that waited for this is done.
  unfoldable pub finish_writing : M (Unit {0})
  unfolding shutdown_in_loop
  finish_writing = do
    c ← this
    set_events (disable_writing c.events)
    emit (updates_handler (disable_writing c.events))
    when c.write_complete_callback write_complete
    d ← this
    when (is_disconnecting d.state) shutdown_in_loop

  unfoldable pub handle_write : Syscall ℕ → M (Unit {0})
  handle_write answer = do
    c ← this
    when (has c.events epollout) (elim answer [
      | done n ↦ when (ltb 0 n) (do
        emit (sends (slice c.output_buffer.buffer c.output_buffer.read_index n))
        set_output (retrieve c.output_buffer n)
        when (readable_bytes (retrieve c.output_buffer n) == 0) finish_writing)
      | failed e ↦ pure tt
    ])

  -- `EchoServer::defaultMessageCallback`, on the loop's thread: what was received goes back.
  unfoldable pub default_message_callback : Syscall ℕ → M (Unit {0})
  unfolding send
  default_message_callback answer = do
    c ← this
    let (message, rest) = retrieve_all_as_string c.input_buffer
    set_input rest
    send true message answer

-- The lambda of `establishConnection`.
unfoldable pub establish_in_loop : M (Unit {0})
establish_in_loop = do
  c ← this
  set_state connected
  set_events (enable_reading c.events)
  emit (adds_handler (enable_reading c.events))

unfoldable pub establish_connection : Bool → M (Unit {0})
unfolding establish_in_loop
establish_connection in_loop = run_in_loop in_loop establishes establish_in_loop

-- The lambda of `destroyConnection`.
unfoldable pub destroy_in_loop : M (Unit {0})
destroy_in_loop = do
  c ← this
  when (is_connected c.state) (do
    set_state disconnected
    set_events disable_all
    emit removes_handler
    when c.close_callback (emit calls_close))

unfoldable pub destroy_connection : Bool → M (Unit {0})
unfolding destroy_in_loop
destroy_connection in_loop = run_in_loop in_loop destroys destroy_in_loop

unfoldable pub shutdown : Bool → M (Unit {0})
unfolding shutdown_in_loop
shutdown in_loop = do
  c ← this
  when (is_connected c.state)
      (do set_state disconnecting; run_in_loop in_loop shuts_down_in_loop shutdown_in_loop)

unfoldable pub force_close_in_loop : M (Unit {0})
unfolding handle_close
force_close_in_loop = do
  c ← this
  when (is_connected c.state || is_disconnecting c.state) handle_close

unfoldable pub force_close : Bool → M (Unit {0})
unfolding force_close_in_loop
force_close in_loop = do
  c ← this
  when (is_connected c.state || is_disconnecting c.state)
      (do set_state disconnecting; run_in_loop in_loop force_closes_in_loop force_close_in_loop)
