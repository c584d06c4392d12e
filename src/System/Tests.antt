-- ===== src/System/Tests.antt =====
-- The server at concrete inputs: a client that sends three bytes, and one that closes its side.
use mathlib.Core.List.{Sublist}
use echoserver.Prelude.{
  ◌+◌, suc, ◌<◌, ◌≤◌, ◌≡◌, refl, true, false, not, none, some, [], ◌∷◌, ◌++◌, arith, ◌==◌, length,
  zero,
}
use echoserver.Prelude.Bytes.{copy}
use echoserver.Prelude.Syscall.{done}
use echoserver.Buffer
use echoserver.Buffer.{
  readable_bytes, read_fd, retrieve_all_as_string, retrieve, append, ensure_writable_bytes,
}
use echoserver.Buffer.Invariant.{contents}
use echoserver.Handler.{has, enable_reading, enable_writing, epollin, epollout, epollhup}
use echoserver.Connection.{connected}
use echoserver.EventLoop.{EventLoop, lookup, max_events, run, stop}
use echoserver.EchoServer.Connections.{contains}
use echoserver.Peer.{Script, Peer, new_connection}
use echoserver.System.{Job, System, loop_at, put_loop, host, accept, run_removals}
use echoserver.System.Stopping.{stop_is_lost}
use echoserver.System.Steps.{worker_round, Reach, here, next, accepts, works}
use echoserver.Peer.Honest.{Small}
use echoserver.System.OwnBytes.{sends_own_bytes, buffers_bounded}
use echoserver.System.Dangling.{owned, destroy_pending, Elsewhere, removal_dangles}
use echoserver.System.Echoing.{IsStart, server_echoes}
use echoserver.System.Draining.{granted, writable_rounds}
use echoserver.System.Delivering.{HasBack, waiting_is_delivered}

-- One worker, whose loop has the handler of its eventfd, 5.
abbrev worker : EventLoop Job
worker = record {
  running = true;
  quit = false;
  handlers = (5, 0) ∷ [];
  active_events = max_events;
  pending_tasks = [];
  loop_thread_id = 1;
  signals = 0;
}

abbrev started : System
started = record {
  server = record {
    started = true;
    thread_num = 1;
    next_conn_id = 1;
    loops = true ∷ [];
    next_loop_index = 0;
    connections = [];
    connection_callback = true;
  };
  loops = worker ∷ [];
  peers = [];
  removals = [];
}

started-IsStart : IsStart started
started-IsStart = record { no_peers = refl; no_tasks = (refl, tt); eventfd_only = ((refl, tt), tt) }

-- Three bytes come, of which the kernel takes two back at first.
abbrev client : Script
client = record { reads = done (65 ∷ 66 ∷ 67 ∷ []) ∷ []; replies = done 2 ∷ done 5 ∷ [] }

abbrev accepted : System
accepted = accept 7 client started

abbrev established : System
established = worker_round 0 (done ((5, epollin) ∷ [])) accepted

abbrev served : System
served = worker_round 0 (done ((7, epollin) ∷ [])) established

serving : Reach started served
serving = next (next (next here (accepts 7 client)) (works 0 _)) (works 0 _)

abbrev no_peer : Peer
no_peer = record {
  conn = new_connection 0 0;
  io_loop = 0;
  script = client;
  received = [];
  sent_back = [];
  faults = 0;
}

abbrev first_peer : System → Peer
first_peer s = elim (lookup 1 s.peers) [ none ↦ no_peer | some p ↦ p ]

abbrev answered : Peer
answered = first_peer served

answered_found : lookup 1 served.peers ≡ some answered
unfolding worker_round accept has read_fd retrieve_all_as_string retrieve append
    ensure_writable_bytes enable_writing enable_reading Buffer.create copy
answered_found = refl

answered_up : answered.conn.state ≡ connected
unfolding worker_round accept has read_fd retrieve_all_as_string retrieve append
    ensure_writable_bytes enable_writing enable_reading Buffer.create copy
answered_up = refl

answered_whole : answered.faults ≡ 0
unfolding worker_round accept has read_fd retrieve_all_as_string retrieve append
    ensure_writable_bytes enable_writing enable_reading Buffer.create copy
answered_whole = refl

answered_reads : answered.script.reads ≡ []
unfolding worker_round accept has read_fd retrieve_all_as_string retrieve append
    ensure_writable_bytes enable_writing enable_reading Buffer.create copy
answered_reads = refl

answered_received : answered.received ≡ 65 ∷ 66 ∷ 67 ∷ []
unfolding worker_round accept has read_fd retrieve_all_as_string retrieve append
    ensure_writable_bytes enable_writing enable_reading Buffer.create copy
answered_received = refl

-- Two bytes are back, and the third waits.
answered_sent : answered.sent_back ≡ 65 ∷ 66 ∷ []
unfolding worker_round accept has read_fd retrieve_all_as_string retrieve append
    ensure_writable_bytes enable_writing enable_reading Buffer.create copy
answered_sent = refl

answered-Small : Small answered
answered-Small = rw (answered_received, answered_reads) (omega arith)

server_echoes_example :
    (answered.sent_back ++ contents answered.conn.output_buffer ≡ answered.received)
    × (has answered.conn.events epollout ≡ not (readable_bytes answered.conn.output_buffer == 0))
server_echoes_example =
    server_echoes 1 started-IsStart serving (omega arith) answered_found answered_up answered_whole
      answered-Small

sends_own_bytes_example :
    Sublist (answered.sent_back ++ contents answered.conn.output_buffer) answered.received
sends_own_bytes_example = sends_own_bytes 1 refl serving answered_found answered-Small

buffers_bounded_example :
    (length answered.conn.input_buffer.buffer ≤ 1032 + length answered.received)
    × (length answered.conn.output_buffer.buffer ≤ 1032 + length answered.received)
buffers_bounded_example = buffers_bounded 1 refl serving answered_found answered-Small

answered_registered : lookup 7 (loop_at 0 served).handlers ≡ some 1
unfolding worker_round accept has read_fd retrieve_all_as_string retrieve append
    ensure_writable_bytes enable_writing enable_reading Buffer.create copy
answered_registered = refl

served_no_tasks : (loop_at 0 served).pending_tasks ≡ []
unfolding worker_round accept has read_fd retrieve_all_as_string retrieve append
    ensure_writable_bytes enable_writing enable_reading Buffer.create copy
served_no_tasks = refl

answered_replies : answered.script.replies ≡ granted (4 ∷ []) []
unfolding worker_round accept has read_fd retrieve_all_as_string retrieve append
    ensure_writable_bytes enable_writing enable_reading Buffer.create copy
answered_replies = refl

answered_waits : contents answered.conn.output_buffer ≡ 67 ∷ []
unfolding worker_round accept has read_fd retrieve_all_as_string retrieve append
    ensure_writable_bytes enable_writing enable_reading Buffer.create copy
answered_waits = refl

waiting_is_delivered_example : HasBack 1 answered.received (writable_rounds 0 7 (4 ∷ []) served)
waiting_is_delivered_example =
    waiting_is_delivered 1 0 7 (4 ∷ []) [] started-IsStart serving (omega arith) answered_found
      answered_up answered_whole answered-Small answered_registered served_no_tasks answered_replies
      (rw answered_waits (omega arith))

-- The client hangs up: the worker reports the removal to the main loop.
abbrev hung_up : System
hung_up = worker_round 0 (done ((7, epollhup) ∷ [])) established

abbrev closed : Peer
closed = first_peer hung_up

closed_found : lookup 1 hung_up.peers ≡ some closed
unfolding worker_round accept has read_fd retrieve_all_as_string retrieve append
    ensure_writable_bytes enable_writing enable_reading Buffer.create copy
closed_found = refl

closed_reported : contains 1 hung_up.removals ≡ true
unfolding worker_round accept has read_fd retrieve_all_as_string retrieve append
    ensure_writable_bytes enable_writing enable_reading Buffer.create copy
closed_reported = refl

closed_loop : closed.io_loop ≡ 0
unfolding worker_round accept has read_fd retrieve_all_as_string retrieve append
    ensure_writable_bytes enable_writing enable_reading Buffer.create copy
closed_loop = refl

one_loop : length hung_up.loops ≡ 1
unfolding worker_round accept has read_fd retrieve_all_as_string retrieve append
    ensure_writable_bytes enable_writing enable_reading Buffer.create copy
one_loop = refl

hung_up-Elsewhere : Elsewhere hung_up
unfolding worker_round accept has read_fd retrieve_all_as_string retrieve append
    ensure_writable_bytes enable_writing enable_reading Buffer.create copy
hung_up-Elsewhere zero = refl
hung_up-Elsewhere (suc i) = refl

closed_inside : closed.io_loop < length hung_up.loops
closed_inside = rw (closed_loop, one_loop) (omega arith)

removal_dangles_example :
    let t = run_removals hung_up in
    (owned 1 t ≡ false) × (destroy_pending 1 (loop_at closed.io_loop t).pending_tasks ≡ true)
removal_dangles_example =
    removal_dangles 1 hung_up hung_up-Elsewhere closed_found closed_inside closed_reported

accepted_loops : length accepted.loops ≡ 1
unfolding worker_round accept has read_fd retrieve_all_as_string retrieve append
    ensure_writable_bytes enable_writing enable_reading Buffer.create copy
accepted_loops = refl

-- The worker has a connection to establish when it is told to stop.
stop_is_lost_example :
    (run
      (host 0)
      1
      (done ((5, epollin) ∷ []) ∷ [])
      (put_loop 0 (stop 0 (loop_at 0 accepted)) accepted)).1
    ≡ true
stop_is_lost_example =
    stop_is_lost 0 1 0 (done ((5, epollin) ∷ []) ∷ []) accepted (omega (arith, accepted_loops))
