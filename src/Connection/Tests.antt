-- ===== src/Connection/Tests.antt =====
-- `Connection` at concrete inputs.
use echoserver.Prelude.{ℕ, ◌≤◌, ◌≡◌, refl, true, false, not, ◌&&◌, List, [], ◌∷◌, ◌++◌, arith, ◌==◌}
use echoserver.Prelude.Bytes.{copy}
use echoserver.Prelude.Syscall.{Syscall, done, failed, ewouldblock}
use echoserver.Buffer.{
  Buffer, readable_bytes, append, ensure_writable_bytes, retrieve, retrieve_all_as_string, read_fd,
}
use echoserver.Buffer.Invariant.{contents}
use echoserver.Handler.{has, epollout, enable_writing, disable_writing}
use echoserver.Connection.{
  connecting, connected, disconnecting, Connection, sends, updates_handler, M, ◌>>◌, after, effects,
}
use echoserver.Connection.Operations.{
  shutdown, handle_read, handle_write, finish_writing, default_message_callback,
}
use echoserver.Connection.Transfers.{sent, Sound}
use echoserver.Connection.Echo.{serve_all, serve_all-echoes}
use echoserver.Connection.Receiving.{readable, writable, serve, Event, Serving}
use echoserver.Connection.Lifecycle.{
  closes_by_peer, is_destroyed, runs_force_close, acts, removals, closed_never_removed,
}
use echoserver.Connection.Posting.{send_all, answers_to, then_runs, posted_in_order}
use echoserver.Connection.Dropping.{closing_effects, shutdown_drops_sends}
use echoserver.Connection.Flush.{closes_side, drain, drain_lem}

abbrev idle : M (Unit {0})
idle c = (tt, c, [])

abbrev storage : List ℕ
storage = 0 ∷ 0 ∷ 0 ∷ 0 ∷ 0 ∷ 0 ∷ 0 ∷ 0 ∷ 0 ∷ 0 ∷ 0 ∷ 0 ∷ []

abbrev empty : Buffer
empty = record { buffer = storage; read_index = 8; write_index = 8 }

-- Two bytes wait.
abbrev waiting : Buffer
waiting = record {
  buffer = 0 ∷ 0 ∷ 0 ∷ 0 ∷ 0 ∷ 0 ∷ 0 ∷ 0 ∷ 5 ∷ 6 ∷ 0 ∷ 0 ∷ [];
  read_index = 8;
  write_index = 10;
}

abbrev ready : Connection
ready = record {
  name = 1;
  fd = 7;
  events = 1;
  state = connected;
  input_buffer = empty;
  output_buffer = empty;
  message_callback = true;
  close_callback = true;
  error_callback = true;
  write_complete_callback = false;
}

abbrev busy : Connection
busy = record ready { output_buffer = waiting; events = 5 }

ready-Sound : Sound ready
unfolding has
ready-Sound = record { valid = omega arith; interest = omega arith; waiting = refl }

busy-Sound : Sound busy
unfolding has
busy-Sound = record { valid = omega arith; interest = omega arith; waiting = refl }

ready-Serving : Serving ready
ready-Serving = record {
  up = refl;
  echoing = refl;
  plain = refl;
  output = ready-Sound;
  input = omega arith;
  handled = refl;
}

-- Three bytes come; the kernel takes one of them back, and then the others.
abbrev script : List Event
script = readable (done (1 ∷ 2 ∷ 3 ∷ [])) (done 1) ∷ writable (done 2) ∷ []

script_sends :
    effects (serve_all idle script) ready
    ≡ sends (1 ∷ []) ∷ updates_handler 5 ∷ sends (2 ∷ 3 ∷ []) ∷ updates_handler 1 ∷ []
unfolding serve_all serve handle_read read_fd default_message_callback retrieve_all_as_string
    handle_write finish_writing retrieve append ensure_writable_bytes copy has enable_writing
    disable_writing
script_sends = refl

two_wait :
    2
    ≤ readable_bytes
        (after (serve idle (readable (done (1 ∷ 2 ∷ 3 ∷ [])) (done 1))) ready).output_buffer
unfolding serve handle_read read_fd default_message_callback retrieve_all_as_string append
    ensure_writable_bytes copy has enable_writing
two_wait = omega arith

serve_all-echoes_example :
    let d = after (serve_all idle script) ready in
    (sent (effects (serve_all idle script) ready) ++ contents d.output_buffer ≡ 1 ∷ 2 ∷ 3 ∷ [])
    × (has d.events epollout ≡ not (readable_bytes d.output_buffer == 0))
    × Serving d
serve_all-echoes_example =
    serve_all-echoes idle script ready ready-Serving ((omega arith, omega arith), (two_wait, tt))
      (omega arith) (omega arith)

-- Another thread sends two messages; the kernel takes none of the first.
abbrev two_messages : List (List ℕ × Syscall ℕ)
two_messages = (9 ∷ [], done 1) ∷ (7 ∷ 8 ∷ [], failed ewouldblock) ∷ []

posted_in_order_example :
    let m = then_runs idle (send_all idle two_messages) (answers_to two_messages) in
    (sent (effects m busy) ++ contents (after m busy).output_buffer
      ≡ contents busy.output_buffer ++ (9 ∷ 7 ∷ 8 ∷ []))
    × Sound (after m busy)
posted_in_order_example =
    posted_in_order idle two_messages busy busy-Sound refl refl (omega arith, (refl, tt))
      (omega arith)

shutdown_drops_sends_example :
    then_runs idle
      (send_all idle two_messages >> shutdown false)
      (answers_to two_messages ++ (done 0 ∷ []))
      ready
    ≡ (tt, record ready { state = disconnecting }, closing_effects ready)
shutdown_drops_sends_example = shutdown_drops_sends idle two_messages (done 0) ready refl

abbrev fresh : Connection
fresh = record ready { state = connecting }

closed_never_removed_example :
    removals (effects (acts (closes_by_peer ∷ is_destroyed true ∷ runs_force_close ∷ [])) ready) ≡ 0
closed_never_removed_example =
    closed_never_removed (is_destroyed true ∷ runs_force_close ∷ []) ready

abbrev closing : Connection
closing = record busy { state = disconnecting }

closing-Sound : Sound closing
unfolding has
closing-Sound = record { valid = omega arith; interest = omega arith; waiting = refl }

drain_lem_example :
    let d = after (drain idle (done 2 ∷ [])) closing in
    (sent (effects (drain idle (done 2 ∷ [])) closing) ++ contents d.output_buffer ≡ 5 ∷ 6 ∷ [])
    × (closes_side (effects (drain idle (done 2 ∷ [])) closing)
        ≡ (has 5 epollout && (readable_bytes d.output_buffer == 0)))
    × Sound d
drain_lem_example = drain_lem idle (done 2 ∷ []) closing closing-Sound refl refl (omega arith, tt)
