-- ===== src/Connection/Reading.antt =====
-- `handleRead` under the echo callback passes bytes on, whatever the kernel answers.
use mathlib.Core.List.Sublist
use echoserver.Prelude.{
  ℕ, ◌+◌, ◌≤◌, ◌<◌, ◌≡◌, refl, ap, ◌∙◌, inl, inr, true, false, List, [], ◌∷◌, ◌++◌, append-nil,
  arith, Bool-cases, length,
}
use echoserver.Prelude.Syscall.{Errno, Syscall, done, failed}
use echoserver.Buffer.{Buffer, read_fd, retrieve_all_as_string}
use echoserver.Buffer.Invariant.{contents, max_size}
use echoserver.Buffer.Queueing.{Holds}
use echoserver.Buffer.Contents.{read_fd-Holds}
use echoserver.Connection.{Connection, is_connected, M, after, effects}
use echoserver.Connection.Operations.{
  send_in_loop, send, handle_read, handle_close, default_message_callback,
}
use echoserver.Connection.Receiving.{handle_read_message, retrieve_all_as_string-Holds}
use echoserver.Connection.Echo.{handle_read_failed, sent_error}
use echoserver.Connection.Handling.{handle_close-Passes}
use echoserver.Connection.Passing.{
  Sane, Passes, Fits, sublist_of_eq, equal-Passes, dropped-Passes, send_in_loop-Passes,
}

-- From the loop's own thread, `send` is `sendInLoop`.
send_here :
    (w : M (Unit {0})) (bytes : List ℕ) (answer : Syscall ℕ) (c : Connection)
    → send w true bytes answer c ≡ send_in_loop w bytes answer c
unfolding send send_in_loop
send_here w bytes answer c = elim (Bool-cases (is_connected c.state)) [
  | inl up ↦ rw up refl
  | inr off ↦ rw off refl
]

message_lem :
    (w : M (Unit {0})) (reply : Syscall ℕ) (c : Connection)
    → let (message, rest) = retrieve_all_as_string c.input_buffer in
      default_message_callback w reply c
      ≡ send_in_loop w message reply (record c { input_buffer = rest })
unfolding default_message_callback
message_lem w reply c =
    let (message, rest) = retrieve_all_as_string c.input_buffer in
    send_here w message reply (record c { input_buffer = rest })

-- A read of nothing: the peer has closed its side.
read_closed :
    (m : M (Unit {0})) (c : Connection)
    → handle_read m (done []) c
      ≡ handle_close (record c { input_buffer = (read_fd c.input_buffer (done [])).0 })
unfolding handle_read read_fd
read_closed m c = ground arith

closed-Passes :
    (m : M (Unit {0})) (c : Connection)
    → Sane c
    → Passes c [] (after (handle_read m (done [])) c) (effects (handle_read m (done [])) c)
closed-Passes m c s =
    let got : Buffer = (read_fd c.input_buffer (done [])).0 in
    let g : Holds got (contents c.input_buffer ++ []) (length c.input_buffer.buffer + 0) =
      read_fd-Holds c.input_buffer [] s.input (omega (arith, s.input.small)) in
    let d : Connection = record c { input_buffer = got } in
    let t : Passes d [] (after handle_close d) (effects handle_close d) =
      handle_close-Passes d (record {
        input = g.valid;
        output = s.output;
        handled = g.bytes ∙ append-nil (contents c.input_buffer) ∙ s.handled;
        echoing = s.echoing;
        plain = s.plain;
      }) in
    equal-Passes c [] (read_closed m c) (record {
      sane = t.sane;
      order = t.order;
      input_bounded = omega (arith, t.input_bounded, g.bounded);
      output_bounded = t.output_bounded;
    })

send-keeps_input :
    (w : M (Unit {0})) (bytes : List ℕ) (answer : Syscall ℕ) (c : Connection)
    → c.write_complete_callback ≡ false
    → (after (send_in_loop w bytes answer) c).input_buffer ≡ c.input_buffer
unfolding send_in_loop
send-keeps_input w bytes (done n) c plain = ground arith
send-keeps_input w bytes (failed e) c plain = ground arith

message-Passes :
    (w : M (Unit {0})) (bytes : List ℕ) (reply : Syscall ℕ) (c : Connection)
    → Sane c
    → 0 < length bytes
    → Fits (length bytes) reply
    → length c.input_buffer.buffer + length bytes ≤ max_size
    → length c.output_buffer.buffer + length bytes ≤ max_size
    → let m = handle_read (default_message_callback w reply) (done bytes) in
      Passes c bytes (after m c) (effects m c)
message-Passes w bytes reply c s some_bytes ok in_fits out_fits =
    let got : Buffer = (read_fd c.input_buffer (done bytes)).0 in
    let g : Holds got (contents c.input_buffer ++ bytes)
        (length c.input_buffer.buffer + length bytes) =
      read_fd-Holds c.input_buffer bytes s.input in_fits in
    let (text, r) = retrieve_all_as_string-Holds got g.valid in
    let message : List ℕ = (retrieve_all_as_string got).0 in
    let same : message ≡ bytes = text ∙ g.bytes ∙ ap (λ xs. xs ++ bytes) s.handled in
    let d : Connection = record c { input_buffer = (retrieve_all_as_string got).1 } in
    let count : length message ≡ length bytes = ap length same in
    let t : Passes d message (after (send_in_loop w message reply) d)
        (effects (send_in_loop w message reply) d) =
      send_in_loop-Passes w message reply d
        (record {
          input = r.valid;
          output = s.output;
          handled = r.bytes;
          echoing = s.echoing;
          plain = s.plain;
        })
        (rw count ok) (omega arith) in
    equal-Passes c bytes
      (handle_read_message w (default_message_callback w reply) bytes c some_bytes s.echoing
        ∙ message_lem w reply (record c { input_buffer = got }))
      (record {
        sane = t.sane;
        order = Sublist.trans t.order (sublist_of_eq (ap (◌++◌ (contents c.output_buffer)) same));
        input_bounded =
            rw (send-keeps_input w message reply d s.plain) (omega (arith, r.bounded, g.bounded));
        output_bounded = omega (arith, t.output_bounded);
      })

-- A read in any state and for any answers passes on what was read, or drops it.
pub handle_read-Passes :
    (w : M (Unit {0})) (bytes : List ℕ) (reply : Syscall ℕ) (c : Connection)
    → Sane c
    → Fits (length bytes) reply
    → length c.input_buffer.buffer + length bytes ≤ max_size
    → length c.output_buffer.buffer + length bytes ≤ max_size
    → let m = handle_read (default_message_callback w reply) (done bytes) in
      Passes c bytes (after m c) (effects m c)
handle_read-Passes w [] reply c s ok i o = closed-Passes (default_message_callback w reply) c s
handle_read-Passes w (b ∷ bs) reply c s ok i o =
    message-Passes w (b ∷ bs) reply c s (omega arith) ok i o

pub failed_read-Passes :
    (m : M (Unit {0})) (e : Errno) (c : Connection)
    → Sane c
    → Passes c [] (after (handle_read m (failed e)) c) (effects (handle_read m (failed e)) c)
failed_read-Passes m e c s =
    equal-Passes c [] (handle_read_failed m e c)
      (dropped-Passes c c [] _ s refl refl refl refl (sent_error c.error_callback))
