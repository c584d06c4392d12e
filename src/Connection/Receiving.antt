-- ===== src/Connection/Receiving.antt =====
-- What a message that arrives at a serving connection does to it.
use mathlib.Core.Path.{subst}
use echoserver.Prelude.{
  ℕ, ◌+◌, ◌≤◌, ◌<◌, ◌≡◌, sym, ap, ◌∙◌, true, false, List, [], ◌++◌, arith, length, take_all,
  drop_all,
}
use echoserver.Prelude.Syscall.{Syscall, done, failed}
use echoserver.Buffer.{Buffer, readable_bytes, read_fd, retrieve_all_as_string}
use echoserver.Buffer.Invariant.{IsValid, contents, max_size}
use echoserver.Buffer.Contents.{read_fd-Holds}
use echoserver.Buffer.Queueing.{Holds, retrieve_as_string-Holds}
use echoserver.Connection.{Connection, Effect, connected, M, after, effects}
use echoserver.Connection.Operations.{
  handle_read, handle_write, send, send_in_loop, default_message_callback,
}
use echoserver.Connection.Output.{send_in_loop-Transfers}
use echoserver.Connection.Transfers.{sent, Sound, Transfers, Accepts, readable-length}

-- What the event loop finds at the connection's socket, with what the system calls answer:
-- `readv` and then the `send` of the echo, or the `send` of `handleWrite`.
pub data Event : Type 0 where
  readable : Syscall (List ℕ) → Syscall ℕ → Event
  writable : Syscall ℕ → Event

abbrev pub received : Event → List ℕ
received (readable (done bytes) reply) = bytes
received _ = []

-- A connection that is up, with the echo server's callbacks, and nothing left to handle.
pub record Serving (c : Connection) : Type 0 where
  pub up : c.state ≡ connected
  pub echoing : c.message_callback ≡ true
  pub plain : c.write_complete_callback ≡ false
  pub output : Sound c
  pub input : IsValid c.input_buffer
  pub handled : contents c.input_buffer ≡ []

-- The peer keeps its side open, and `send` meets no EPIPE and no ECONNRESET.
abbrev pub Healthy : Connection → Event → Type 0
Healthy c (readable (done bytes) reply) = (0 < length bytes) × Accepts (length bytes) reply
Healthy c (readable (failed e) reply) = Unit {0}
Healthy c (writable reply) = Accepts (readable_bytes c.output_buffer) reply

-- `bytes` goes through: what was waiting and then `bytes` is what `es` sends and what waits in `d`.
pub record Echoes (c : Connection) (bytes : List ℕ) (d : Connection) (es : List Effect)
    : Type 0 where
  pub serving : Serving d
  pub order : sent es ++ contents d.output_buffer ≡ contents c.output_buffer ++ bytes
  pub input_bounded : length d.input_buffer.buffer ≤ length c.input_buffer.buffer + length bytes
  pub output_bounded : length d.output_buffer.buffer ≤ length c.output_buffer.buffer + length bytes

module _ (w : M (Unit {0})) where
  unfoldable pub serve : Event → M (Unit {0})
  serve (readable answer reply) = handle_read (default_message_callback w reply) answer
  serve (writable reply) = handle_write w reply

  pub handle_read_message :
      (m : M (Unit {0})) (bytes : List ℕ) (c : Connection)
      → 0 < length bytes
      → c.message_callback ≡ true
      → handle_read m (done bytes) c
        ≡ m (record c { input_buffer = (read_fd c.input_buffer (done bytes)).0 })
  unfolding handle_read read_fd
  handle_read_message m bytes c h e = ground arith

  default_message_lem :
      (reply : Syscall ℕ) (c : Connection)
      → c.state ≡ connected
      → let (message, rest) = retrieve_all_as_string c.input_buffer in
        default_message_callback w reply c
        ≡ send_in_loop w message reply (record c { input_buffer = rest })
  unfolding default_message_callback send
  default_message_lem reply c up = ground arith

pub retrieve_all_as_string-Holds :
    (b : Buffer)
    → IsValid b
    → ((retrieve_all_as_string b).0 ≡ contents b)
      × Holds (retrieve_all_as_string b).1 [] (length b.buffer)
unfolding retrieve_all_as_string
retrieve_all_as_string-Holds b v =
    let (s, r) = retrieve_as_string-Holds b (readable_bytes b) v in
    let all : length (contents b) ≤ readable_bytes b = omega (arith, readable-length v) in
    (
      s ∙ take_all _ (contents b) all,
      record {
        valid = r.valid;
        bytes = r.bytes ∙ drop_all _ (contents b) all;
        bounded = r.bounded;
      },
    )

pub equal-Echoes :
    (c : Connection) (bytes : List ℕ) {r r' : Unit {0} × Connection × List Effect}
    → r ≡ r'
    → Echoes c bytes r'.1 r'.2
    → Echoes c bytes r.1 r.2
equal-Echoes c bytes e t =
    subst (λ (r : Unit {0} × Connection × List Effect). Echoes c bytes r.1 r.2) (sym e) t

-- A read of some bytes passes them on to the output.
pub message-Echoes :
    (w : M (Unit {0})) (bytes : List ℕ) (reply : Syscall ℕ) (c : Connection)
    → Serving c
    → 0 < length bytes
    → Accepts (length bytes) reply
    → length c.input_buffer.buffer + length bytes ≤ max_size
    → length c.output_buffer.buffer + length bytes ≤ max_size
    → Echoes c bytes
        (after (serve w (readable (done bytes) reply)) c)
        (effects (serve w (readable (done bytes) reply)) c)
unfolding serve
message-Echoes w bytes reply c s some_bytes ok in_fits out_fits =
    let got : Buffer = (read_fd c.input_buffer (done bytes)).0 in
    let g : Holds got (contents c.input_buffer ++ bytes)
        (length c.input_buffer.buffer + length bytes) =
      read_fd-Holds c.input_buffer bytes s.input in_fits in
    let (text, r) = retrieve_all_as_string-Holds got g.valid in
    let message : List ℕ = (retrieve_all_as_string got).0 in
    let same : message ≡ bytes = text ∙ g.bytes ∙ ap (λ xs. xs ++ bytes) s.handled in
    let d : Connection = record c { input_buffer = (retrieve_all_as_string got).1 } in
    let count : length message ≡ length bytes = ap length same in
    let t : Transfers d message (length c.output_buffer.buffer + length message)
        (after (send_in_loop w message reply) d) (effects (send_in_loop w message reply) d) =
      send_in_loop-Transfers w message reply d
        (record {
          valid = s.output.valid;
          interest = s.output.interest;
          waiting = s.output.waiting;
        })
        s.up s.plain (rw count ok) (omega arith) in
    let e : Connection = after (send_in_loop w message reply) d in
    equal-Echoes c bytes
      (handle_read_message w (default_message_callback w reply) bytes c some_bytes s.echoing
        ∙ default_message_lem w reply (record c { input_buffer = got }) s.up)
      (record {
        serving = record {
          up = ap (λ (x : Connection). x.state) t.framed ∙ s.up;
          echoing = ap (λ (x : Connection). x.message_callback) t.framed ∙ s.echoing;
          plain = ap (λ (x : Connection). x.write_complete_callback) t.framed ∙ s.plain;
          output = t.sound;
          input = subst IsValid (sym (ap (λ (x : Connection). x.input_buffer) t.framed)) r.valid;
          handled = ap (λ (x : Connection). contents x.input_buffer) t.framed ∙ r.bytes;
        };
        order = t.order ∙ ap (◌++◌ (contents c.output_buffer)) same;
        input_bounded =
            let kept : e.input_buffer ≡ d.input_buffer =
              ap (λ (x : Connection). x.input_buffer) t.framed in
            rw kept (omega (arith, r.bounded, g.bounded));
        output_bounded = omega (arith, t.bounded);
      })
