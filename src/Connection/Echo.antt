-- ===== src/Connection/Echo.antt =====
-- A connection under the echo callback: what it receives is what it sends, in order.
use mathlib.Core.Path.{subst}
use echoserver.Prelude.{
  if◌then◌else◌, not, length-append, ℕ, ◌+◌, ◌≤◌, ◌≡◌, sym, ap, ◌∙◌, Bool, List, [], ◌∷◌, ◌++◌,
  append-nil, arith, length, ◌==◌,
}
use echoserver.Prelude.Syscall.{Errno, Syscall, done, failed}
use echoserver.Buffer.{readable_bytes, read_fd}
use echoserver.Buffer.Invariant.{IsValid, contents, max_size}
use echoserver.Handler.{has, epollout}
use echoserver.Connection.{calls_error, Connection, M, after, effects}
use echoserver.Connection.Operations.{handle_read, handle_write, default_message_callback}
use echoserver.Connection.Output.{sent-append, chain}
use echoserver.Connection.Transfers.{sent, Transfers, Accepts}
use echoserver.Connection.Writing.{handle_write-Transfers}
use echoserver.Connection.Receiving.{
  serve, readable, writable, Event, received, Serving, Healthy, Echoes, equal-Echoes,
  message-Echoes,
}

pub handle_read_failed :
    (m : M (Unit {0})) (e : Errno) (c : Connection)
    → handle_read m (failed e) c ≡ (tt, c, if c.error_callback then calls_error ∷ [] else [])
unfolding handle_read read_fd
handle_read_failed m e c = ground arith

pub sent_error : (set : Bool) → sent (if set then calls_error ∷ [] else []) ≡ []
sent_error set = ground arith

-- A failed read reports an error and changes nothing else.
failed-Echoes :
    (w : M (Unit {0})) (e : Errno) (reply : Syscall ℕ) (c : Connection)
    → Serving c
    → Echoes c []
        (after (serve w (readable (failed e) reply)) c)
        (effects (serve w (readable (failed e) reply)) c)
unfolding serve
failed-Echoes w e reply c s =
    equal-Echoes c [] (handle_read_failed (default_message_callback w reply) e c) (record {
      serving = s;
      order = rw (sent_error c.error_callback) (sym (append-nil _));
      input_bounded = omega arith;
      output_bounded = omega arith;
    })

writable-Echoes :
    (w : M (Unit {0})) (reply : Syscall ℕ) (c : Connection)
    → Serving c
    → Accepts (readable_bytes c.output_buffer) reply
    → Echoes c [] (after (serve w (writable reply)) c) (effects (serve w (writable reply)) c)
unfolding serve
writable-Echoes w reply c s ok =
    let t : Transfers c [] (length c.output_buffer.buffer) (after (handle_write w reply) c)
        (effects (handle_write w reply) c) =
      handle_write-Transfers w reply c s.output s.plain ok in
    let kept : (after (handle_write w reply) c).input_buffer ≡ c.input_buffer =
      ap (λ (x : Connection). x.input_buffer) t.framed in
    record {
      serving = record {
        up = ap (λ (x : Connection). x.state) t.framed ∙ s.up;
        echoing = ap (λ (x : Connection). x.message_callback) t.framed ∙ s.echoing;
        plain = ap (λ (x : Connection). x.write_complete_callback) t.framed ∙ s.plain;
        output = t.sound;
        input = subst IsValid (sym kept) s.input;
        handled = ap contents kept ∙ s.handled;
      };
      order = t.order;
      input_bounded = rw kept (omega arith);
      output_bounded = omega (arith, t.bounded);
    }

-- Every event of a healthy connection passes on what was received, in order, and leaves the
-- connection as ready as it was.
pub serve-Echoes :
    (w : M (Unit {0})) (e : Event) (c : Connection)
    → Serving c
    → Healthy c e
    → length c.input_buffer.buffer + length (received e) ≤ max_size
    → length c.output_buffer.buffer + length (received e) ≤ max_size
    → Echoes c (received e) (after (serve w e) c) (effects (serve w e) c)
serve-Echoes w (readable (done bytes) reply) c s h i o =
    message-Echoes w bytes reply c s h.0 h.1 i o
serve-Echoes w (readable (failed e) reply) c s h i o = failed-Echoes w e reply c s
serve-Echoes w (writable reply) c s h i o = writable-Echoes w reply c s h

abbrev pub all_received : List Event → List ℕ
all_received [] = []
all_received (e ∷ es) = received e ++ all_received es

unfoldable pub serve_all : M (Unit {0}) → List Event → M (Unit {0})
serve_all w [] c = (tt, c, [])
serve_all w (e ∷ es) c =
    let (u, d, before) = serve w e c in
    let (v, d', later) = serve_all w es d in (v, d', before ++ later)

abbrev pub AllHealthy : M (Unit {0}) → Connection → List Event → Type 0
AllHealthy w c [] = Unit {0}
AllHealthy w c (e ∷ es) = Healthy c e × AllHealthy w (after (serve w e) c) es

-- The echo server's promise, for any number of events on a connection that stays healthy, within
-- the size limit of the buffers: what was waiting and then all that was received is what has been
-- sent, followed by what waits in the output buffer; the interest in EPOLLOUT is there exactly
-- when bytes are waiting.
pub serve_all-echoes :
    (w : M (Unit {0})) (es : List Event) (c : Connection)
    → Serving c
    → AllHealthy w c es
    → length c.input_buffer.buffer + length (all_received es) ≤ max_size
    → length c.output_buffer.buffer + length (all_received es) ≤ max_size
    → let d = after (serve_all w es) c in
      (sent (effects (serve_all w es) c) ++ contents d.output_buffer
        ≡ contents c.output_buffer ++ all_received es)
      × (has d.events epollout ≡ not (readable_bytes d.output_buffer == 0))
      × Serving d
unfolding serve_all
serve_all-echoes w [] c s h i o = (sym (append-nil _), s.output.waiting, s)
serve_all-echoes w (e ∷ es) c s h i o =
    let d : Connection = after (serve w e) c in
    let size : length (received e ++ all_received es)
        ≡ length (received e) + length (all_received es) =
      length-append (received e) (all_received es) in
    let t : Echoes c (received e) d (effects (serve w e) c) =
      serve-Echoes w e c s h.0 (omega arith) (omega arith) in
    let (order, waiting, serving) =
      serve_all-echoes w es d t.serving h.1 (omega (arith, t.input_bounded))
        (omega (arith, t.output_bounded)) in
    (
      rw (sent-append (effects (serve w e) c)) (
          chain (sent (effects (serve w e) c)) (sent (effects (serve_all w es) d))
            (contents (after (serve_all w es) d).output_buffer) (contents d.output_buffer)
            (received e) (all_received es) (contents c.output_buffer) order t.order),
      waiting,
      serving,
    )
