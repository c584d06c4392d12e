-- ===== src/Peer/Exact.antt =====
-- Where no `send` has met EPIPE or ECONNRESET, a connected client gets all of its bytes back.
use mathlib.Core.Path.{subst}
use echoserver.Prelude.{
  ℕ, ◌+◌, ◌≤◌, ◌≡◌, sym, ap, ◌∙◌, List, [], ◌∷◌, ◌++◌, arith, length, length-append, append_assoc,
}
use echoserver.Prelude.Syscall.{Errno, other, Syscall, done, failed}
use echoserver.Buffer.{readable_bytes, read_fd}
use echoserver.Buffer.Invariant.{contents, max_size}
use echoserver.Handler.{Callback, on_close, on_error, on_read, on_write}
use echoserver.Connection.{Connection, connected, disconnected, Effect, M, after, effects}
use echoserver.Connection.Operations.{
  handle_read, handle_write, handle_close, handle_error, finish_writing, shutdown_in_loop,
  default_message_callback, destroy_in_loop,
}
use echoserver.Connection.Lifecycle.{idle}
use echoserver.Connection.Transfers.{sent, Accepts, readable-length}
use echoserver.Connection.Receiving.{serve, readable, writable, Serving, Echoes, equal-Echoes}
use echoserver.Connection.Echo.{serve-Echoes}
use echoserver.Peer.{
  Peer, takes, bytes_read, member_function, act_on, next_answers, handle_callback, faults_in,
}
use echoserver.Peer.Honest.{scripted, Small, next_answers-scripted}

-- What waits and what was sent back are all that was received.
pub record Faithful (p : Peer) : Type 0 where
  pub serving : Serving p.conn
  pub order : p.sent_back ++ contents p.conn.output_buffer ≡ p.received
  pub input_small : length p.conn.input_buffer.buffer ≤ 1032 + length p.received
  pub output_small : length p.conn.output_buffer.buffer ≤ 1032 + length p.received

abbrev pub Exact : Peer → Type 0
Exact p = p.conn.state ≡ connected → p.faults ≡ 0 → Faithful p

takes-Accepts : (len : ℕ) (reply : Syscall ℕ) → faults_in reply ≡ 0 → Accepts len (takes len reply)
takes-Accepts len (done n) h = omega arith
takes-Accepts len (failed e) h = ground arith

act_on-Faithful :
    (m : M (Unit {0})) (bytes : List ℕ) (p : Peer)
    → Faithful p
    → Echoes p.conn bytes (after m p.conn) (effects m p.conn)
    → Faithful (act_on m bytes p).0
unfolding act_on
act_on-Faithful m bytes p h t =
    let es : List Effect = effects m p.conn in
    let d : Connection = after m p.conn in
    record {
      serving = t.serving;
      order =
          append_assoc p.sent_back (sent es) (contents d.output_buffer)
          ∙ ap (◌++◌ p.sent_back) t.order
          ∙ sym (append_assoc p.sent_back (contents p.conn.output_buffer) bytes)
          ∙ ap (λ xs. xs ++ bytes) h.order;
      input_small = omega (arith, length-append p.received bytes, t.input_bounded, h.input_small);
      output_small =
          omega (arith, length-append p.received bytes, t.output_bounded, h.output_small);
    }

-- Only the establishing makes a connection connected.
read_state :
    (answer : Syscall (List ℕ)) (reply : Syscall ℕ) (c : Connection)
    → (after (handle_read (default_message_callback idle reply) answer) c).state ≡ connected
    → c.state ≡ connected
unfolding handle_read handle_close handle_error default_message_callback
read_state answer reply c = ground arith

write_state :
    (reply : Syscall ℕ) (c : Connection)
    → (after (handle_write idle reply) c).state ≡ connected
    → c.state ≡ connected
unfolding handle_write finish_writing shutdown_in_loop
write_state reply c = ground arith

pub destroy_state : (c : Connection) → (after destroy_in_loop c).state ≡ connected → ⊥
unfolding destroy_in_loop
destroy_state c h = ground arith

closed_read_state :
    (reply : Syscall ℕ) (c : Connection)
    → (after (handle_read (default_message_callback idle reply) (done [])) c).state ≡ connected
    → ⊥
unfolding handle_read handle_close read_fd
closed_read_state reply c h = ground arith

handle_error_lem :
    (m : M (Unit {0})) (e : Errno) (c : Connection) → handle_error c ≡ handle_read m (failed e) c
unfolding handle_error handle_read read_fd
handle_error_lem m e c = ground arith

close_state : (c : Connection) → (after handle_close c).state ≡ disconnected
unfolding handle_close
close_state c = ground arith

-- A callback that leaves the connection connected passes on what it read.
member_function-Echoes :
    (callback : Callback) (answer : Syscall (List ℕ)) (reply : Syscall ℕ) (c : Connection)
    → Serving c
    → faults_in reply ≡ 0
    → length c.input_buffer.buffer + length (bytes_read callback answer) ≤ max_size
    → length c.output_buffer.buffer + length (bytes_read callback answer) ≤ max_size
    → let m = member_function callback answer reply in
      (after m c).state ≡ connected
      → Echoes c (bytes_read callback answer) (after m c) (effects m c)
unfolding member_function serve
member_function-Echoes on_read (done []) reply c s ok i o up =
    absurd (closed_read_state (takes (readable_bytes c.input_buffer + 0) reply) c up)
member_function-Echoes on_read (done (b ∷ bs)) reply c s ok i o up =
    let offered : readable_bytes c.input_buffer + length (b ∷ bs) ≡ length (b ∷ bs) =
      omega (arith, readable-length s.input, ap length s.handled) in
    let accepted : Accepts (length (b ∷ bs))
        (takes (readable_bytes c.input_buffer + length (b ∷ bs)) reply) =
      subst (λ len. Accepts (length (b ∷ bs)) (takes len reply)) (sym offered)
        (takes-Accepts (length (b ∷ bs)) reply ok) in
    serve-Echoes idle (readable (done (b ∷ bs)) _) c s (omega arith, accepted) i o
member_function-Echoes on_read (failed e) reply c s ok i o up =
    serve-Echoes idle (readable (failed e) (takes (readable_bytes c.input_buffer + 0) reply)) c s tt
      i o
member_function-Echoes on_write answer reply c s ok i o up =
    serve-Echoes idle (writable (takes (readable_bytes c.output_buffer) reply)) c s
      (takes-Accepts (readable_bytes c.output_buffer) reply ok) i o
member_function-Echoes on_close answer reply c s ok i o up =
    absurd (ground (arith, close_state c, up))
member_function-Echoes on_error answer reply c s ok i o up =
    equal-Echoes c [] (handle_error_lem (default_message_callback idle reply) other c)
      (serve-Echoes idle (readable (failed other) reply) c s tt i o)

error_state : (c : Connection) → (after handle_error c).state ≡ c.state
unfolding handle_error
error_state c = ground arith

member_function-state :
    (callback : Callback) (answer : Syscall (List ℕ)) (reply : Syscall ℕ) (c : Connection)
    → (after (member_function callback answer reply) c).state ≡ connected
    → c.state ≡ connected
unfolding member_function
member_function-state on_read answer reply c up =
    read_state answer
      (takes (readable_bytes c.input_buffer + length (bytes_read on_read answer)) reply) c up
member_function-state on_write answer reply c up =
    write_state (takes (readable_bytes c.output_buffer) reply) c up
member_function-state on_close answer reply c up = absurd (ground (arith, close_state c, up))
member_function-state on_error answer reply c up = sym (error_state c) ∙ up

pub callback-Exact :
    (callback : Callback) (p : Peer) → Small p → Exact p → Exact (handle_callback callback p).0
unfolding handle_callback
callback-Exact callback p small exact up none_lost =
    let (answers, rest) = next_answers callback p.script in
    let q : Peer = record p { script = rest; faults = p.faults + faults_in answers.1 } in
    let m : M (Unit {0}) = member_function callback answers.0 answers.1 in
    let before : p.conn.state ≡ connected =
      member_function-state callback answers.0 answers.1 p.conn up in
    let h : Faithful p = exact before (omega arith) in
    let count : length (bytes_read callback answers.0) + scripted rest.reads
        ≡ scripted p.script.reads =
      next_answers-scripted callback p.script in
    act_on-Faithful m (bytes_read callback answers.0) q
      (record {
        serving = h.serving;
        order = h.order;
        input_small = h.input_small;
        output_small = h.output_small;
      })
      (member_function-Echoes callback answers.0 answers.1 p.conn h.serving (omega arith)
        (omega (arith, h.input_small)) (omega (arith, h.output_small)) up)
